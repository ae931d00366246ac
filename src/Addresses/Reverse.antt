-- ===== src/Addresses/Reverse.antt =====
-- `updateRevMaps`: the reverse maps agree with the maps of names.
use libdwarfparser.Prelude.{
  ℕ, ◌≡◌, ◌⊎◌, ◌↔◌, inl, inr, refl, String, Bool, true, false, Option, none, some, [], ◌∷◌, arith,
  eq_iff, nat_eq, string_eq,
}
use libdwarfparser.Map.{Map, find, IsUnique}
use libdwarfparser.OrderedMap
use libdwarfparser.OrderedMap.{OrderedMap, IsAscending, IsAscending-assign}
use libdwarfparser.Addresses.{
  Addresses, reverse_entries, update_rev_maps, is_symbol, get_elf_symbol_name, is_function,
  get_function_name, found, name_or_empty,
}

pub reverse_entries-IsAscending :
    (m : Map String ℕ) (rev : OrderedMap String)
    → IsAscending rev
    → IsAscending (reverse_entries m rev)
unfolding reverse_entries
reverse_entries-IsAscending [] rev h = h
reverse_entries-IsAscending ((n, a) ∷ m) rev h =
    reverse_entries-IsAscending m (OrderedMap.assign rev a n) (IsAscending-assign rev a n h)

-- What the loop adds is an entry of the map, and what was there stays reversed.
reverse_entries_sound :
    (m : Map String ℕ) (rev : OrderedMap String) (a : ℕ) (n : String)
    → IsUnique m
    → OrderedMap.find (reverse_entries m rev) a ≡ some n
    → (find m n ≡ some a) ⊎ (OrderedMap.find rev a ≡ some n)
unfolding reverse_entries find
reverse_entries_sound [] rev a n u h = inr h
reverse_entries_sound ((n', a') ∷ m) rev a n u h = ground (
  arith,
  reverse_entries_sound m (OrderedMap.assign rev a' n') a n u.1 h,
  OrderedMap.find-assign rev a' a n',
  eq_iff n' n,
)

found_after :
    (m : Map String ℕ) (rev : OrderedMap String) (a : ℕ)
    → found (OrderedMap.find rev a) ≡ true
    → found (OrderedMap.find (reverse_entries m rev) a) ≡ true
unfolding reverse_entries
found_after [] rev a h = h
found_after ((n', a') ∷ m) rev a h =
    found_after m (OrderedMap.assign rev a' n') a
      (ground (arith, OrderedMap.find-assign rev a' a n'))

reverse_entries_complete :
    (m : Map String ℕ) (rev : OrderedMap String) (n : String) (a : ℕ)
    → find m n ≡ some a
    → found (OrderedMap.find (reverse_entries m rev) a) ≡ true
unfolding reverse_entries find
reverse_entries_complete [] rev n a h = cc
reverse_entries_complete ((n', a') ∷ m) rev n a h = ground (
  arith,
  reverse_entries_complete m (OrderedMap.assign rev a' n') n a,
  found_after m (OrderedMap.assign rev a' n') a,
  OrderedMap.find-assign rev a' a n',
)

-- One map and its reverse: an address is in the reverse exactly when some name has it, and the name
-- found for it is such a name.
abbrev pub Reverses : Map String ℕ → (ℕ → Bool) → (ℕ → String) → Type 0
Reverses m known name_of =
    (a : ℕ)
    → ((known a ≡ true) ↔ ((n : String) × (find m n ≡ some a)))
      × ((known a ≡ false) ⊎ (find m (name_of a) ≡ some a))

module _ (m : Map String ℕ) (unique : IsUnique m) (a : ℕ) where
  name_of_address :
      (o : Option String)
      → OrderedMap.find (reverse_entries m []) a ≡ o
      → (found o ≡ false) ⊎ (find m (name_or_empty o) ≡ some a)
  unfolding OrderedMap.find
  name_of_address none e = inl refl
  name_of_address (some n) e = inr (ground (arith, reverse_entries_sound m [] a n unique e))

  some_name :
      (o : Option String)
      → OrderedMap.find (reverse_entries m []) a ≡ o
      → found o ≡ true
      → (n : String) × (find m n ≡ some a)
  unfolding OrderedMap.find
  some_name none e h = cc
  some_name (some n) e h = (n, ground (arith, reverse_entries_sound m [] a n unique e))

  reverse_entries-Reverses :
      let o = OrderedMap.find (reverse_entries m []) a in
      ((found o ≡ true) ↔ ((n : String) × (find m n ≡ some a)))
      × ((found o ≡ false) ⊎ (find m (name_or_empty o) ≡ some a))
  reverse_entries-Reverses =
      ((some_name _ refl, λ (n, h). reverse_entries_complete m [] n a h), name_of_address _ refl)

-- After `updateRevMaps`, for ELF symbols and for functions: an address is known exactly when some
-- name has it, and the name given for a known address has that address.
pub update_rev_maps-Reverses :
    (s : Addresses)
    → IsUnique s.elf_symbol_map
    → IsUnique s.function_symbol_map
    → Reverses s.elf_symbol_map
        (is_symbol (update_rev_maps s))
        (get_elf_symbol_name (update_rev_maps s))
      × Reverses s.function_symbol_map
          (is_function (update_rev_maps s))
          (get_function_name (update_rev_maps s))
unfolding update_rev_maps is_symbol get_elf_symbol_name is_function get_function_name
update_rev_maps-Reverses s u v =
    (reverse_entries-Reverses s.elf_symbol_map u, reverse_entries-Reverses s.function_symbol_map v)
