-- ===== src/Addresses/Names.antt =====
-- `addSymbolAddress`: the renaming loop ends, and what the call does to the map of ELF symbols.
use Prim.Native.String.{◌++◌, count}
use libdwarfparser.Prelude.{
  ℕ, zero, suc, ◌<◌, ◌≡◌, refl, ap, String, Bool, true, false, not, Option, none, some, length,
  ◌==◌, arith, eq_iff, nat_eq, string_eq, Option-cases, Bool-cases, inl, inr,
}
use libdwarfparser.Outcome.{ok}
use libdwarfparser.Map.{Map, find, assign, assign_same, find-assign}
use libdwarfparser.Addresses.Underscores.{
  underscored, long_names, long_names-le, long_names-find, count-underscore,
}
use libdwarfparser.Addresses.{Addresses, rename_symbol, finish_symbol, add_symbol_address}

module _ (m : Map String ℕ) (address : ℕ) (replace : Bool) where
  -- The loop ends before its fuel does: each round drops the names of one length.
  pub rename_symbol_ends :
      (fuel : ℕ) (name : String) (dup : Bool)
      → long_names (count name) m < fuel
      → (r : Option (String × Bool)) × (rename_symbol fuel m address replace name dup ≡ ok r)
  unfolding rename_symbol
  rename_symbol_ends zero name dup h = absurd (omega arith)
  rename_symbol_ends (suc fuel) name dup h = elim (Option-cases (find m name)) [
    | inl free ↦ (some (name, dup), rw (free, rename_symbol))
    | inr (v, used) ↦
        let (r, e) = rename_symbol_ends fuel (name ++ "_") true (
          omega (
            arith,
            count-underscore name,
            ap (λ n. long_names n m) (count-underscore name),
            long_names-find m name v used,
          )) in
        elim (Bool-cases (v == address)) [
          | inl same ↦ (none, ground arith)
          | inr other ↦ elim (Bool-cases replace) [
            | inl over ↦ (some (name, true), ground arith)
            | inr next ↦ (r, ground (arith, e))
          ]
        ]
  ]

  -- What an answer of the loop says about the name it came to.
  abbrev Landed : Option (String × Bool) → String → Type 0
  Landed none n = find m n ≡ some address
  Landed (some (n', dup)) n = (n' ≡ n) × (replace ≡ false → find m n ≡ none)

  rename_symbol-Landed :
      (fuel : ℕ) (name : String) (dup : Bool) (r : Option (String × Bool))
      → rename_symbol fuel m address replace name dup ≡ ok r
      → (k : ℕ) × Landed r (underscored name k)
  unfolding rename_symbol underscored
  rename_symbol-Landed zero name dup r e = cc
  rename_symbol-Landed (suc fuel) name dup none e = elim (Option-cases (find m name)) [
    | inl free ↦ cc (rw (free, rename_symbol) at e)
    | inr (v, used) ↦ elim (Bool-cases (v == address)) [
      | inl same ↦ (0, ground arith)
      | inr other ↦
          let (k, landed) = rename_symbol-Landed fuel (name ++ "_") true none (ground arith) in
          (suc k, landed)
    ]
  ]
  rename_symbol-Landed (suc fuel) name dup (some (n, d)) e = elim (Option-cases (find m name)) [
    | inl free ↦ (0, (ground arith, λ h. free))
    | inr (v, used) ↦ elim (Bool-cases replace) [
      | inl over ↦ (0, (ground arith, λ h. cc))
      | inr next ↦
          let (k, landed) =
            rename_symbol-Landed fuel (name ++ "_") true (some (n, d)) (ground arith) in
          (suc k, landed)
    ]
  ]

-- `addSymbolAddress` returns, whatever names are taken.
pub add_symbol_address_returns :
    (s : Addresses) (name : String) (address : ℕ) (replace : Bool)
    → (r : Bool × Addresses) × (add_symbol_address s name address replace ≡ ok r)
unfolding add_symbol_address
add_symbol_address_returns s name address replace =
    let m = s.elf_symbol_map in
    let (r, e) =
      rename_symbol_ends m address replace (suc (length m)) name false
        (omega (arith, long_names-le (count name) m)) in
    (finish_symbol s address r, rw (e, add_symbol_address))

found_after :
    (s : Addresses) (address : ℕ) (replace : Bool) (name : String) (k : ℕ)
    (r : Option (String × Bool))
    → rename_symbol (suc (length s.elf_symbol_map)) s.elf_symbol_map address replace name false
      ≡ ok r
    → Landed s.elf_symbol_map address replace r (underscored name k)
    → (d : Bool) × (s' : Addresses) × (k : ℕ) × (add_symbol_address s name address replace
        ≡ ok (d, s'))
      × (find s'.elf_symbol_map (underscored name k) ≡ some address)
unfolding add_symbol_address
found_after s address replace name k none e landed =
    (false, s, k, rw (e, add_symbol_address), landed)
found_after s address replace name k (some (n, d)) e landed = (
  d,
  (finish_symbol s address (some (n, d))).1,
  k,
  rw (e, add_symbol_address),
  ground (
    arith,
    find-assign s.elf_symbol_map n (underscored name k) address,
    eq_iff n (underscored name k),
  ),
)

-- The address that was added is found afterwards, under the name with some underscores behind it.
pub find-add_symbol_address :
    (s : Addresses) (name : String) (address : ℕ) (replace : Bool)
    → (d : Bool) × (s' : Addresses) × (k : ℕ) × (add_symbol_address s name address replace
        ≡ ok (d, s'))
      × (find s'.elf_symbol_map (underscored name k) ≡ some address)
unfolding add_symbol_address
find-add_symbol_address s name address replace =
    let m = s.elf_symbol_map in
    let (r, e) =
      rename_symbol_ends m address replace (suc (length m)) name false
        (omega (arith, long_names-le (count name) m)) in
    let (k, landed) = rename_symbol-Landed m address replace (suc (length m)) name false r e in
    found_after s address replace name k r e landed

kept_after :
    (s : Addresses) (address : ℕ) (n : String) (r : Option (String × Bool)) (d : Bool)
    (s' : Addresses)
    → Landed s.elf_symbol_map address false r n
    → ok (finish_symbol s address r) ≡ ok (d, s')
    → (j : String) (v : ℕ) → find s.elf_symbol_map j ≡ some v
    → find s'.elf_symbol_map j ≡ some v
unfolding finish_symbol
kept_after s address n none d s' landed e j v known = ground arith
kept_after s address n (some (n', d')) d s' landed e j v known =
    ground (arith, find-assign s.elf_symbol_map n' j address, eq_iff n' j, landed.1 refl)

-- Without `replace` no name that was known changes its address.
pub add_symbol_address_keeps :
    (s : Addresses) (name : String) (address : ℕ) (d : Bool) (s' : Addresses)
    → add_symbol_address s name address false ≡ ok (d, s')
    → (j : String) (v : ℕ) → find s.elf_symbol_map j ≡ some v
    → find s'.elf_symbol_map j ≡ some v
unfolding add_symbol_address
add_symbol_address_keeps s name address d s' e j v known =
    let m = s.elf_symbol_map in
    let (r, er) =
      rename_symbol_ends m address false (suc (length m)) name false
        (omega (arith, long_names-le (count name) m)) in
    let (k, landed) = rename_symbol-Landed m address false (suc (length m)) name false r er in
    kept_after s address (underscored name k) r d s' landed (rw (er, add_symbol_address) at e) j v
      known

-- With `replace` the name has the new address afterwards, every other name the old one, and the
-- call tells whether the name had another address before.
pub add_symbol_address_replace :
    (s : Addresses) (name : String) (address : ℕ)
    → add_symbol_address s name address true
      ≡ ok (
        elim (find s.elf_symbol_map name) [ none ↦ false | some v ↦ not (v == address) ],
        record s { elf_symbol_map = assign s.elf_symbol_map name address },
      )
unfolding add_symbol_address rename_symbol finish_symbol
add_symbol_address_replace s name address =
    ground (arith, assign_same s.elf_symbol_map name address)

-- A name that is known with the same address is left alone, and the call returns `false`.
pub add_symbol_address-known :
    (s : Addresses) (name : String) (address : ℕ) (replace : Bool)
    → find s.elf_symbol_map name ≡ some address
    → add_symbol_address s name address replace ≡ ok (false, s)
unfolding add_symbol_address rename_symbol finish_symbol
add_symbol_address-known s name address replace h = ground arith
