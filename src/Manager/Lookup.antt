-- ===== src/Manager/Lookup.antt =====
-- The methods of `SymbolManager` that look symbols up (libdwarfparser/symbolmanager.cpp and .h).
use libdwarfparser.Prelude.{
  ℕ, Bool, true, false, Option, none, some, List, [], ◌∷◌, ◌==◌, nat_eq, string_eq,
}
use libdwarfparser.Outcome.{assertion, require}
use libdwarfparser.Map.{find, erase, at_or, touch}
use libdwarfparser.Symbols.{
  Kind, Pointer, as_base_type, as_function, as_ref_base_type, as_array, as_variable,
}
use libdwarfparser.Manager.{Method, pure, raise, lift, ◌>>=◌, ◌>>◌, get, put, deref, get_rev_id}

abbrev pub holds {ℓ} : {A : Type ℓ} → Option A → Bool
holds none = false
holds (some a) = true

-- `symbolIDAliasReverseList[id]`
unfoldable pub get_aliases : ℕ → Method (List ℕ)
get_aliases id = do
  m ← get
  put (record m { symbol_id_alias_reverse_list = touch m.symbol_id_alias_reverse_list id [] })
  pure (at_or m.symbol_id_alias_reverse_list id [])

-- The end of `findSymbolByID` where nothing was found: the message looks the DWARF offset up.
unfoldable pub not_found : ℕ → Method Pointer
unfolding get_rev_id
not_found id = do d ← get_rev_id id; raise assertion

-- The last loop of `findSymbolByID`, over the identifiers that are aliases of `id`.
unfoldable pub find_by_reverse : ℕ → List ℕ → Method Pointer
unfolding not_found deref
find_by_reverse id [] m = not_found id m
find_by_reverse id (i ∷ is) m = elim (find m.symbol_id_map i) [
  | none ↦ find_by_reverse id is m
  | some p ↦ (do s ← deref p; lift (require (id == s.id)); pure p) m
]

unfoldable pub find_by_aliases : ℕ → Method Pointer
unfolding get_aliases find_by_reverse
find_by_aliases id = do is ← get_aliases id; find_by_reverse id is

-- The look-up of the symbol that `id` is an alias of.
unfoldable pub find_by_alias : ℕ → ℕ → Method Pointer
unfolding find_by_aliases
find_by_alias id new_id m = elim (find m.symbol_id_map new_id) [
  | none ↦ find_by_aliases id m
  | some p ↦ (do s ← deref p; lift (require (new_id == s.id)); pure p) m
]

unfoldable pub find_symbol_by_id : ℕ → Method Pointer
unfolding find_by_alias
find_symbol_by_id id m = elim (find m.symbol_id_map id) [
  | some p ↦ (pure p) m
  | none ↦ elim (find m.symbol_id_alias_map id) [
    | none ↦ find_by_aliases id m
    | some new_id ↦ find_by_alias id new_id m
  ]
]

-- `find…ByID` for a class: the symbol, which a cast must accept.
unfoldable pub find_class_by_id : (Kind → Bool) → ℕ → Method Pointer
unfolding find_symbol_by_id
find_class_by_id cast id = do
  p ← find_symbol_by_id id
  s ← deref p
  lift (require (cast s.kind))
  pure p

unfoldable pub find_base_type_by_id : ℕ → Method Pointer
unfolding find_class_by_id
find_base_type_by_id = find_class_by_id (λ k. holds (as_base_type k))

unfoldable pub find_function_by_id : ℕ → Method Pointer
unfolding find_class_by_id
find_function_by_id = find_class_by_id (λ k. holds (as_function k))

unfoldable pub find_ref_base_type_by_id : ℕ → Method Pointer
unfolding find_class_by_id
find_ref_base_type_by_id = find_class_by_id (λ k. holds (as_ref_base_type k))

unfoldable pub find_array_by_id : ℕ → Method Pointer
unfolding find_class_by_id
find_array_by_id = find_class_by_id (λ k. holds (as_array k))

unfoldable pub find_variable_by_id : ℕ → Method Pointer
unfolding find_class_by_id
find_variable_by_id = find_class_by_id (λ k. holds (as_variable k))

-- `Symbol::print`, for its one effect besides the output.
unfoldable pub print : Pointer → Method (Unit {0})
unfolding deref get_rev_id
print p = do s ← deref p; d ← get_rev_id s.id; pure tt

-- A symbol with aliases is reported, with the first of them, and the program stops.
unfoldable pub remove_aliased : ℕ → List ℕ → Method (Unit {0})
unfolding find_symbol_by_id print
remove_aliased id [] = do m ← get; put (record m { symbol_id_map = erase m.symbol_id_map id })
remove_aliased id (i ∷ is) = do
  p ← find_symbol_by_id i
  print p
  m ← get
  put (record m { symbol_id_map = touch m.symbol_id_map id 0 })
  print (at_or m.symbol_id_map id 0)
  raise assertion

unfoldable pub remove_symbol : ℕ → Method (Unit {0})
unfolding get_aliases remove_aliased
remove_symbol id = do is ← get_aliases id; remove_aliased id is

-- `removeSymbol` of an object.
unfoldable pub remove_symbol_at : Pointer → Method (Unit {0})
unfolding deref remove_symbol
remove_symbol_at p = do s ← deref p; remove_symbol s.id
