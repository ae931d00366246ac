-- ===== src/Manager/Register.antt =====
-- The methods of `SymbolManager` that enter a symbol (libdwarfparser/symbolmanager.cpp), and those
-- that link and remove identifiers.
use libdwarfparser.Prelude.{
  ℕ, String, none, some, List, [], ◌∷◌, ◌++◌, ◌==◌, ltb, if◌then◌else◌, nat_eq, string_eq,
}
use libdwarfparser.Outcome.{deadlock}
use libdwarfparser.Map.{Map, find, assign, at_or}
use libdwarfparser.Symbols.{Pointer}
use libdwarfparser.Manager.{Multimap, Method, raise, ◌>>=◌, ◌>>◌, get, put, deref}

-- `std::set<uint64_t>::insert`
unfoldable pub set_insert : List ℕ → ℕ → List ℕ
set_insert [] i = i ∷ []
set_insert (j ∷ js) i =
    if j == i then j ∷ js else if ltb i j then i ∷ j ∷ js else j ∷ set_insert js i

-- `std::multimap<uint64_t, _>::insert`: behind the entries with the same key.
unfoldable pub multi_insert : Multimap ℕ → ℕ → Pointer → Multimap ℕ
multi_insert [] k p = (k, p) ∷ []
multi_insert ((j, q) ∷ m) k p = if ltb k j then (k, p) ∷ (j, q) ∷ m else (j, q) ∷ multi_insert m k p

unfoldable pub add_symbol : Pointer → Method (Unit {0})
unfolding deref
add_symbol p = do
  s ← deref p
  m ← get
  let names = if s.name == "" then m.symbol_name_map else m.symbol_name_map ++ (s.name, p) ∷ []
  put (record m { symbol_name_map = names; symbol_id_map = assign m.symbol_id_map s.id p })

unfoldable pub add_base_type : Pointer → Method (Unit {0})
unfolding deref
add_base_type p = do
  s ← deref p
  m ← get
  put (
      if s.name == ""
      then m
      else record m { base_type_name_map = m.base_type_name_map ++ (s.name, p) ∷ [] })

unfoldable pub add_ref_base_type : Pointer → Method (Unit {0})
unfolding deref
add_ref_base_type p = do
  s ← deref p
  m ← get
  put (
      if s.name == ""
      then m
      else record m { ref_base_type_name_map = assign m.ref_base_type_name_map s.name p })

-- The first function of a name keeps the name; every function joins the list.
unfoldable pub add_function : Pointer → Method (Unit {0})
unfolding deref
add_function p = do
  s ← deref p
  m ← get
  let named : Map String Pointer = elim (find m.function_name_map s.name) [
    | none ↦ assign m.function_name_map s.name p
    | some _ ↦ m.function_name_map
  ]
  put (record m { function_name_map = if s.name == "" then m.function_name_map else named })
  m' ← get
  if m'.func_list_locked
      then raise deadlock
      else put (record m' { func_list = m'.func_list ++ p ∷ [] })

unfoldable pub add_array : Pointer → Method (Unit {0})
add_array p = do
  m ← get
  if m.array_vector_locked
      then raise deadlock
      else put (record m { array_vector = m.array_vector ++ p ∷ [] })

unfoldable pub add_variable : Pointer → Method (Unit {0})
unfolding deref
add_variable p = do
  s ← deref p
  m ← get
  put (
      if s.name == ""
      then m
      else record m { variable_name_map = assign m.variable_name_map s.name p })

-- `new_id` becomes an alias of `id`.
unfoldable pub add_alternative_id : ℕ → ℕ → Method (Unit {0})
unfolding set_insert
add_alternative_id id new_id = do
  m ← get
  let aliases = at_or m.symbol_id_alias_reverse_list id []
  put (record m {
    symbol_id_alias_map = assign m.symbol_id_alias_map new_id id;
    symbol_id_alias_reverse_list =
        assign m.symbol_id_alias_reverse_list id (set_insert aliases new_id);
  })
