-- ===== src/Manager/Destroy.antt =====
-- The destructor of `SymbolManager` and the operations that list its symbols
-- (libdwarfparser/symbolmanager.cpp).
use libdwarfparser.Prelude.{
  ℕ, ◌≡◌, refl, String, none, some, List, [], ◌∷◌, map, length, arith, nat_eq, Option-cases, inl,
  inr,
}
use libdwarfparser.Outcome.{fail, undefined}
use libdwarfparser.Map.{find, erase, find-erase}
use libdwarfparser.Symbols.{Pointer}
use libdwarfparser.Manager.{SymbolManager, Method, pure, ◌>>=◌, ◌>>◌, get, delete}

unfoldable pub delete_all : List (ℕ × Pointer) → Method (Unit {0})
unfolding delete
delete_all [] = pure tt
delete_all ((id, p) ∷ entries) = delete p >> delete_all entries

unfoldable pub destructor : Method (Unit {0})
unfolding delete_all
destructor = get >>= λ m. delete_all m.symbol_id_map

abbrev pub number_of_symbols : SymbolManager → ℕ
number_of_symbols m = length m.symbol_id_map

abbrev pub get_var_names : SymbolManager → List String
get_var_names m = map (λ e. e.0) m.variable_name_map

delete_all_dangling :
    (entries : List (ℕ × Pointer)) (m : SymbolManager) (id p : ℕ)
    → find entries id ≡ some p
    → find m.heap.cells p ≡ none
    → (delete_all entries m).0 ≡ fail undefined
unfolding delete_all find
delete_all_dangling [] m id p h gone = absurd (ground arith)
delete_all_dangling ((j, q) ∷ entries) m id p h gone = elim (Option-cases (find m.heap.cells q)) [
  | inl missing ↦ rw (missing, delete) refl
  | inr (s, there) ↦
      let rest =
        delete_all_dangling entries
          (record m { heap = record m.heap { cells = erase m.heap.cells q } }) id p in
      let still : find (erase m.heap.cells q) p ≡ none =
        ground (arith, find-erase m.heap.cells q p) in
      let later : find entries id ≡ some p = ground (arith, gone, there) in
      rw (there, delete) (rest later still)
]

-- Where an identifier leads to an object that was deleted, as a merged duplicate does, the
-- destructor ends in undefined behaviour.
pub destructor-dangling :
    (m : SymbolManager) (id p : ℕ)
    → find m.symbol_id_map id ≡ some p
    → find m.heap.cells p ≡ none
    → (destructor m).0 ≡ fail undefined
unfolding destructor
destructor-dangling m id p h gone = delete_all_dangling m.symbol_id_map m id p h gone
