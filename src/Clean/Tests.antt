-- ===== src/Clean/Tests.antt =====
-- Vectors of arrays and functions, and the theorems about cleaning them.
use libdwarfparser.Prelude.{
  ℕ, ◌≡◌, refl, false, none, some, List, [], ◌∷◌, arith, nat_eq, string_eq, All, ◌⊎◌,
}
use libdwarfparser.Outcome.{ok, fail, undefined}
use libdwarfparser.Map.{find}
use libdwarfparser.Symbols.{Symbol, Pointer, base_type, ref_base_type, array}
use libdwarfparser.Manager.{SymbolManager, init, deref}
use libdwarfparser.Manager.Lookup.{find_symbol_by_id}
use libdwarfparser.Clean.{ArrayView, array_lt, array_eq, merge, merge_sorted}
use libdwarfparser.Clean.Merge.{merge_leaves_dangling}
use libdwarfparser.Clean.Arrays.{Ascending, Picked, StandsFor, Has, merge_sorted-arrays}

abbrev view : ℕ → ℕ → ℕ → ArrayView
view type length id = record { type = type; length = length; id = id }

abbrev array_of : ℕ → ℕ → ℕ → Symbol
array_of id type length = record {
  name = "";
  byte_size = 8;
  id = id;
  kind = base_type 0 (
      ref_base_type (record { type = some type; base = none })
        (array (record { length = length; length_type = 0 })));
}

-- Two equal arrays, and a longer one.
abbrev manager : SymbolManager
manager = record init {
  heap = record {
    cells = (1, array_of 3 1 10) ∷ (2, array_of 4 1 10) ∷ (3, array_of 5 1 20) ∷ [];
    next = 4;
  };
  symbol_id_map = (3, 1) ∷ (4, 2) ∷ (5, 3) ∷ [];
}

merge_sorted-arrays_example :
    (vector : List (Pointer × ArrayView)) × ((merge_sorted array_eq
        (λ v. v.id)
        ((1, view 1 10 3) ∷ (2, view 1 10 4) ∷ (3, view 1 20 5) ∷ [])
        manager).0
      ≡ ok (some vector))
    × Ascending (view 1 10 3) vector
    × All (λ i. array_eq (view 1 10 3) i.1 ≡ false) vector
    × Picked vector ((2, view 1 10 4) ∷ (3, view 1 20 5) ∷ [])
    × All
        (λ (i : Pointer × ArrayView). StandsFor (view 1 10 3) i.1 ⊎ Has i.1 vector)
        ((2, view 1 10 4) ∷ (3, view 1 20 5) ∷ [])
unfolding array_lt find
merge_sorted-arrays_example =
    merge_sorted-arrays 1 (view 1 10 3) ((2, view 1 10 4) ∷ (3, view 1 20 5) ∷ []) manager
      (refl, (refl, tt))
      ((array_of 4 1 10, refl), (omega arith, tt), ((array_of 5 1 20, refl), tt, tt))

merge_leaves_dangling_example :
    let m' =
      (merge array_eq
        (λ v. v.id)
        (view 1 10 3)
        ((2, view 1 10 4) ∷ (3, view 1 20 5) ∷ [])
        manager).1 in
    ((find_symbol_by_id 4 m').0 ≡ ok 2) × ((deref 2 m').0 ≡ fail undefined)
unfolding array_eq find
merge_leaves_dangling_example =
    merge_leaves_dangling array_eq (λ v. v.id) (view 1 10 3) 2 (view 1 10 4) ((3, view 1 20 5) ∷ [])
      manager (array_of 4 1 10) refl refl refl
