-- ===== src/Clean/Arrays.antt =====
-- `cleanArrays` on the sorted vector: which arrays stay, and which are lost.
use libdwarfparser.Prelude.{
  ◌≡◌, ◌<◌, ◌≤◌, ◌⊎◌, inl, inr, refl, ap, sym, subst, true, false, some, List, [], ◌∷◌, arith,
  Bool-cases, All, nat_eq,
}
use libdwarfparser.Outcome.{ok, fail, deadlock}
use libdwarfparser.Symbols.{Pointer}
use libdwarfparser.Manager.{SymbolManager}
use libdwarfparser.Manager.Register.{add_array}
use libdwarfparser.Clean.{ArrayView, array_lt, array_eq, merge_sorted, clean_arrays}
use libdwarfparser.Clean.Sort.{IsSorted, IsSortedFrom}
use libdwarfparser.Clean.Merge.{kept, AreLive, merge-kept}

-- The element type of `a` comes before that of `b`, or it is the same and `a` is shorter.
abbrev pub KeyBelow : ArrayView → ArrayView → Type 0
KeyBelow a b = (a.type < b.type) ⊎ ((a.type ≡ b.type) × (a.length < b.length))

-- Each item comes strictly behind the one before it, and the first behind `v`.
abbrev pub Ascending : ArrayView → List (Pointer × ArrayView) → Type 0
Ascending v [] = Unit
Ascending v ((p, w) ∷ items) = KeyBelow v w × Ascending w items

array_eq_same : (a b : ArrayView) → array_eq a b ≡ true → (a.type ≡ b.type) × (a.length ≡ b.length)
unfolding array_eq
array_eq_same a b h = ground arith

next_key :
    (old u w : ArrayView)
    → (old.type ≡ u.type) × (old.length ≡ u.length)
    → array_lt w u ≡ false
    → array_eq old w ≡ false
    → KeyBelow old w
unfolding array_lt array_eq
next_key old u w same behind other = ground arith

kept-Ascending_from :
    (old u : ArrayView) (items : List (Pointer × ArrayView))
    → (old.type ≡ u.type) × (old.length ≡ u.length)
    → IsSortedFrom array_lt u items
    → Ascending old (kept array_eq (λ v. v.id) old items)
unfolding kept
kept-Ascending_from old u [] same s = tt
kept-Ascending_from old u ((p, w) ∷ items) same s = elim (Bool-cases (array_eq old w)) [
  | inl equal ↦ rw (equal, kept) (kept-Ascending_from old w items (array_eq_same old w equal) s.1)
  | inr other ↦
      rw (other, kept)
        (next_key old u w same s.0 other, kept-Ascending_from w w items (refl, refl) s.1)
]

-- A list that leaves out items of another and keeps the order.
abbrev pub Picked : List (Pointer × ArrayView) → List (Pointer × ArrayView) → Type 0
Picked vector [] = vector ≡ []
Picked vector (i ∷ items) =
    Picked vector items
    ⊎ ((rest : List (Pointer × ArrayView)) × (vector ≡ i ∷ rest) × Picked rest items)

-- The two are equal, and the first has the lower identifier, if they differ in it.
abbrev pub StandsFor : ArrayView → ArrayView → Type 0
StandsFor a b = (array_eq a b ≡ true) × (a.id ≤ b.id)

-- An array of the list stands for `w`.
abbrev pub Has : ArrayView → List (Pointer × ArrayView) → Type 0
Has w [] = ⊥
Has w ((q, u) ∷ items) = StandsFor u w ⊎ Has w items

kept-Picked :
    (old : ArrayView) (items : List (Pointer × ArrayView))
    → Picked (kept array_eq (λ v. v.id) old items) items
unfolding kept
kept-Picked old [] = refl
kept-Picked old ((p, w) ∷ items) = elim (Bool-cases (array_eq old w)) [
  | inl equal ↦ rw (equal, kept) (inl (kept-Picked old items))
  | inr other ↦
      rw (other, kept) (inr (kept array_eq (λ v. v.id) w items, refl, kept-Picked w items))
]

equal_next :
    (old u w : ArrayView)
    → (old.type ≡ u.type) × (old.length ≡ u.length) × (old.id ≤ u.id)
    → array_lt w u ≡ false
    → array_eq old w ≡ true
    → (old.type ≡ w.type) × (old.length ≡ w.length) × (old.id ≤ w.id)
unfolding array_lt array_eq
equal_next old u w same behind equal = ground arith

StandsFor-self : (w : ArrayView) → StandsFor w w
unfolding array_eq
StandsFor-self w = ground arith

All-inr :
    (old : ArrayView) (vector : List (Pointer × ArrayView)) (i : Pointer × ArrayView)
    (items : List (Pointer × ArrayView))
    → All (λ j. StandsFor i.1 j.1 ⊎ Has j.1 vector) items
    → All (λ j. StandsFor old j.1 ⊎ Has j.1 (i ∷ vector)) items
All-inr old vector i [] h = tt
All-inr old vector i (j ∷ items) h = (inr h.0, All-inr old vector i items h.1)

module _ (old : ArrayView) (p : Pointer) (w : ArrayView) (items : List (Pointer × ArrayView)) where
  kept-equal :
      array_eq old w ≡ true
      → kept array_eq (λ v. v.id) old ((p, w) ∷ items) ≡ kept array_eq (λ v. v.id) old items
  unfolding kept
  kept-equal equal = rw equal refl

  kept-other :
      array_eq old w ≡ false
      → kept array_eq (λ v. v.id) old ((p, w) ∷ items) ≡ (p, w) ∷ kept array_eq (λ v. v.id) w items
  unfolding kept
  kept-other other = rw other refl

-- Each item is stood for by the last one kept or by one of the list that is kept.
kept-Has :
    (old u : ArrayView) (items : List (Pointer × ArrayView))
    → (old.type ≡ u.type) × (old.length ≡ u.length) × (old.id ≤ u.id)
    → IsSortedFrom array_lt u items
    → All (λ i. StandsFor old i.1 ⊎ Has i.1 (kept array_eq (λ v. v.id) old items)) items
unfolding kept
kept-Has old u [] same s = tt
kept-Has old u ((p, w) ∷ items) same s = elim (Bool-cases (array_eq old w)) [
  | inl equal ↦
      let next = equal_next old u w same s.0 equal in
      subst (λ vector. All (λ i. StandsFor old i.1 ⊎ Has i.1 vector) ((p, w) ∷ items))
        (sym (kept-equal old p w items equal))
        (inl (equal, omega (arith, next)), kept-Has old w items next s.1)
  | inr other ↦
      subst (λ vector. All (λ i. StandsFor old i.1 ⊎ Has i.1 vector) ((p, w) ∷ items))
        (sym (kept-other old p w items other))
        (
          inr (inl (StandsFor-self w)),
          All-inr old (kept array_eq (λ v. v.id) w items) (p, w) items
              (kept-Has w w items (refl, refl, omega arith) s.1),
        )
]

above_first :
    (a b : ArrayView) (items : List (Pointer × ArrayView))
    → KeyBelow a b ⊎ ((a.type ≡ b.type) × (a.length ≡ b.length))
    → Ascending b items
    → All (λ i. array_eq a i.1 ≡ false) items
unfolding array_eq
above_first a b [] h s = tt
above_first a b ((p, c) ∷ items) h s =
    (ground arith, above_first a c items (inl (ground arith)) s.1)

-- On a sorted vector of live arrays the merge of `cleanArrays` returns a vector of some of the arrays
-- behind the first, in their order: no two of them are equal, each coming strictly behind the one
-- before it; no array equal to the first of the sorted vector is in it, the first itself included;
-- and each array behind the first is equal to the first, or to one in the vector, whose identifier
-- is not above its own.
pub merge_sorted-arrays :
    (p : Pointer) (v : ArrayView) (items : List (Pointer × ArrayView)) (m : SymbolManager)
    → IsSorted array_lt ((p, v) ∷ items)
    → AreLive array_eq (λ v. v.id) m.heap.cells items
    → (vector : List (Pointer × ArrayView)) × ((merge_sorted array_eq
          (λ v. v.id)
          ((p, v) ∷ items)
          m).0
        ≡ ok (some vector))
      × Ascending v vector
      × All (λ i. array_eq v i.1 ≡ false) vector
      × Picked vector items
      × All (λ i. StandsFor v i.1 ⊎ Has i.1 vector) items
unfolding merge_sorted
merge_sorted-arrays p v items m s l =
    let vector = kept array_eq (λ v. v.id) v items in
    let ascending = kept-Ascending_from v v items (refl, refl) s in
    (
      vector,
      ground (arith, merge-kept array_eq (λ v. v.id) v items m l),
      ascending,
      above_first v v vector (inr (refl, refl)) ascending,
      kept-Picked v items,
      kept-Has v v items (refl, refl, omega arith) s,
    )

clean_arrays-empty :
    (m : SymbolManager)
    → m.array_vector ≡ []
    → m.array_vector_locked ≡ false
    → clean_arrays m ≡ (ok tt, record m { array_vector_locked = true })
unfolding clean_arrays
clean_arrays-empty m empty free = simp (free, empty)

clean_arrays-locked :
    (m : SymbolManager) → m.array_vector_locked ≡ true → (clean_arrays m).0 ≡ fail deadlock
unfolding clean_arrays
clean_arrays-locked m h = rw h

add_array-locked :
    (m : SymbolManager) (p : Pointer)
    → m.array_vector_locked ≡ true
    → (add_array p m).0 ≡ fail deadlock
unfolding add_array
add_array-locked m p h = rw h

-- With no array to clean, `cleanArrays` returns with its mutex locked: the next call waits for ever,
-- and so does the next array that is entered.
pub clean_arrays_locks :
    (m : SymbolManager) (p : Pointer)
    → m.array_vector ≡ []
    → m.array_vector_locked ≡ false
    → ((clean_arrays m).0 ≡ ok tt)
      × ((clean_arrays (clean_arrays m).1).0 ≡ fail deadlock)
      × ((add_array p (clean_arrays m).1).0 ≡ fail deadlock)
clean_arrays_locks m p empty free =
    let cleaned = clean_arrays-empty m empty free in
    let locked = ap (λ r. r.1.array_vector_locked) cleaned in
    (
      ap (λ r. r.0) cleaned,
      clean_arrays-locked (clean_arrays m).1 locked,
      add_array-locked (clean_arrays m).1 p locked,
    )
