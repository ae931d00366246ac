-- ===== src/Clean/Sort.antt =====
-- The sorted vector: its order, and that it has the same items.
use mathlib.Core.List.{Perm}
use mathlib.Core.List.Perm
use libdwarfparser.Prelude.{ℕ, ◌≡◌, Bool, true, false, List, [], ◌∷◌, Bool-cases, inl, inr}
use libdwarfparser.Symbols.{Pointer}
use libdwarfparser.Clean.{insert_sorted, sort}
use libdwarfparser.Clean.Order.{IsStrictTotal}

module _ {V : Type 0} (lt : V → V → Bool) where
  -- No item stands before its predecessor in the order, from `v` on.
  abbrev pub IsSortedFrom : V → List (Pointer × V) → Type 0
  IsSortedFrom v [] = Unit
  IsSortedFrom v ((p, w) ∷ items) = (lt w v ≡ false) × IsSortedFrom w items

  abbrev pub IsSorted : List (Pointer × V) → Type 0
  IsSorted [] = Unit
  IsSorted ((p, v) ∷ items) = IsSortedFrom v items

  pub sort-perm : (items : List (Pointer × V)) → Perm (sort lt items) items
  unfolding sort
  sort-perm [] = Perm.nil
  sort-perm (i ∷ items) =
      Perm.trans (insert_sorted-perm i (sort lt items)) (Perm.cons i (sort-perm items))
    where
      insert_sorted-perm :
          (i : Pointer × V) (items : List (Pointer × V))
          → Perm (insert_sorted lt i items) (i ∷ items)
      insert_sorted-perm (p, v) [] = Perm.refl _
      insert_sorted-perm (p, v) ((q, w) ∷ items) = elim (Bool-cases (lt w v)) [
        | inl before ↦
            rw (before, insert_sorted)
              (Perm.trans (Perm.cons (q, w) (insert_sorted-perm (p, v) items))
                (Perm.swap (p, v) (q, w) items))
        | inr behind ↦ rw (behind, insert_sorted) (Perm.refl _)
      ]

module _ {V : Type 0} (lt : V → V → Bool) (id_of : V → ℕ) (strict : IsStrictTotal lt id_of) where
  asymmetric : (a b : V) → lt a b ≡ true → lt b a ≡ false
  asymmetric a b h = elim (Bool-cases (lt b a)) [
    | inl back ↦ cc (strict.transitive a b a h back, strict.irreflexive a)
    | inr none ↦ none
  ]

  insert-IsSortedFrom :
      (u : V) (p : Pointer) (v : V) (items : List (Pointer × V))
      → lt v u ≡ false
      → IsSortedFrom lt u items
      → IsSortedFrom lt u (insert_sorted lt (p, v) items)
  unfolding insert_sorted
  insert-IsSortedFrom u p v [] h s = (h, tt)
  insert-IsSortedFrom u p v ((q, w) ∷ items) h s = elim (Bool-cases (lt w v)) [
    | inl before ↦
        rw (before, insert_sorted)
          (s.0, insert-IsSortedFrom w p v items (asymmetric w v before) s.1)
    | inr behind ↦ rw (behind, insert_sorted) (h, (behind, s.1))
  ]

  insert-IsSorted :
      (p : Pointer) (v : V) (items : List (Pointer × V))
      → IsSorted lt items
      → IsSorted lt (insert_sorted lt (p, v) items)
  unfolding insert_sorted
  insert-IsSorted p v [] s = tt
  insert-IsSorted p v ((q, w) ∷ items) s = elim (Bool-cases (lt w v)) [
    | inl before ↦
        rw (before, insert_sorted) (insert-IsSortedFrom w p v items (asymmetric w v before) s)
    | inr behind ↦ rw (behind, insert_sorted) (behind, s)
  ]

  -- The sorted vector is in order.
  pub sort-IsSorted : (items : List (Pointer × V)) → IsSorted lt (sort lt items)
  unfolding sort
  sort-IsSorted [] = tt
  sort-IsSorted ((p, v) ∷ items) = insert-IsSorted p v (sort lt items) (sort-IsSorted items)
