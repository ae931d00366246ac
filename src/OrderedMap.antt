-- ===== src/OrderedMap.antt =====
-- `std::map<uint64_t, V>`: an association list in ascending order of its keys.
use libdwarfparser.Prelude.{
  ℕ, ◌≡◌, ◌<◌, refl, Option, none, some, List, [], ◌∷◌, arith, ltb, ◌==◌, if◌then◌else◌, nat_eq,
}

abbrev pub OrderedMap {ℓ} : Type ℓ → Type ℓ
OrderedMap V = List (ℕ × V)

module _ {ℓ} {V : Type ℓ} where
  unfoldable pub find : OrderedMap V → ℕ → Option V
  find [] k = none
  find ((j, v) ∷ m) k = if j == k then some v else find m k

  -- `m[k] = v`: a new key goes before the first larger one.
  unfoldable pub assign : OrderedMap V → ℕ → V → OrderedMap V
  assign [] k v = (k, v) ∷ []
  assign ((j, w) ∷ m) k v =
      if j == k then (k, v) ∷ m else if ltb k j then (k, v) ∷ (j, w) ∷ m else (j, w) ∷ assign m k v

  -- The entries before the iterator `m.upper_bound(k)`, and those from it on.
  unfoldable pub before_upper : OrderedMap V → ℕ → OrderedMap V
  before_upper [] k = []
  before_upper ((j, v) ∷ m) k = let rest = before_upper m k in if ltb k j then [] else (j, v) ∷ rest

  unfoldable pub from_upper : OrderedMap V → ℕ → OrderedMap V
  from_upper [] k = []
  from_upper ((j, v) ∷ m) k = let rest = from_upper m k in if ltb k j then (j, v) ∷ m else rest

  -- The keys are larger than `n` and ascend.
  abbrev pub Above : ℕ → OrderedMap V → Type 0
  Above n [] = Unit
  Above n ((j, v) ∷ m) = (n < j) × Above j m

  abbrev pub IsAscending : OrderedMap V → Type 0
  IsAscending [] = Unit
  IsAscending ((j, v) ∷ m) = Above j m

  pub find-assign :
      (m : OrderedMap V) (k j : ℕ) (v : V)
      → find (assign m k v) j ≡ (if k == j then some v else find m j)
  unfolding find assign
  find-assign [] k j v = refl
  find-assign ((i, w) ∷ m) k j v = ground (arith, find-assign m k j v)

  Above-assign :
      (n : ℕ) (m : OrderedMap V) (k : ℕ) (v : V) → n < k → Above n m → Above n (assign m k v)
  unfolding assign
  Above-assign n [] k v h a = (h, tt)
  Above-assign n ((j, w) ∷ m) k v h a = ground (arith, Above-assign j m k v)

  pub IsAscending-assign :
      (m : OrderedMap V) (k : ℕ) (v : V) → IsAscending m → IsAscending (assign m k v)
  unfolding assign
  IsAscending-assign [] k v a = tt
  IsAscending-assign ((j, w) ∷ m) k v a = ground (arith, Above-assign j m k v)
