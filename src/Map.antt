-- ===== src/Map.antt =====
-- `std::unordered_map` (and `std::map` where its order is not used) as an association list with one
-- entry for each key. The order of the entries stands for the order of iteration.
use libdwarfparser.Prelude.{
  ◌≡◌, refl, true, Option, none, some, List, [], ◌∷◌, arith, Key, All, Bool-cases, inl, inr, sym,
  subst, ◌==◌, if◌then◌else◌,
}

abbrev pub Map {ℓ κ} : Type ℓ → Type κ → Type (ℓ ⊔ κ)
Map K V = List (K × V)

module _ {ℓ} {K : Type ℓ} ⦃e : Key K⦄ where
  pub same_refl : (k : K) → (k == k) ≡ true
  same_refl k = (e.same_iff k k).1 refl

module _ {ℓ κ} {K : Type ℓ} {V : Type κ} ⦃e : Key K⦄ where
  -- `m.find(k)`
  unfoldable pub find : Map K V → K → Option V
  find [] k = none
  find ((j, v) ∷ m) k = if j == k then some v else find m k

  -- `m[k] = v`: a new key goes to the end.
  unfoldable pub assign : Map K V → K → V → Map K V
  assign [] k v = (k, v) ∷ []
  assign ((j, w) ∷ m) k v = if j == k then (j, v) ∷ m else (j, w) ∷ assign m k v

  -- `m.erase(k)`
  unfoldable pub erase : Map K V → K → Map K V
  erase [] k = []
  erase ((j, w) ∷ m) k = let rest = erase m k in if j == k then rest else (j, w) ∷ rest

  -- The value read by `m[k]` of C++, where `d` is the default that a missing key is given.
  unfoldable pub at_or : Map K V → K → V → V
  unfolding find
  at_or m k d = elim (find m k) [ none ↦ d | some v ↦ v ]

  -- What `m[k]` leaves behind: a missing key is inserted with the default.
  unfoldable pub touch : Map K V → K → V → Map K V
  unfolding find assign
  touch m k d = elim (find m k) [ none ↦ assign m k d | some _ ↦ m ]

  pub find-assign :
      (m : Map K V) (k j : K) (v : V)
      → find (assign m k v) j ≡ (if k == j then some v else find m j)
  unfolding find assign
  find-assign [] k j v = refl
  find-assign ((i, w) ∷ m) k j v =
      ground (arith, e.same_iff k j, e.same_iff i k, e.same_iff i j, find-assign m k j v)

  pub find-assign_own : (m : Map K V) (k : K) (v : V) → find (assign m k v) k ≡ some v
  find-assign_own m k v = ground (arith, find-assign m k k v, same_refl k)

  pub assign_same : (m : Map K V) (k : K) (v : V) → find m k ≡ some v → assign m k v ≡ m
  unfolding find assign
  assign_same [] k v h = cc
  assign_same ((i, w) ∷ m) k v h = ground (arith, assign_same m k v)

  pub find-erase :
      (m : Map K V) (k j : K) → find (erase m k) j ≡ (if k == j then none else find m j)
  unfolding find erase
  find-erase [] k j = ground arith
  find-erase ((i, w) ∷ m) k j =
      ground (arith, e.same_iff k j, e.same_iff i k, e.same_iff i j, find-erase m k j)

  pub find-touch :
      (m : Map K V) (k j : K) (d : V)
      → find (touch m k d) j ≡ (if k == j then some (at_or m k d) else find m j)
  unfolding touch at_or
  find-touch m k j d = ground (arith, find-assign m k j d, e.same_iff k j)

  -- Reading by `[]` and then looking at another default changes no value that a reader sees.
  pub at_or-touch : (m : Map K V) (k j : K) (d : V) → at_or (touch m k d) j d ≡ at_or m j d
  unfolding at_or
  at_or-touch m k j d = ground (arith, find-touch m k j d, e.same_iff k j)

  pub at_or-assign :
      (m : Map K V) (k j : K) (v d : V)
      → at_or (assign m k v) j d ≡ (if k == j then v else at_or m j d)
  unfolding at_or
  at_or-assign m k j v d = ground (arith, find-assign m k j v)

module _ {ℓ κ} {K : Type ℓ} {V : Type κ} ⦃e : Key K⦄ where
  -- Each key stands in one entry only.
  abbrev pub IsUnique : Map K V → Type κ
  IsUnique [] = Unit
  IsUnique ((k, v) ∷ m) = (find m k ≡ none) × IsUnique m

  pub IsUnique-assign : (m : Map K V) (k : K) (v : V) → IsUnique m → IsUnique (assign m k v)
  unfolding find assign
  IsUnique-assign [] k v u = (refl, tt)
  IsUnique-assign ((j, w) ∷ m) k v u =
      ground (arith, IsUnique-assign m k v, find-assign m k j v, e.same_iff j k, e.same_iff k j)

module _ {ℓ κ μ} {K : Type ℓ} {V : Type κ} ⦃e : Key K⦄ (P : K × V → Type μ) where
  pub All-find : (m : Map K V) (k : K) (v : V) → All P m → find m k ≡ some v → P (k, v)
  unfolding find
  All-find [] k v a h = cc
  All-find ((j, w) ∷ m) k v a h = elim (Bool-cases (j == k)) [
    | inl same ↦
        let here : some w ≡ some v = rw (same, find) at h in
        let value : w ≡ v = cc in
        subst (λ (i : K). P (i, v)) ((e.same_iff j k).0 same)
          (subst (λ (x : V). P (j, x)) value a.0)
    | inr other ↦ All-find m k v a.1 (rw (other, find) at h)
  ]

  pub All-assign : (m : Map K V) (k : K) (v : V) → All P m → P (k, v) → All P (assign m k v)
  unfolding assign
  All-assign [] k v a p = (p, tt)
  All-assign ((j, w) ∷ m) k v a p = elim (Bool-cases (j == k)) [
    | inl same ↦
        rw (same, assign) (subst (λ (i : K). P (i, v)) (sym ((e.same_iff j k).0 same)) p, a.1)
    | inr other ↦ rw (other, assign) (a.0, All-assign m k v a.1 p)
  ]

  pub All-erase : (m : Map K V) (k : K) → All P m → All P (erase m k)
  unfolding erase
  All-erase [] k a = tt
  All-erase ((j, w) ∷ m) k a = elim (Bool-cases (j == k)) [
    | inl same ↦ rw (same, erase) (All-erase m k a.1)
    | inr other ↦ rw (other, erase) (a.0, All-erase m k a.1)
  ]

pub ruleset map_laws = (find-assign, find-erase, find-touch, at_or-touch, at_or-assign, same_refl)
