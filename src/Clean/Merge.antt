-- ===== src/Clean/Merge.antt =====
-- The loop that merges equal items: what it keeps, and what it leaves behind.
use libdwarfparser.Prelude.{
  ℕ, ◌≡◌, ◌≢◌, refl, ◌∙◌, ap, Bool, true, false, none, some, List, [], ◌∷◌, arith, if◌then◌else◌,
  Bool-cases, inl, inr, All, nat_eq,
}
use libdwarfparser.Outcome.{ok, fail, undefined}
use libdwarfparser.Map.{Map, find, erase, find-erase}
use libdwarfparser.Symbols.{Symbol, Pointer}
use libdwarfparser.Manager.{SymbolManager, pure, continue, delete, deref}
use libdwarfparser.Manager.Register.{add_alternative_id}
use libdwarfparser.Manager.Lookup.{find_symbol_by_id}
use libdwarfparser.Clean.{merge}

module _ {V : Type 0} (eq : V → V → Bool) (id_of : V → ℕ) where
  -- The items that differ from the last one kept.
  unfoldable pub kept : V → List (Pointer × V) → List (Pointer × V)
  kept old [] = []
  kept old ((p, v) ∷ items) =
      let same = kept old items in
      let other = (p, v) ∷ kept v items in if eq old v then same else other

  -- Different objects, all of them there.
  abbrev pub AreLive : Map Pointer Symbol → List (Pointer × V) → Type 0
  AreLive cells [] = Unit
  AreLive cells ((p, v) ∷ items) =
      ((s : Symbol) × (find cells p ≡ some s)) × All (λ i. p ≢ i.0) items × AreLive cells items

  AreLive-erase :
      (cells : Map Pointer Symbol) (p : Pointer) (items : List (Pointer × V))
      → All (λ i. p ≢ i.0) items
      → AreLive cells items
      → AreLive (erase cells p) items
  AreLive-erase cells p [] a l = tt
  AreLive-erase cells p ((q, w) ∷ items) a ((s, there), apart, rest) = (
    (s, ground (arith, find-erase cells p q, there, a.0)),
    apart,
    AreLive-erase cells p items a.1 rest,
  )

  -- The manager after an item was merged into `old` and deleted.
  abbrev merged : V → V → Pointer → SymbolManager → SymbolManager
  merged old v p m =
      let m' = (add_alternative_id (id_of old) (id_of v) m).1 in
      record m' { heap = record m'.heap { cells = erase m'.heap.cells p } }

  merge-same :
      (old : V) (p : Pointer) (v : V) (items : List (Pointer × V)) (m : SymbolManager) (s : Symbol)
      → eq old v ≡ true
      → find m.heap.cells p ≡ some s
      → merge eq id_of old ((p, v) ∷ items) m ≡ merge eq id_of old items (merged old v p m)
  unfolding merge delete add_alternative_id
  merge-same old p v items m s same there = rw (same, merge) (rw (there, delete))

  merge-other :
      (old : V) (p : Pointer) (v : V) (items : List (Pointer × V)) (m : SymbolManager)
      → eq old v ≡ false
      → merge eq id_of old ((p, v) ∷ items) m
        ≡ continue
            (merge eq id_of v items m).0
            (λ rest. pure ((p, v) ∷ rest))
            (merge eq id_of v items m).1
  unfolding merge
  merge-other old p v items m other = rw (other, merge)

  -- On live objects the loop returns, and what it returns is what differs from its predecessors.
  pub merge-kept :
      (old : V) (items : List (Pointer × V)) (m : SymbolManager)
      → AreLive m.heap.cells items
      → (merge eq id_of old items m).0 ≡ ok (kept old items)
  unfolding kept add_alternative_id
  merge-kept old [] m l = unfold merge in refl
  merge-kept old ((p, v) ∷ items) m ((s, there), apart, rest) = elim (Bool-cases (eq old v)) [
    | inl same ↦
        let ih =
          merge-kept old items (merged old v p m) (AreLive-erase m.heap.cells p items apart rest) in
        ap (λ r. r.0) (merge-same old p v items m s same there) ∙ ground (arith, ih)
    | inr other ↦
        let ih = merge-kept v items m rest in
        ap (λ r. r.0) (merge-other old p v items m other) ∙ ground (arith, ih)
  ]

  -- Neither the table of symbols changes, nor does an object come back.
  symbol_id_map-merge :
      (old : V) (items : List (Pointer × V)) (m : SymbolManager)
      → (merge eq id_of old items m).1.symbol_id_map ≡ m.symbol_id_map
  unfolding merge delete add_alternative_id
  symbol_id_map-merge old [] m = refl
  symbol_id_map-merge old ((p, v) ∷ items) m =
      ground
        (arith, symbol_id_map-merge v items m, symbol_id_map-merge old items (merged old v p m))

  gone-merge :
      (q : Pointer) (old : V) (items : List (Pointer × V)) (m : SymbolManager)
      → find m.heap.cells q ≡ none
      → find (merge eq id_of old items m).1.heap.cells q ≡ none
  unfolding merge delete add_alternative_id
  gone-merge q old [] m h = h
  gone-merge q old ((p, v) ∷ items) m h = ground (
    arith,
    gone-merge q v items m,
    gone-merge q old items (merged old v p m),
    find-erase m.heap.cells p q,
  )

  -- An item that is merged into the one before it is deleted, and its identifier still leads to it:
  -- the look-up answers with a pointer to an object that is gone, and using that is undefined.
  pub merge_leaves_dangling :
      (old : V) (p : Pointer) (v : V) (items : List (Pointer × V)) (m : SymbolManager) (s : Symbol)
      → eq old v ≡ true
      → find m.heap.cells p ≡ some s
      → find m.symbol_id_map (id_of v) ≡ some p
      → let m' = (merge eq id_of old ((p, v) ∷ items) m).1 in
        ((find_symbol_by_id (id_of v) m').0 ≡ ok p) × ((deref p m').0 ≡ fail undefined)
  unfolding find_symbol_by_id deref add_alternative_id
  merge_leaves_dangling old p v items m s same there entered =
      let after = merge-same old p v items m s same there in
      let kept_entry : find (merge eq id_of old ((p, v) ∷ items) m).1.symbol_id_map (id_of v)
          ≡ some p =
        ap (λ t. find t (id_of v)) (symbol_id_map-merge old ((p, v) ∷ items) m) ∙ entered in
      let gone : find (merge eq id_of old ((p, v) ∷ items) m).1.heap.cells p ≡ none =
        rw after (
          gone-merge p old items (merged old v p m)
            (ground (arith, find-erase m.heap.cells p p))) in
      (ground (arith, kept_entry), ground (arith, gone))
