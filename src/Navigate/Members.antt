-- ===== src/Navigate/Members.antt =====
-- `Structured::memberByOffset` (libdwarfparser/structured.cpp): which member it gives.
use libdwarfparser.Prelude.{
  ℕ, ◌≡◌, ◌<◌, ◌≤◌, refl, ◌⊎◌, inl, inr, String, Option, none, some, List, [], ◌∷◌, ltb, ◌==◌,
  arith, nat_eq, nat_beq_iff, All, Bool-cases,
}
use libdwarfparser.Outcome.{ok}
use libdwarfparser.Map.{find}
use libdwarfparser.Symbols.{Pointer, Symbol, as_structured}
use libdwarfparser.Manager.{SymbolManager, continue, deref}
use libdwarfparser.Navigate.{nearest, is_closer, location_of, member_by_offset, members_of}

abbrev pub Among : Pointer → List (String × Pointer) → Type 0
Among q [] = ⊥
Among q ((name, p) ∷ ms) = (p ≡ q) ⊎ Among q ms

module _ (m : SymbolManager) (loc : Pointer → ℕ) where
  -- A pointer that leads to a member, which lies at `loc q`.
  abbrev pub IsLocated : String × Pointer → Type 0
  IsLocated (name, q) = location_of q m ≡ (ok (loc q), m)

  -- `none`: every member lies behind the offset. A member: one of the list, at the offset or before
  -- it, and no other lies between.
  abbrev pub IsNearest : ℕ → Option Pointer → List (String × Pointer) → Type 0
  IsNearest offset none ms = All (λ e. offset < loc e.1) ms
  IsNearest offset (some q) ms =
      (loc q ≤ offset) × Among q ms × All (λ e. (offset < loc e.1) ⊎ (loc e.1 ≤ loc q)) ms

  -- The same with a member that was found before.
  abbrev IsNearer : ℕ → Option Pointer → Pointer → List (String × Pointer) → Type 0
  IsNearer offset none b ms = ⊥
  IsNearer offset (some q) b ms =
      (loc q ≤ offset)
      × ((b ≡ q) ⊎ Among q ms)
      × (loc b ≤ loc q)
      × All (λ e. (offset < loc e.1) ⊎ (loc e.1 ≤ loc q)) ms

  at_offset :
      (offset : ℕ) (q : Pointer) (ms : List (String × Pointer))
      → loc q ≡ offset
      → All (λ e. (offset < loc e.1) ⊎ (loc e.1 ≤ loc q)) ms
  at_offset offset q [] h = tt
  at_offset offset q ((name, p) ∷ ms) h = (ground arith, at_offset offset q ms h)

  IsNearer-skip :
      (offset : ℕ) (o : Option Pointer) (b : Pointer) (name : String) (p : Pointer)
      (ms : List (String × Pointer))
      → (offset < loc p) ⊎ (loc p ≤ loc b)
      → IsNearer offset o b ms
      → IsNearer offset o b ((name, p) ∷ ms)
  IsNearer-skip offset none b name p ms h v = v
  IsNearer-skip offset (some q) b name p ms h (le, inl same, up, all) =
      (le, inl same, up, (ground arith, all))
  IsNearer-skip offset (some q) b name p ms h (le, inr among, up, all) =
      (le, inr (inr among), up, (ground arith, all))

  IsNearer-closer :
      (offset : ℕ) (o : Option Pointer) (b : Pointer) (name : String) (p : Pointer)
      (ms : List (String × Pointer))
      → loc b < loc p
      → IsNearer offset o p ms
      → IsNearer offset o b ((name, p) ∷ ms)
  IsNearer-closer offset none b name p ms h v = v
  IsNearer-closer offset (some q) b name p ms h (le, here, up, all) =
      (le, inr here, omega arith, (inr up, all))

  nearest_after :
      (offset : ℕ) (b : Pointer) (ms : List (String × Pointer))
      → location_of b m ≡ (ok (loc b), m)
      → loc b < offset
      → All IsLocated ms
      → (o : Option Pointer) × (nearest offset (some b) ms m ≡ (ok o, m)) × IsNearer offset o b ms
  unfolding nearest is_closer
  nearest_after offset b [] at_b below located = (some b, refl, ground arith)
  nearest_after offset b ((name, p) ∷ ms) at_b below (at_p, located) =
      elim (Bool-cases (loc p == offset)) [
        | inl exact ↦ (
          some p,
          rw (at_p, continue, exact, nearest) refl,
          ground (arith, at_offset offset p ms, nat_beq_iff (loc p) offset),
        )
        | inr inexact ↦ elim (Bool-cases (ltb (loc p) offset)) [
          | inr behind ↦
              let (o, e, v) = nearest_after offset b ms at_b below located in
              (
                o,
                rw (at_p, continue, inexact, behind, nearest) e,
                IsNearer-skip offset o b name p ms
                    (inl (ground (arith, nat_beq_iff (loc p) offset))) v,
              )
          | inl before ↦ elim (Bool-cases (ltb (loc b) (loc p))) [
            | inl closer ↦
                let (o, e, v) = nearest_after offset p ms at_p (ground arith) located in
                (
                  o,
                  rw (at_p, continue, inexact, before, at_b, closer, nearest, is_closer) e,
                  IsNearer-closer offset o b name p ms (ground arith) v,
                )
            | inr farther ↦
                let (o, e, v) = nearest_after offset b ms at_b below located in
                (
                  o,
                  rw (at_p, continue, inexact, before, at_b, farther, nearest, is_closer) e,
                  IsNearer-skip offset o b name p ms (inr (ground arith)) v,
                )
          ]
        ]
      ]

  IsNearest-weaken :
      (offset : ℕ) (o : Option Pointer) (name : String) (p : Pointer) (ms : List (String × Pointer))
      → IsNearer offset o p ms
      → IsNearest offset o ((name, p) ∷ ms)
  IsNearest-weaken offset none name p ms v = absurd v
  IsNearest-weaken offset (some q) name p ms (le, here, up, all) = (le, here, (inr up, all))

  IsNearest-skip :
      (offset : ℕ) (o : Option Pointer) (name : String) (p : Pointer) (ms : List (String × Pointer))
      → offset < loc p
      → IsNearest offset o ms
      → IsNearest offset o ((name, p) ∷ ms)
  IsNearest-skip offset none name p ms h v = (h, v)
  IsNearest-skip offset (some q) name p ms h (le, among, all) = (le, inr among, (inl h, all))

  nearest-IsNearest :
      (offset : ℕ) (ms : List (String × Pointer))
      → All IsLocated ms
      → (o : Option Pointer) × (nearest offset none ms m ≡ (ok o, m)) × IsNearest offset o ms
  unfolding nearest is_closer
  nearest-IsNearest offset [] located = (none, refl, tt)
  nearest-IsNearest offset ((name, p) ∷ ms) (at_p, located) = elim (Bool-cases (loc p == offset)) [
    | inl exact ↦ (
      some p,
      rw (at_p, continue, exact, nearest) refl,
      ground (arith, at_offset offset p ms, nat_beq_iff (loc p) offset),
    )
    | inr inexact ↦ elim (Bool-cases (ltb (loc p) offset)) [
      | inr behind ↦
          let (o, e, v) = nearest-IsNearest offset ms located in
          (
            o,
            rw (at_p, continue, inexact, behind, nearest) e,
            IsNearest-skip offset o name p ms (ground (arith, nat_beq_iff (loc p) offset)) v,
          )
      | inl before ↦
          let (o, e, v) = nearest_after offset p ms at_p (ground arith) located in
          (
            o,
            rw (at_p, continue, inexact, before, nearest, is_closer) e,
            IsNearest-weaken offset o name p ms v,
          )
    ]
  ]

members_of_lem :
    (m : SymbolManager) (t : Pointer) (s : Symbol) (members : List (String × Pointer))
    → find m.heap.cells t ≡ some s
    → as_structured s.kind ≡ some members
    → members_of t m ≡ (ok members, m)
unfolding members_of deref
members_of_lem m t s members at is_structure = ground (arith, at, is_structure)

-- For an object that is a structure whose members can all be read, `memberByOffset` returns and
-- changes nothing; it gives a member that lies at the offset or is the last one before it, and none
-- exactly where every member lies behind the offset.
pub member_by_offset-IsNearest :
    (m : SymbolManager) (loc : Pointer → ℕ) (t : Pointer) (s : Symbol)
    (members : List (String × Pointer)) (offset : ℕ)
    → find m.heap.cells t ≡ some s
    → as_structured s.kind ≡ some members
    → All (IsLocated m loc) members
    → (o : Option Pointer) × (member_by_offset t offset m ≡ (ok o, m))
      × IsNearest m loc offset o members
unfolding member_by_offset
member_by_offset-IsNearest m loc t s members offset at is_structure located =
    let (o, e, v) = nearest-IsNearest m loc offset members located in
    (o, rw (members_of_lem m t s members at is_structure, member_by_offset, continue) e, v)
