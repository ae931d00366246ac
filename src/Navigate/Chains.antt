-- ===== src/Navigate/Chains.antt =====
-- Chains of references that are resolved (libdwarfparser/refbasetype.cpp): where the loops over
-- them end, and the size of what they refer to.
use libdwarfparser.Prelude.{ℕ, suc, ◌≡◌, ◌≢◌, none, some, arith, nat_eq, nat_beq_iff}
use libdwarfparser.Outcome.{ok}
use libdwarfparser.Map.{find}
use libdwarfparser.Symbols.{Symbol, Pointer, Reference, RefKind, as_ref_base_type}
use libdwarfparser.Manager.{SymbolManager, deref}
use libdwarfparser.Navigate.{underlying, get_base_type}

-- From `q`, as many references as the first number lead to `t`, which is none.
pub data Chain (m : SymbolManager) : ℕ → Pointer → Pointer → Type 0 where
  here :
      (t : Pointer) (s : Symbol)
      → t ≢ 0
      → find m.heap.cells t ≡ some s
      → as_ref_base_type s.kind ≡ none
      → Chain m 0 t t
  there :
      (n : ℕ) (q b t : Pointer) (s : Symbol) (r : Reference) (k : RefKind)
      → q ≢ 0
      → find m.heap.cells q ≡ some s
      → as_ref_base_type s.kind ≡ some (r, k)
      → r.base ≡ some b
      → Chain m n b t
      → Chain m (suc n) q t

-- Over a chain of `n` resolved references the loop ends within `n + 1` rounds, at the type that the
-- chain leads to, and changes nothing.
pub underlying-Chain :
    (m : SymbolManager) (n : ℕ) (q t : Pointer) → Chain m n q t → underlying (suc n) q m ≡ (ok t, m)
unfolding underlying get_base_type deref
underlying-Chain m _ _ _ (here t s real at none_there) = ground (arith, nat_beq_iff t 0)
underlying-Chain m _ _ _ (there k q b t s r j real at refers resolved rest) =
    let ih = underlying-Chain m k b t rest in ground (arith, nat_beq_iff q 0, ih)
