-- ===== src/Manager/Sound/Destroyed.antt =====
-- The destructor of `SymbolManager` (libdwarfparser/symbolmanager.cpp) on sound containers.
use libdwarfparser.Prelude.{ℕ, ◌≡◌, ◌≢◌, refl, none, some, [], ◌∷◌, arith, nat_eq, nat_beq_iff, All}
use libdwarfparser.Outcome.{ok}
use libdwarfparser.Map.{Map, find, erase, find-erase, IsUnique}
use libdwarfparser.Symbols.{Symbol, Pointer}
use libdwarfparser.Manager.{SymbolManager, Heap, delete}
use libdwarfparser.Manager.Destroy.{delete_all, destructor}
use libdwarfparser.Manager.Find.{Carries}
use libdwarfparser.Manager.Sound.{IsSound}

-- An object that carries another identifier than the deleted one is another object.
Carries-erase :
    (h : Heap) (p : Pointer) (s : Symbol) (e : ℕ × Pointer)
    → find h.cells p ≡ some s
    → e.0 ≢ s.id
    → Carries h e
    → Carries (record h { cells = erase h.cells p }) e
Carries-erase h p s (j, q) at other (t, at_q, same) =
    (t, ground (arith, find-erase h.cells p q, nat_beq_iff p q, at, at_q, other, same), same)

All-Carries-erase :
    (h : Heap) (id p : Pointer) (s : Symbol) (entries : Map ℕ Pointer)
    → find h.cells p ≡ some s
    → s.id ≡ id
    → find entries id ≡ none
    → All (Carries h) entries
    → All (Carries (record h { cells = erase h.cells p })) entries
unfolding find
All-Carries-erase h id p s [] at same once v = tt
All-Carries-erase h id p s ((j, q) ∷ entries) at same once (v, vs) =
    let other : j ≢ s.id = ground (arith, nat_beq_iff j id) in
    let rest : find entries id ≡ none = ground (arith, nat_beq_iff j id) in
    (Carries-erase h p s (j, q) at other v, All-Carries-erase h id p s entries at same rest vs)

delete_all_ends :
    (entries : Map ℕ Pointer) (m : SymbolManager)
    → All (Carries m.heap) entries
    → IsUnique entries
    → (delete_all entries m).0 ≡ ok tt
unfolding delete_all delete
delete_all_ends [] m v u = refl
delete_all_ends ((id, p) ∷ entries) m ((s, at, same), vs) (once, u) =
    rw (at, delete)
      (delete_all_ends entries (record m { heap = record m.heap { cells = erase m.heap.cells p } })
        (All-Carries-erase m.heap id p s entries at same once vs) u)

-- On sound containers the destructor returns: it deletes no object twice and none that is not there.
pub destructor-IsSound : (m : SymbolManager) → IsSound m → (destructor m).0 ≡ ok tt
unfolding destructor
destructor-IsSound m (h, i, u, n, b, f, r, v, t, fs, ars, es) =
    delete_all_ends m.symbol_id_map m i u
