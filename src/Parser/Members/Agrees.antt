-- ===== src/Parser/Members/Agrees.antt =====
-- Pointers to members (libdwarfparser/structuredmember.h) with the locations that are told for them.
use libdwarfparser.Prelude.{ℕ, ◌≡◌, Option, none, some, nat_eq, string_eq, arith, or_else}
use libdwarfparser.Map.{find}
use libdwarfparser.Symbols.{Symbol, Pointer, Reference, MemberData, member}
use libdwarfparser.Manager.{SymbolManager}

-- A pointer to a member at a location, or neither.
abbrev pub Agrees : SymbolManager → Option Pointer → Option ℕ → Type 0
Agrees m none none = Unit
Agrees m (some q) (some l) =
    (s : Symbol) × (r : Reference) × (fields : MemberData) × (find m.heap.cells q ≡ some s)
    × (s.kind ≡ member r fields)
    × (fields.member_location ≡ l)
Agrees m none (some l) = ⊥
Agrees m (some q) none = ⊥

pub Agrees-frame :
    (m m' : SymbolManager) (o : Option Pointer) (l : Option ℕ)
    → ((q : Pointer) (s : Symbol) (r : Reference) (fields : MemberData)
        → find m.heap.cells q ≡ some s
        → s.kind ≡ member r fields
        → find m'.heap.cells q ≡ some s)
    → Agrees m o l
    → Agrees m' o l
Agrees-frame m m' none none keep a = tt
Agrees-frame m m' (some q) (some l) keep (s, r, fields, at, is_member, placed) =
    (s, r, fields, keep q s r fields at is_member, is_member, placed)
Agrees-frame m m' none (some l) keep a = a
Agrees-frame m m' (some q) none keep a = a

pub Agrees-known :
    (m : SymbolManager) (o : Option Pointer) (q : Pointer) (l more : Option ℕ)
    → o ≡ some q
    → Agrees m o l
    → Agrees m o (or_else l more)
Agrees-known m (some q') q (some l) more h a = a
Agrees-known m (some q') q none more h a = elim a [ ]
Agrees-known m none q l more h a = absurd (ground arith)

pub Agrees-new :
    (m m' : SymbolManager) (o : Option Pointer) (q : Pointer) (l : Option ℕ) (more : ℕ)
    → o ≡ none
    → Agrees m o l
    → Agrees m' (some q) (some more)
    → Agrees m' (some q) (or_else l (some more))
Agrees-new m m' none q none more h a new = new
Agrees-new m m' none q (some l) more h a new = elim a [ ]
Agrees-new m m' (some q') q l more h a new = absurd (ground arith)

pub Agrees-again :
    (m : SymbolManager) (o : Option Pointer) (l : Option ℕ)
    → Agrees m o l
    → Agrees m o (or_else l none)
Agrees-again m none none a = a
Agrees-again m (some q) (some l) a = a
Agrees-again m none (some l) a = a
Agrees-again m (some q) none a = a
