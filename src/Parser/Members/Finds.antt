-- ===== src/Parser/Members/Finds.antt =====
-- `memberByName` and `getMemberLocation` of the members of a structure (libdwarfparser/structured.cpp,
-- structuredmember.cpp).
use libdwarfparser.Prelude.{ℕ, ◌≡◌, refl, ap, ◌∙◌, String, Option, none, some, nat_eq, string_eq}
use libdwarfparser.Outcome.{ok}
use libdwarfparser.Map.{find, touch, at_or}
use libdwarfparser.Symbols.{
  Symbol, Pointer, Reference, MemberData, member, as_structured, as_member,
}
use libdwarfparser.Manager.{SymbolManager, continue}
use libdwarfparser.Navigate.{member_by_name, location_of, members_of}
use libdwarfparser.Navigate.Containers.{modify_lem, member_by_name_lem}
use libdwarfparser.Parser.Objects.{with_members}
use libdwarfparser.Parser.Members.Layout.{IsLaid}
use libdwarfparser.Parser.Members.Agrees.{Agrees}

-- What `memberByName` and `getMemberLocation` answer on a name: a null pointer, or a member at the
-- location.
abbrev pub Finds : SymbolManager → Pointer → String → Option ℕ → Type 0
Finds m t name none = (member_by_name t name m).0 ≡ ok 0
Finds m t name (some l) =
    (q : Pointer) × (member_by_name t name m ≡ (ok q, m)) × (location_of q m ≡ (ok l, m))

found_none :
    (m : SymbolManager) (t : Pointer) (locations : String → Option ℕ) (v : IsLaid m t locations)
    (name : String)
    → find v.members name ≡ none
    → (member_by_name t name m).0 ≡ ok 0
unfolding member_by_name members_of as_structured at_or
found_none m t locations v name new =
    let value : at_or v.members name 0 ≡ 0 = rw (new, at_or) refl in
    let touched = modify_lem t (with_members (λ ms. touch ms name 0)) m v.symbol v.at in
    rw (v.at, v.is_structured, continue, touched) (ap ok value)

found_member :
    (m : SymbolManager) (t q : Pointer) (locations : String → Option ℕ) (v : IsLaid m t locations)
    (name : String)
    → find v.members name ≡ some q
    → member_by_name t name m ≡ (ok q, m)
found_member m t q locations v name known =
    member_by_name_lem m t q 0 v.symbol.name name v.symbol.byte_size v.symbol.id v.encoding v.kind
      v.members (v.at ∙ ap (λ k. some (record v.symbol { kind = k })) v.is_structured) known

location_found :
    (m : SymbolManager) (q : Pointer) (s : Symbol) (r : Reference) (fields : MemberData)
    → find m.heap.cells q ≡ some s
    → s.kind ≡ member r fields
    → location_of q m ≡ (ok fields.member_location, m)
unfolding location_of as_member
location_found m q s r fields at is_member = rw (at, continue, is_member) refl

-- `memberByName` finds the members where they are laid.
pub IsLaid-Finds :
    (m : SymbolManager) (t : Pointer) (locations : String → Option ℕ)
    → IsLaid m t locations
    → (name : String) → Finds m t name (locations name)
IsLaid-Finds m t locations v name =
    found (find v.members name) (locations name) refl (v.agrees name)
  where
    found :
        (o : Option Pointer) (l : Option ℕ)
        → find v.members name ≡ o
        → Agrees m o l
        → Finds m t name l
    found none none known a = found_none m t locations v name known
    found (some q) (some l) known (s, r, fields, at, is_member, placed) = (
      q,
      found_member m t q locations v name known,
      location_found m q s r fields at is_member ∙ ap (λ l. (ok l, m)) placed,
    )
    found none (some l) known a = elim a [ ]
    found (some q) none known a = elim a [ ]
