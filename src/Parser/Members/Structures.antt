-- ===== src/Parser/Members/Structures.antt =====
-- The entries of members below that of a structure or a union, as `get_die_and_siblings` walks them
-- (libdwarfparser/dwarfparser.cpp), and the members as `memberByName` finds them
-- (libdwarfparser/structured.cpp).
use mathlib.Core.Path.{fun_ext}
use libdwarfparser.Prelude.{
  ℕ, ◌+◌, ◌*◌, ◌≡◌, ◌≢◌, ◌<◌, refl, ◌∙◌, subst, String, true, false, Option, none, some, List, [],
  ◌∷◌, ◌==◌, nat_eq, nat_beq_iff, string_eq, if◌then◌else◌, arith, or_else, or_else-if, length,
  or_else-none,
}
use libdwarfparser.Outcome.{ok}
use libdwarfparser.Map.{find}
use libdwarfparser.Ids.{u64}
use libdwarfparser.Symbols.{Symbol, Pointer, StructKind, base_type, structured, as_structured}
use libdwarfparser.Manager.{SymbolManager, continue}
use libdwarfparser.Manager.Lookup.{holds}
use libdwarfparser.Parser.{Parser, Die, Tag, dlv_ok, get_die_name}
use libdwarfparser.Parser.Objects.{add_member}
use libdwarfparser.Parser.Init.{init_by_tag, in_parent, casts_to}
use libdwarfparser.Parser.Walk.{Debug}
use libdwarfparser.Parser.Walk.Preorder.{visit}
use libdwarfparser.Parser.Members.{IsMember, kept_location}
use libdwarfparser.Parser.Made.{siblings, init_symbol_from_die-init_by_tag}
use libdwarfparser.Parser.Members.Layout.{IsLaid, with_location_of, add_member-IsLaid}

-- The entry is that of a member of a name at a location.
pub record IsMemberEntry (p : Parser) (d : Die) (name : String) (l : ℕ) : Type 0 where
  pub tagged : d.tag ≡ dlv_ok Tag.member
  pub named : get_die_name d ≡ ok name
  pub given : IsMember p d
  pub placed : kept_location d given.location ≡ l

-- The location of the first member of a name.
abbrev pub first_location : List (String × ℕ) → String → Option ℕ
first_location [] x = none
first_location ((name, l) ∷ members) x = if name == x then some l else first_location members x

casts_to-structured :
    (t : Pointer) (m : SymbolManager) (s : Symbol) (e : ℕ) (k : StructKind)
    (members : List (String × Pointer))
    → t ≢ 0
    → find m.heap.cells t ≡ some s
    → s.kind ≡ base_type e (structured k members)
    → casts_to (λ k. holds (as_structured k)) t m ≡ (ok true, m)
unfolding casts_to as_structured
casts_to-structured t m s e k members real at is_structured =
    let other : (t == 0) ≡ false = ground (arith, nat_beq_iff t 0) in
    rw (other, at, is_structured) refl

init_by_tag-member :
    (p : Parser) (d : Die) (name : String) (t : Pointer) (m : SymbolManager) (s : Symbol) (e : ℕ)
    (k : StructKind) (members : List (String × Pointer))
    → t ≢ 0
    → find m.heap.cells t ≡ some s
    → s.kind ≡ base_type e (structured k members)
    → init_by_tag p d t name Tag.member m ≡ add_member p d name t m
unfolding init_by_tag in_parent
init_by_tag-member p d name t m s e k members real at is_structured =
    rw (casts_to-structured t m s e k members real at is_structured, continue) refl

module _ (g : Debug) (p : Parser) where
  abbrev pub AreMemberEntries : List ℕ → List (String × ℕ) → Type 0
  AreMemberEntries [] [] = Unit
  AreMemberEntries (h ∷ hs) ((name, l) ∷ members) =
      IsMemberEntry p (g.die h) name l × AreMemberEntries hs members
  AreMemberEntries [] (member ∷ members) = ⊥
  AreMemberEntries (h ∷ hs) [] = ⊥

module _ (g : Debug) (p : Parser) (t : Pointer) (real : t ≢ 0) where
  pub visit-IsLaid :
      (hs : List ℕ) (members : List (String × ℕ)) (m : SymbolManager)
      (locations : String → Option ℕ)
      → AreMemberEntries g p hs members
      → m.ids.current_id + 2 * length hs < u64
      → IsLaid m t locations
      → (m' : SymbolManager) × (visit g p (siblings hs) t m ≡ (ok tt, m'))
        × IsLaid m' t (λ x. or_else (locations x) (first_location members x))
  unfolding visit
  visit-IsLaid [] [] m locations all room v =
      (m, refl, subst (IsLaid m t) (fun_ext (λ x. or_else-none (locations x))) v)
  visit-IsLaid (h ∷ hs) ((name, l) ∷ members) m locations (i, all) room v =
      let (q, m1, run, laid, few) =
        add_member-IsLaid p (g.die h) name t m locations v i.given real (omega arith) in
      let laid' : IsLaid m1 t (with_location_of locations name l) =
        subst (λ l. IsLaid m1 t (with_location_of locations name l)) i.placed laid in
      let (m2, rest, laid2) =
        visit-IsLaid hs members m1 (with_location_of locations name l) all (omega arith) laid' in
      let first =
        init_symbol_from_die-init_by_tag p (g.die h) name Tag.member t m i.tagged i.named
        ∙ init_by_tag-member p (g.die h) name t m v.symbol v.encoding v.kind v.members real v.at
            v.is_structured in
      (
        m2,
        rw (first, run, continue) rest,
        subst (IsLaid m2 t)
            (fun_ext (λ x. or_else-if (locations x) (first_location members x) (name == x) l))
            laid2,
      )
  visit-IsLaid [] (member ∷ members) m locations all room v = elim all [ ]
  visit-IsLaid (h ∷ hs) [] m locations all room v = elim all [ ]
