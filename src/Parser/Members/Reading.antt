-- ===== src/Parser/Members/Reading.antt =====
-- The entry of a structure and those of its members: `initSymbolFromDie` and `get_die_and_siblings`
-- (libdwarfparser/dwarfparser.cpp).
use libdwarfparser.Prelude.{
  ℕ, ◌+◌, ◌*◌, ◌≡◌, ◌≢◌, ◌<◌, suc, refl, ◌∙◌, String, Bool, none, some, List, [], ◌==◌, nat_eq,
  nat_beq_iff, string_eq, if◌then◌else◌, arith, length,
}
use libdwarfparser.Outcome.{ok}
use libdwarfparser.Map.{find, All-find}
use libdwarfparser.Ids.{u64}
use libdwarfparser.Parser.Objects.{new_base_type}
use libdwarfparser.Symbols.{Symbol, Pointer, Kind, StructKind, struct, union, base_type, structured}
use libdwarfparser.Manager.{SymbolManager, continue}
use libdwarfparser.Manager.Sound.{IsFresh}
use libdwarfparser.Manager.Names.{find_class_by_name}
use libdwarfparser.Parser.{Parser, Die, Tag}
use libdwarfparser.Parser.Init.{init_by_tag, get_type_instance, is_struct, is_union}
use libdwarfparser.Parser.Walk.{Debug}
use libdwarfparser.Parser.Walk.Preorder.{empty, entry, visit}
use libdwarfparser.Parser.Made.{
  IsTypeEntry, siblings, init_symbol_from_die-init_by_tag, new_base_type_lem,
}
use libdwarfparser.Parser.Members.Layout.{IsLaid}
use libdwarfparser.Parser.Members.Finds.{Finds, IsLaid-Finds}
use libdwarfparser.Parser.Members.Structures.{first_location, AreMemberEntries, visit-IsLaid}

fresh_structure :
    (m m1 : SymbolManager) (s : Symbol) (e : ℕ) (k : StructKind)
    → s.kind ≡ base_type e (structured k [])
    → IsFresh m.heap
    → ((j : Pointer)
        → find m1.heap.cells j ≡ (if m.heap.next == j then some s else find m.heap.cells j))
    → m1.heap.next ≡ suc m.heap.next
    → IsLaid m1 m.heap.next (λ x. none)
unfolding find
fresh_structure m m1 s e k is_structured fresh cells next = record {
  symbol = s;
  encoding = e;
  kind = k;
  members = [];
  at = ground (arith, cells m.heap.next, nat_beq_iff m.heap.next m.heap.next);
  is_structured = is_structured;
  fresh = λ j x here. ground (
    arith,
    cells j,
    next,
    nat_beq_iff m.heap.next j,
    All-find (λ c. c.0 < m.heap.next) m.heap.cells j x fresh,
  );
  agrees = λ x. tt;
}

-- The tag of a structure and that of a union, and the cast to the class.
abbrev pub tag_of : StructKind → Tag
tag_of struct = Tag.structure_type
tag_of union = Tag.union_type

abbrev pub cast_to : StructKind → Kind → Bool
cast_to struct = is_struct
cast_to union = is_union

init_by_tag-structure :
    (p : Parser) (d : Die) (name : String) (k : StructKind) (parent : Pointer) (m : SymbolManager)
    → find_class_by_name (cast_to k) name m ≡ (ok none, m)
    → init_by_tag p d parent name (tag_of k) m ≡ new_base_type p d name (structured k []) m
unfolding init_by_tag get_type_instance
init_by_tag-structure p d name struct parent m new = rw (new, continue) refl
init_by_tag-structure p d name union parent m new = rw (new, continue) refl

-- Where no structure of the name is known, walking the entry of a structure and those of its members,
-- of which libdwarf gives what is read, each member with a type and the structure without an
-- encoding, returns, in a manager whose pointers are below the next one, which is not null, and that
-- has an identifier left for every entry and type; then, in the object that was made for the
-- structure, `memberByName` finds for every name the member of the first entry of that name, at the
-- location of that entry, and a null pointer if there is none. The same holds of a union.
pub visit-structure :
    (g : Debug) (p : Parser) (k : StructKind) (h : ℕ) (hs : List ℕ) (name : String)
    (members : List (String × ℕ)) (parent : Pointer) (m : SymbolManager)
    → IsTypeEntry p (g.die h) (tag_of k) name
    → AreMemberEntries g p hs members
    → find_class_by_name (cast_to k) name m ≡ (ok none, m)
    → IsFresh m.heap
    → m.heap.next ≢ 0
    → m.ids.current_id + 1 + 2 * length hs < u64
    → (m' : SymbolManager) × (visit g p (entry h (siblings hs) empty) parent m ≡ (ok tt, m'))
      × ((x : String) → Finds m' m.heap.next x (first_location members x))
unfolding visit
visit-structure g p k h hs name members parent m i all new fresh real room =
    let d = g.die h in
    let (m1, s, made, kind, cells, next, few) =
      new_base_type_lem p d (tag_of k) name (structured k []) m i (omega arith) in
    let laid = fresh_structure m m1 s 0 k kind fresh cells next in
    let first =
      init_symbol_from_die-init_by_tag p d name (tag_of k) parent m i.tagged i.named
      ∙ init_by_tag-structure p d name k parent m new in
    let (m2, run, laid2) =
      visit-IsLaid g p m.heap.next real hs members m1 (λ x. none) all (omega arith) laid in
    (
      m2,
      rw (first, made, continue, run) refl,
      λ x. IsLaid-Finds m2 m.heap.next (first_location members) laid2 x,
    )
