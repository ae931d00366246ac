-- ===== src/Parser/Made.antt =====
-- The entry of a type that is made anew, and its entries below: `initSymbolFromDie`
-- (libdwarfparser/dwarfparser.cpp) and the constructor of `BaseType` (libdwarfparser/basetype.cpp).
use libdwarfparser.Prelude.{
  ℕ, ◌+◌, ◌≡◌, ◌<◌, ◌≤◌, suc, Bool-cases, inl, inr, ◌++◌, refl, ap, ◌∙◌, String, false, some, List,
  [], ◌∷◌, ◌==◌, nat_eq, string_eq, if◌then◌else◌,
}
use libdwarfparser.Outcome.{ok, dwarf_exception}
use libdwarfparser.Map.{find, find-assign, find-assign_own}
use libdwarfparser.Ids
use libdwarfparser.Ids.{u64}
use libdwarfparser.Ids.History.{current_id-get_id}
use libdwarfparser.Symbols.{Symbol, Pointer, TypeKind, base_type}
use libdwarfparser.Manager.{SymbolManager, Method, continue, lift, raise, ◌>>=◌}
use libdwarfparser.Manager.Register.{add_base_type}
use libdwarfparser.Parser.{
  Parser, Die, Tag, Answer, dlv_ok, get_die_name, get_die_byte_size, get_die_offset, die_has_attr,
}
use libdwarfparser.Parser.Objects.{at_encoding, new_base_type}
use libdwarfparser.Parser.Init.{init_symbol_from_die, init_by_tag}
use libdwarfparser.Parser.Registered.{registered, symbol_of, new_symbol_lem}
use libdwarfparser.Parser.Walk.Preorder.{Forest, empty, entry}

-- Entries without entries below them, one behind the other.
abbrev pub siblings : List ℕ → Forest
siblings [] = empty
siblings (h ∷ hs) = entry h empty (siblings hs)

pub init_symbol_from_die-init_by_tag :
    (p : Parser) (d : Die) (name : String) (tag : Tag) (parent : Pointer) (m : SymbolManager)
    → d.tag ≡ dlv_ok tag
    → get_die_name d ≡ ok name
    → init_symbol_from_die p d parent m ≡ init_by_tag p d parent name tag m
unfolding init_symbol_from_die
init_symbol_from_die-init_by_tag p d name tag parent m tagged named =
    let by_tag : Answer Tag → Method Pointer = λ answer. elim answer [
      | dlv_ok tag ↦ lift (get_die_name d) >>= λ name. init_by_tag p d parent name tag
      | _ ↦ raise (dwarf_exception "Error in dwarf_get_TAG_name")
    ] in
    ap (λ answer. by_tag answer m) tagged ∙ rw (named, continue) refl

abbrev with_name : SymbolManager → String → Pointer → SymbolManager
with_name m name q =
    if name == ""
    then m
    else record m { base_type_name_map = m.base_type_name_map ++ (name, q) ∷ [] }

with_name_lem :
    (m : SymbolManager) (name : String) (q : Pointer)
    → ((with_name m name q).heap ≡ m.heap) × ((with_name m name q).ids ≡ m.ids)
with_name_lem m name q = elim (Bool-cases (name == "")) [
  | inl no_name ↦ rw no_name (refl, refl)
  | inr named ↦ rw named (refl, refl)
]

-- The entry is that of a type of a tag and a name.
pub record IsTypeEntry (p : Parser) (d : Die) (tag : Tag) (name : String) : Type 0 where
  pub tagged : d.tag ≡ dlv_ok tag
  pub named : get_die_name d ≡ ok name
  pub size : ℕ
  pub sized : get_die_byte_size p d ≡ ok size
  pub offset : ℕ
  pub placed : get_die_offset p d ≡ ok offset
  pub plain : die_has_attr d at_encoding ≡ false

-- The constructor of `BaseType` returns the next object, which is of the class asked for; the others
-- stay, and at most one identifier is issued.
pub new_base_type_lem :
    (p : Parser) (d : Die) (tag : Tag) (name : String) (t : TypeKind) (m : SymbolManager)
    → IsTypeEntry p d tag name
    → m.ids.current_id + 1 < u64
    → (m1 : SymbolManager) × (s : Symbol) × (new_base_type p d name t m ≡ (ok m.heap.next, m1))
      × (s.kind ≡ base_type 0 t)
      × ((j : Pointer)
          → find m1.heap.cells j ≡ (if m.heap.next == j then some s else find m.heap.cells j))
      × (m1.heap.next ≡ suc m.heap.next)
      × (m1.ids.current_id ≤ m.ids.current_id + 1)
unfolding new_base_type add_base_type
new_base_type_lem p d tag name t m i room =
    let q = m.heap.next in
    let s = symbol_of p name (base_type 0 t) m i.size i.offset in
    let m0 = registered m (Ids.get_id m.ids (i.offset, p.file_id)).1 s in
    let (same_heap, same_ids) = with_name_lem m0 name q in
    (
      with_name m0 name q,
      s,
      rw
          (
            new_symbol_lem p d name (base_type 0 t) m i.size i.offset i.sized i.placed,
            continue,
            i.plain,
            find-assign_own m.heap.cells q s,
          )
          refl,
      refl,
      λ j. ap (λ h. find h.cells j) same_heap ∙ find-assign m.heap.cells q j s,
      ap (λ h. h.next) same_heap,
      rw same_ids ((current_id-get_id m.ids (i.offset, p.file_id) room).1),
    )
