-- ===== src/Parser/Enums/Reading.antt =====
-- The entry of an enumeration and those of its enumerators: `initSymbolFromDie` and
-- `get_die_and_siblings` (libdwarfparser/dwarfparser.cpp), and `Enum` (libdwarfparser/enum.cpp).
use libdwarfparser.Prelude.{
  ℕ, ◌+◌, ◌≡◌, ◌≢◌, ◌<◌, ◌%◌, refl, ap, ◌∙◌, sym, String, true, false, Option, none, some, List, [],
  ◌∷◌, ◌==◌, nat_eq, nat_beq_iff, if◌then◌else◌, arith, or_else, or_else-if, or_else-none,
}
use libdwarfparser.Outcome.{ok, assertion, or_fail, dwarf_exception}
use libdwarfparser.Navigate.{enum_name}
use libdwarfparser.Map.{assign, find-assign_own}
use libdwarfparser.Map
use libdwarfparser.OrderedMap
use libdwarfparser.OrderedMap.{OrderedMap, IsAscending, IsAscending-assign}
use libdwarfparser.Ids.{u64}
use libdwarfparser.Symbols.{Symbol, Pointer, base_type, enumeration, as_enum}
use libdwarfparser.Manager.{SymbolManager, Method, continue, pure, lift, raise, ◌>>◌}
use libdwarfparser.Parser.Print.{print_die_data}
use libdwarfparser.Manager.Lookup.{holds}
use libdwarfparser.Manager.Names.{find_class_by_name}
use libdwarfparser.Navigate.Containers.{modify_lem}
use libdwarfparser.Parser.{Parser, Die, Tag, dlv_ok, get_die_name, get_die_attribute_number}
use libdwarfparser.Parser.Objects.{at_const_value, add_enum, with_values, new_base_type, u32}
use libdwarfparser.Parser.Init.{init_by_tag, in_parent, casts_to, get_type_instance}
use libdwarfparser.Parser.Made.{
  siblings, IsTypeEntry, init_symbol_from_die-init_by_tag, new_base_type_lem,
}
use libdwarfparser.Parser.Walk.{Debug}
use libdwarfparser.Parser.Walk.Preorder.{entry, empty, visit}

-- The object is an enumeration with values.
abbrev pub HasValues : SymbolManager → Pointer → OrderedMap String → Type 0
HasValues m t values =
    (s : Symbol) × (e : ℕ) × (Map.find m.heap.cells t ≡ some s)
    × (s.kind ≡ base_type e (enumeration values))

-- The entry is that of an enumerator of a name, with the low 32 bits of its value.
pub record IsEnumeratorEntry (p : Parser) (d : Die) (name : String) (v : ℕ) : Type 0 where
  pub tagged : d.tag ≡ dlv_ok Tag.enumerator
  pub named : get_die_name d ≡ ok name
  pub value : ℕ
  pub given : get_die_attribute_number p d at_const_value ≡ ok value
  pub kept : value % u32 ≡ v

-- The values with those of the entries, one after the other.
abbrev pub with_enumerators : OrderedMap String → List (String × ℕ) → OrderedMap String
with_enumerators values [] = values
with_enumerators values ((name, v) ∷ es) = with_enumerators (OrderedMap.assign values v name) es

-- The name of the last enumerator of a value.
abbrev pub last_enumerator : List (String × ℕ) → ℕ → Option String
last_enumerator [] w = none
last_enumerator ((name, v) ∷ es) w =
    or_else (last_enumerator es w) (if v == w then some name else none)

find-with_enumerators :
    (es : List (String × ℕ)) (values : OrderedMap String) (w : ℕ)
    → OrderedMap.find (with_enumerators values es) w
      ≡ or_else (last_enumerator es w) (OrderedMap.find values w)
find-with_enumerators [] values w = refl
find-with_enumerators ((name, v) ∷ es) values w =
    find-with_enumerators es (OrderedMap.assign values v name) w
    ∙ rw (OrderedMap.find-assign values v w name)
        (sym (or_else-if (last_enumerator es w) (OrderedMap.find values w) (v == w) name))

IsAscending-with_enumerators :
    (es : List (String × ℕ)) (values : OrderedMap String)
    → IsAscending values
    → IsAscending (with_enumerators values es)
IsAscending-with_enumerators [] values a = a
IsAscending-with_enumerators ((name, v) ∷ es) values a =
    IsAscending-with_enumerators es (OrderedMap.assign values v name)
      (IsAscending-assign values v name a)

add_enum_lem :
    (p : Parser) (d : Die) (name : String) (v : ℕ) (t : Pointer) (m : SymbolManager)
    (values : OrderedMap String)
    → IsEnumeratorEntry p d name v
    → HasValues m t values
    → (m' : SymbolManager) × (add_enum p d name t m ≡ (ok tt, m'))
      × HasValues m' t (OrderedMap.assign values v name)
unfolding add_enum
add_enum_lem p d name v t m values i (s, e, at, is_enum) =
    let enter : OrderedMap String → OrderedMap String =
      λ values. OrderedMap.assign values (i.value % u32) name in
    let s' : Symbol = record s { kind = with_values enter s.kind } in
    (
      record m { heap = record m.heap { cells = assign m.heap.cells t s' } },
      rw i.given (modify_lem t (with_values enter) m s at),
      (
        s',
        e,
        find-assign_own m.heap.cells t s',
        rw is_enum (ap (λ n. base_type e (enumeration (OrderedMap.assign values n name))) i.kept),
      ),
    )

casts_to-enum :
    (t : Pointer) (m : SymbolManager) (values : OrderedMap String)
    → t ≢ 0
    → HasValues m t values
    → casts_to (λ k. holds (as_enum k)) t m ≡ (ok true, m)
unfolding casts_to as_enum
casts_to-enum t m values real (s, e, at, is_enum) =
    let other : (t == 0) ≡ false = ground (arith, nat_beq_iff t 0) in rw (other, at, is_enum) refl

in_parent-enum :
    (t : Pointer) (m : SymbolManager) (values : OrderedMap String) (here otherwise : Method Pointer)
    → t ≢ 0
    → HasValues m t values
    → in_parent (λ k. holds (as_enum k)) t here otherwise m ≡ here m
unfolding in_parent
in_parent-enum t m values here otherwise real has =
    rw (casts_to-enum t m values real has, continue) refl

init_by_tag-enumerator :
    (p : Parser) (d : Die) (name : String) (t : Pointer) (m m' : SymbolManager)
    (values : OrderedMap String)
    → t ≢ 0
    → HasValues m t values
    → add_enum p d name t m ≡ (ok tt, m')
    → init_by_tag p d t name Tag.enumerator m ≡ (ok 0, m')
unfolding init_by_tag
init_by_tag-enumerator p d name t m m' values real has added =
    let other : (t == 0) ≡ false = ground (arith, nat_beq_iff t 0) in
    let here : Method Pointer = add_enum p d name t >> pure 0 in
    let otherwise : Method Pointer = lift (print_die_data p d) >> pure 0 in
    ap (λ b. (if b then raise assertion else in_parent (λ k. holds (as_enum k)) t here otherwise) m)
      other
    ∙ in_parent-enum t m values here otherwise real has
    ∙ rw (added, continue) refl

module _ (g : Debug) (p : Parser) where
  abbrev pub AreEnumeratorEntries : List ℕ → List (String × ℕ) → Type 0
  AreEnumeratorEntries [] [] = Unit
  AreEnumeratorEntries (h ∷ hs) ((name, v) ∷ es) =
      IsEnumeratorEntry p (g.die h) name v × AreEnumeratorEntries hs es
  AreEnumeratorEntries [] (e ∷ es) = ⊥
  AreEnumeratorEntries (h ∷ hs) [] = ⊥

module _ (g : Debug) (p : Parser) (t : Pointer) (real : t ≢ 0) where
  visit-enumerators :
      (hs : List ℕ) (es : List (String × ℕ)) (m : SymbolManager) (values : OrderedMap String)
      → AreEnumeratorEntries g p hs es
      → HasValues m t values
      → (m' : SymbolManager) × (visit g p (siblings hs) t m ≡ (ok tt, m'))
        × HasValues m' t (with_enumerators values es)
  unfolding visit
  visit-enumerators [] [] m values all has = (m, refl, has)
  visit-enumerators (h ∷ hs) ((name, v) ∷ es) m values (i, all) has =
      let d = g.die h in
      let (m1, added, has1) = add_enum_lem p d name v t m values i has in
      let first =
        init_symbol_from_die-init_by_tag p d name Tag.enumerator t m i.tagged i.named
        ∙ init_by_tag-enumerator p d name t m m1 values real has added in
      let (m2, run, has2) = visit-enumerators hs es m1 (OrderedMap.assign values v name) all has1 in
      (m2, rw (first, continue) run, has2)
  visit-enumerators [] (e ∷ es) m values all has = elim all [ ]
  visit-enumerators (h ∷ hs) [] m values all has = elim all [ ]

init_by_tag-enumeration :
    (p : Parser) (d : Die) (name : String) (parent : Pointer) (m : SymbolManager)
    → find_class_by_name (λ k. holds (as_enum k)) name m ≡ (ok none, m)
    → init_by_tag p d parent name Tag.enumeration_type m ≡ new_base_type p d name (enumeration []) m
unfolding init_by_tag get_type_instance
init_by_tag-enumeration p d name parent m new = rw (new, continue) refl

-- Where no enumeration of the name is known, walking the entry of an enumeration, without an
-- encoding, and those of its enumerators, of which libdwarf gives what is read, returns, in a manager
-- whose next pointer is not null and that has an identifier left; then the object that was made for
-- it is an enumeration whose values ascend, and for which `enumName` gives, for every value, the
-- name of the last enumerator that has that value in its low 32 bits, or else throws an exception.
pub visit-enumeration :
    (g : Debug) (p : Parser) (h : ℕ) (hs : List ℕ) (name : String) (es : List (String × ℕ))
    (parent : Pointer) (m : SymbolManager)
    → IsTypeEntry p (g.die h) Tag.enumeration_type name
    → AreEnumeratorEntries g p hs es
    → find_class_by_name (λ k. holds (as_enum k)) name m ≡ (ok none, m)
    → m.heap.next ≢ 0
    → m.ids.current_id + 1 < u64
    → (m' : SymbolManager) × (values : OrderedMap String) × (visit g p
          (entry h (siblings hs) empty)
          parent
          m
        ≡ (ok tt, m'))
      × HasValues m' m.heap.next values
      × IsAscending values
      × ((w : ℕ)
          → enum_name values w
            ≡ or_fail (last_enumerator es w) (dwarf_exception "Enum value not found"))
unfolding visit enum_name OrderedMap.find
visit-enumeration g p h hs name es parent m i all new real room =
    let d = g.die h in
    let q = m.heap.next in
    let (m1, s, made, kind, cells, next, few) =
      new_base_type_lem p d Tag.enumeration_type name (enumeration []) m i room in
    let first =
      init_symbol_from_die-init_by_tag p d name Tag.enumeration_type parent m i.tagged i.named
      ∙ init_by_tag-enumeration p d name parent m new in
    let there : Map.find m1.heap.cells q ≡ some s = ground (arith, cells q, nat_beq_iff q q) in
    let (m2, run, has) = visit-enumerators g p q real hs es m1 [] all (s, 0, there, kind) in
    (
      m2,
      with_enumerators [] es,
      rw (first, made, continue, run) refl,
      has,
      IsAscending-with_enumerators es [] tt,
      λ w.
          ap (λ o. or_fail o (dwarf_exception "Enum value not found"))
            (find-with_enumerators es [] w ∙ sym (or_else-none (last_enumerator es w))),
    )
