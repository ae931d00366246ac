-- ===== src/Parser/Members.antt =====
-- `Structured::addMember` and the constructor of `StructuredMember` (libdwarfparser/structured.cpp,
-- structuredmember.cpp): the object that an entry of a member makes.
pub mod Agrees
pub mod Layout
pub mod Finds
pub mod Structures
pub mod Reading
mod Tests
use libdwarfparser.Prelude.{
  ℕ, suc, ◌+◌, ◌%◌, ◌≡◌, ◌≢◌, ◌≤◌, ◌<◌, refl, sym, ap, ◌∙◌, ◌⊎◌, inl, inr, String, Bool, true,
  false, Option, none, some, List, [], ◌∷◌, ◌==◌, nat_eq, nat_beq_iff, if◌then◌else◌, arith,
  string_eq, Bool-cases,
}
use libdwarfparser.Outcome.{ok}
use libdwarfparser.Map.{Map, find, assign, find-assign, find-assign_own}
use libdwarfparser.Ids
use libdwarfparser.Ids.{DwarfId, u64}
use libdwarfparser.Ids.History.{get_id-ne-zero, current_id-get_id}
use libdwarfparser.Symbols.{Symbol, Kind, Pointer, Reference, MemberData, member}
use libdwarfparser.Manager.{SymbolManager, continue, get_id}
use libdwarfparser.Navigate.Containers.{modify_lem}
use libdwarfparser.Parser.{
  Parser, Die, die_has_attr, get_attribute, get_die_name, get_die_offset, get_die_byte_size,
  get_die_attribute_number,
}
use libdwarfparser.Parser.Objects.{
  at_type, at_bit_size, at_bit_offset, at_data_member_location, u32, modify, with_type, with_member,
  type_of, init_reference, read_field, new_member,
}
use libdwarfparser.Parser.Registered.{registered, symbol_of, new_symbol_lem}

-- The second manager has one object more than the first, and at most two identifiers more.
pub record Built (m m' : SymbolManager) (q : Pointer) (s : Symbol) : Type 0 where
  pub cells :
      (j : Pointer) → find m'.heap.cells j ≡ (if q == j then some s else find m.heap.cells j)
  pub next : m'.heap.next ≡ suc m.heap.next
  pub room : m'.ids.current_id ≤ m.ids.current_id + 2

there :
    (m m' : SymbolManager) (q : Pointer) (s : Symbol)
    → Built m m' q s
    → find m'.heap.cells q ≡ some s
there m m' q s b = ground (arith, b.cells q, nat_beq_iff q q)

modify-Built :
    (m m1 : SymbolManager) (q : Pointer) (s : Symbol) (f : Kind → Kind)
    → Built m m1 q s
    → (m2 : SymbolManager) × (modify q f m1 ≡ (ok tt, m2))
      × Built m m2 q (record s { kind = f s.kind })
modify-Built m m1 q s f b =
    let s' = record s { kind = f s.kind } in
    (
      record m1 { heap = record m1.heap { cells = assign m1.heap.cells q s' } },
      modify_lem q f m1 s (there m m1 q s b),
      record {
        cells = λ j. ground (arith, find-assign m1.heap.cells q j s', b.cells j);
        next = b.next;
        room = b.room;
      },
    )

-- Where the entry has the attribute, libdwarf gives its number.
abbrev pub Gives : Parser → Die → ℕ → ℕ → Type 0
Gives p d attr n = (die_has_attr d attr ≡ false) ⊎ (get_die_attribute_number p d attr ≡ ok n)

abbrev of_kind : Symbol → Kind → Symbol
of_kind s k = record s { kind = k }

read_field-Built :
    (p : Parser) (d : Die) (attr n : ℕ) (set : ℕ → MemberData → MemberData) (m m1 : SymbolManager)
    (q : Pointer) (s : Symbol) (r : Reference) (fields : MemberData)
    → Gives p d attr n
    → Built m m1 q (of_kind s (member r fields))
    → (m2 : SymbolManager) × (read_field p d attr q set m1 ≡ (ok tt, m2))
      × Built m m2 q
          (of_kind s (member r (if die_has_attr d attr then set (n % u32) fields else fields)))
unfolding read_field
read_field-Built p d attr n set m m1 q s r fields gives b =
    elim (Bool-cases (die_has_attr d attr)) [
      | inr absent ↦ (m1, rw absent refl, rw absent b)
      | inl present ↦ elim gives [
        | inl absent ↦ absurd (ground (arith, present, absent))
        | inr given ↦
            let (m2, run, b') =
              modify-Built m m1 q (of_kind s (member r fields)) (with_member (set (n % u32))) b in
            (m2, rw (present, given) run, rw present b')
      ]
    ]

type_of_lem :
    (p : Parser) (d : Die) (n : ℕ) (m : SymbolManager)
    → get_die_attribute_number p d at_type ≡ ok n
    → m.ids.current_id + 1 < u64
    → type_of p d m ≡ (
      ok (Ids.get_id m.ids (n, p.file_id)).0,
      record m { ids = (Ids.get_id m.ids (n, p.file_id)).1 },
    )
unfolding type_of get_id
type_of_lem p d n m given room =
    let i = (Ids.get_id m.ids (n, p.file_id)).0 in
    let real : (i == 0) ≡ false =
      ground (arith, nat_beq_iff i 0, get_id-ne-zero m.ids (n, p.file_id) room) in
    rw (given, real) refl

-- libdwarf gives what is read of the entry of a member, which has a type.
pub record IsMember (p : Parser) (d : Die) : Type 0 where
  pub size : ℕ
  pub sized : get_die_byte_size p d ≡ ok size
  pub offset : ℕ
  pub placed : get_die_offset p d ≡ ok offset
  pub type : ℕ
  pub typed : die_has_attr d at_type ≡ true
  pub type_given : get_die_attribute_number p d at_type ≡ ok type
  pub bits : ℕ
  pub bits_given : Gives p d at_bit_size bits
  pub bit_start : ℕ
  pub bit_start_given : Gives p d at_bit_offset bit_start
  pub location : ℕ
  pub location_given : Gives p d at_data_member_location location

-- The location that is kept of the one that libdwarf gives.
abbrev pub kept_location : Die → ℕ → ℕ
kept_location d n = if die_has_attr d at_data_member_location then n % u32 else 0

abbrev no_fields : Pointer → MemberData
no_fields parent = record { bit_size = 0; bit_offset = 0; member_location = 0; parent = parent }

abbrev no_reference : Reference
no_reference = record { type = none; base = none }

registered-Built :
    (p : Parser) (d : Die) (name : String) (k : Kind) (m : SymbolManager) (size offset : ℕ)
    → m.ids.current_id + 2 < u64
    → let ids = (Ids.get_id m.ids (offset, p.file_id)).1 in
      let s = symbol_of p name k m size offset in
      Built m (registered m ids s) m.heap.next s × (ids.current_id ≤ m.ids.current_id + 1)
registered-Built p d name k m size offset room =
    let s = symbol_of p name k m size offset in
    let bounds = current_id-get_id m.ids (offset, p.file_id) (omega arith) in
    (
      record {
        cells = λ j. find-assign m.heap.cells m.heap.next j s;
        next = refl;
        room = omega (arith, bounds);
      },
      bounds.1,
    )

init_reference-Built :
    (p : Parser) (d : Die) (m m1 : SymbolManager) (q : Pointer) (s : Symbol) (fields : MemberData)
    → IsMember p d
    → m.ids.current_id + 2 < u64
    → m1.ids.current_id ≤ m.ids.current_id + 1
    → Built m m1 q (of_kind s (member no_reference fields))
    → (m2 : SymbolManager) × (i : ℕ) × (init_reference p d q m1 ≡ (ok tt, m2))
      × Built m m2 q (of_kind s (member (record no_reference { type = some i }) fields))
unfolding init_reference
init_reference-Built p d m m1 q s fields e room first b =
    let pair : DwarfId = (e.type, p.file_id) in
    let i = (Ids.get_id m1.ids pair).0 in
    let bounds = current_id-get_id m1.ids pair (omega arith) in
    let m1' : SymbolManager = record m1 { ids = (Ids.get_id m1.ids pair).1 } in
    let b1 : Built m m1' q (of_kind s (member no_reference fields)) = record {
      cells = b.cells;
      next = b.next;
      room = omega (arith, bounds);
    } in
    let (m2, run, b2) =
      modify-Built m m1' q (of_kind s (member no_reference fields)) (with_type i) b1 in
    (m2, i, rw (e.typed, type_of_lem p d e.type m1 e.type_given (omega arith), continue) run, b2)

location_lem :
    (a b c : Bool) (x y z : ℕ) (parent : Pointer)
    → (let f1 = if a then record (no_fields parent) { bit_size = x } else no_fields parent in
        let f2 = if b then record f1 { bit_offset = y } else f1 in
        if c then record f2 { member_location = z } else f2).member_location
      ≡ (if c then z else 0)
location_lem a b true x y z parent = refl
location_lem true true false x y z parent = refl
location_lem true false false x y z parent = refl
location_lem false true false x y z parent = refl
location_lem false false false x y z parent = refl

pub new_member-Built :
    (p : Parser) (d : Die) (name : String) (parent : Pointer) (m : SymbolManager) (e : IsMember p d)
    → parent ≢ 0
    → m.ids.current_id + 2 < u64
    → (m' : SymbolManager) × (s : Symbol) × (r : Reference) × (fields : MemberData) × (new_member p
          d name parent m
        ≡ (ok m.heap.next, m'))
      × Built m m' m.heap.next (record s { kind = member r fields })
      × (fields.member_location ≡ kept_location d e.location)
unfolding new_member
new_member-Built p d name parent m e real room =
    let q = m.heap.next in
    let k = member no_reference (no_fields parent) in
    let s = symbol_of p name k m e.size e.offset in
    let (b0, first) = registered-Built p d name k m e.size e.offset room in
    let (m1, i, run1, b1) =
      init_reference-Built p d m (registered m (Ids.get_id m.ids (e.offset, p.file_id)).1 s) q s
        (no_fields parent) e room first b0 in
    let r : Reference = record no_reference { type = some i } in
    let set_bits : ℕ → MemberData → MemberData = λ n fields. record fields { bit_size = n } in
    let set_start : ℕ → MemberData → MemberData = λ n fields. record fields { bit_offset = n } in
    let set_location : ℕ → MemberData → MemberData =
      λ n fields. record fields { member_location = n } in
    let f1 =
      if die_has_attr d at_bit_size
      then set_bits (e.bits % u32) (no_fields parent)
      else no_fields parent in
    let (m2, run2, b2) =
      read_field-Built p d at_bit_size e.bits set_bits m m1 q s r (no_fields parent) e.bits_given
        b1 in
    let f2 = if die_has_attr d at_bit_offset then set_start (e.bit_start % u32) f1 else f1 in
    let (m3, run3, b3) =
      read_field-Built p d at_bit_offset e.bit_start set_start m m2 q s r f1 e.bit_start_given b2 in
    let (m4, run4, b4) =
      read_field-Built p d at_data_member_location e.location set_location m m3 q s r f2
        e.location_given b3 in
    let other : (parent == 0) ≡ false = ground (arith, nat_beq_iff parent 0) in
    (
      m4,
      s,
      r,
      if die_has_attr d at_data_member_location then set_location (e.location % u32) f2 else f2,
      rw
          (
            new_symbol_lem p d name k m e.size e.offset e.sized e.placed,
            continue,
            run1,
            other,
            run2,
            run3,
            run4,
          )
          refl,
      b4,
      location_lem (die_has_attr d at_bit_size) (die_has_attr d at_bit_offset)
          (die_has_attr d at_data_member_location) (e.bits % u32) (e.bit_start % u32)
          (e.location % u32) parent,
    )
