-- ===== src/Navigate/Containers.antt =====
-- `Instance::changeBaseType` and `Instance::memberByName` (libdwarfparser/instance.cpp): from a list
-- to the structure that contains it, and back.
use libdwarfparser.Prelude.{
  ℕ, suc, ◌≡◌, ◌≢◌, refl, ◌+◌, ◌-◌, ◌%◌, ◌<◌, String, Bool, true, false, Option, some, ◌==◌, arith,
  nat_eq, nat_beq_iff, string_eq, eq_iff, Bool-cases, inl, inr, ap, ◌∙◌,
}
use libdwarfparser.Outcome.{Outcome, ok}
use libdwarfparser.Map.{Map, find, assign, touch, at_or, assign_same, find-assign, find-assign_own}
use libdwarfparser.Block.{u64}
use libdwarfparser.Symbols.{
  Symbol, Kind, Pointer, MemberData, StructKind, base_type, structured, member, as_pointer,
}
use libdwarfparser.Manager.{SymbolManager, continue}
use libdwarfparser.Manager.Lookup.{find_base_type_by_id, holds}
use libdwarfparser.Manager.Names.{find_base_type_by_name, head_of, equal_range}
use libdwarfparser.Parser.Init.{casts_to}
use libdwarfparser.Parser.Objects.{modify, with_members}
use libdwarfparser.Navigate.{
  member_by_name, members_of, member_base_type, location_of, underlying, with_base,
}
use libdwarfparser.Navigate.Instances.{
  Instance, change_base_type, instance_member, assert_structured,
}

-- A structure and a member, as objects.
abbrev pub structure : String → ℕ → ℕ → ℕ → StructKind → Map String Pointer → Symbol
structure name byte_size id e k members = record {
  name = name;
  byte_size = byte_size;
  id = id;
  kind = base_type e (structured k members);
}

abbrev pub member_symbol : String → ℕ → ℕ → Option Pointer → ℕ → MemberData → Symbol
member_symbol name byte_size id base type fields = record {
  name = name;
  byte_size = byte_size;
  id = id;
  kind = member (record { type = some type; base = base }) fields;
}

touch_same :
    (members : Map String Pointer) (name : String) (q : Pointer)
    → find members name ≡ some q
    → touch members name 0 ≡ members
unfolding touch
touch_same members name q h = ground (arith, h)

at_or_found :
    (members : Map String Pointer) (name : String) (q : Pointer)
    → find members name ≡ some q
    → at_or members name 0 ≡ q
unfolding at_or
at_or_found members name q h = ground (arith, h)

-- An assignment to an object that is there.
pub modify_lem :
    (q : Pointer) (f : Kind → Kind) (m : SymbolManager) (s : Symbol)
    → find m.heap.cells q ≡ some s
    → modify q f m ≡ (
      ok tt,
      record m {
        heap = record m.heap { cells = assign m.heap.cells q (record s { kind = f s.kind }) };
      },
    )
unfolding modify
modify_lem q f m s at = rw at refl

modify_same :
    (q : Pointer) (f : Kind → Kind) (m : SymbolManager) (s : Symbol)
    → find m.heap.cells q ≡ some s
    → f s.kind ≡ s.kind
    → modify q f m ≡ (ok tt, m)
unfolding modify
modify_same q f m s at same = rw (at, same, assign_same m.heap.cells q s at) refl

module _ (m : SymbolManager) (t q b : Pointer) (name field : String) (size id e : ℕ)
    (k : StructKind) (members : Map String Pointer) where
  pub member_by_name_lem :
      find m.heap.cells t ≡ some (structure name size id e k members)
      → find members field ≡ some q
      → member_by_name t field m ≡ (ok q, m)
  unfolding member_by_name members_of
  member_by_name_lem at there =
      let entered =
        modify_same t (with_members (λ ms. touch ms field 0)) m (structure name size id e k members)
          at (ap (λ ms. base_type e (structured k ms)) (touch_same members field q there)) in
      rw (at, entered, continue) (ap (λ x. (ok x, m)) (at_or_found members field q there))

  assert_structured_lem :
      t ≢ 0
      → find m.heap.cells t ≡ some (structure name size id e k members)
      → assert_structured t m ≡ (ok tt, m)
  unfolding assert_structured
  assert_structured_lem real at = elim (Bool-cases (t == 0)) [
    | inl null ↦ absurd (real ((nat_beq_iff t 0).0 null))
    | inr other ↦ rw (other, at) refl
  ]

location_of_lem :
    (m : SymbolManager) (q : Pointer) (name : String) (size id : ℕ) (base : Option Pointer)
    (type : ℕ) (fields : MemberData)
    → find m.heap.cells q ≡ some (member_symbol name size id base type fields)
    → location_of q m ≡ (ok fields.member_location, m)
unfolding location_of
location_of_lem m q name size id base type fields at = rw at refl

casts_to_ends :
    (cast : Kind → Bool) (m : SymbolManager) (q : Pointer) (s : Symbol)
    → find m.heap.cells q ≡ some s
    → (v : Bool) × (casts_to cast q m ≡ (ok v, m))
unfolding casts_to
casts_to_ends cast m q s at = elim (Bool-cases (q == 0)) [
  | inl null ↦ (false, rw null refl)
  | inr other ↦ (cast s.kind, rw (other, at) refl)
]

still_there :
    (m : SymbolManager) (q b : Pointer) (s t : Symbol)
    → find m.heap.cells b ≡ some s
    → (s' : Symbol) × (find (assign m.heap.cells q t) b ≡ some s')
still_there m q b s t at = elim (Bool-cases (q == b)) [
  | inl same ↦ (t, ground (arith, find-assign m.heap.cells q b t))
  | inr other ↦ (s, ground (arith, find-assign m.heap.cells q b t))
]

-- What resolving the type of a member leaves behind.
abbrev pub resolved : SymbolManager → Pointer → Symbol → Pointer → SymbolManager
resolved m q s b = record m {
  heap = record m.heap { cells = assign m.heap.cells q (record s { kind = with_base b s.kind }) };
}

member_base_type_lem :
    (m : SymbolManager) (q b : Pointer) (name : String) (size id : ℕ) (base : Option Pointer)
    (type : ℕ) (fields : MemberData)
    → find m.heap.cells q ≡ some (member_symbol name size id base type fields)
    → find_base_type_by_id type m ≡ (ok b, m)
    → member_base_type q m ≡ (ok b, resolved m q (member_symbol name size id base type fields) b)
unfolding member_base_type
member_base_type_lem m q b name size id base type fields at typed =
    rw
      (
        at,
        typed,
        continue,
        modify_lem q (with_base b) m (member_symbol name size id base type fields) at,
      )
      refl

-- A list at `i`, and the structure `t` of the name `new_type` with a member `q` of the name `field`,
-- whose type is `b`.
module _ (m : SymbolManager) (i : Instance) (new_type field : String) (t q b : Pointer)
    (s sb : Symbol) (name : String) (size id e : ℕ) (k : StructKind) (members : Map String Pointer)
    (mname : String) (msize mid : ℕ) (base : Option Pointer) (type : ℕ) (fields : MemberData)
    (at_list : find m.heap.cells i.type ≡ some s) (is_list : s.name ≡ "list_head")
    (named : head_of (equal_range m.base_type_name_map new_type) ≡ some t) (real : t ≢ 0)
    (at_t : find m.heap.cells t ≡ some (structure name size id e k members))
    (there : find members field ≡ some q) (real_q : q ≢ 0)
    (at_q : find m.heap.cells q ≡ some (member_symbol mname msize mid base type fields))
    (typed : find_base_type_by_id type m ≡ (ok b, m)) (at_b : find m.heap.cells b ≡ some sb) where
  abbrev container : Instance
  container = record { type = t; address = (i.address + (u64 - fields.member_location)) % u64 }

  name_test : (s.name == "list_head") ≡ true
  name_test = (eq_iff s.name "list_head").1 is_list

  member_test : (q == 0) ≡ false
  member_test = ground (arith, nat_beq_iff q 0)

  pub change_base_type_lem : change_base_type i new_type field m ≡ (ok container, m)
  unfolding change_base_type find_base_type_by_name
  change_base_type_lem =
      rw
        (
          at_list,
          named,
          name_test,
          assert_structured_lem m t q b name field size id e k members real at_t,
          member_by_name_lem m t q b name field size id e k members at_t there,
          member_test,
          location_of_lem m q mname msize mid base type fields at_q,
        )
        refl

  underlying_structure : (n : ℕ) → underlying (suc n) t m ≡ (ok t, m)
  unfolding underlying
  underlying_structure n = elim (Bool-cases (t == 0)) [
    | inl null ↦ absurd (real ((nat_beq_iff t 0).0 null))
    | inr other ↦ rw (other, at_t) refl
  ]

  instance_member_lem :
      (read64 : ℕ → Outcome ℕ) (n a : ℕ)
      → a ≢ 0
      → (a + fields.member_location) % u64 ≢ 0
      → (m' : SymbolManager) × (instance_member read64
            (suc n)
            (record { type = t; address = a })
            field
            false
            false
            m
          ≡ (ok (record { type = b; address = (a + fields.member_location) % u64 }), m'))
  unfolding instance_member
  instance_member_lem read64 n a real_a real_end =
      let sq = member_symbol mname msize mid base type fields in
      let sq' = record sq { kind = with_base b sq.kind } in
      let after = resolved m q sq b in
      let (sb', at_b') = still_there m q b sb sq' at_b in
      let (v, cast) = casts_to_ends (λ k. holds (as_pointer k)) after b sb' at_b' in
      let a_test : (a == 0) ≡ false = ground (arith, nat_beq_iff a 0) in
      let end_test : ((a + fields.member_location) % u64 == 0) ≡ false =
        ground (arith, nat_beq_iff ((a + fields.member_location) % u64) 0) in
      (
        after,
        rw
            (
              a_test,
              underlying_structure n,
              continue,
              assert_structured_lem m t q b name field size id e k members real at_t,
              member_by_name_lem m t q b name field size id e k members at_t there,
              member_test,
              member_base_type_lem m q b mname msize mid base type fields at_q typed,
              location_of_lem after q mname msize mid (some b) type fields
                  (find-assign_own m.heap.cells q sq'),
              end_test,
              cast,
            )
            refl,
      )

  -- From a list at an address, `changeBaseType` gives an instance of the structure around it, and
  -- from that instance `memberByName` of the field gives the address of the list again; where
  -- neither the address of the list nor that of the structure is 0, and no pointer is followed.
  pub change_base_type-member :
      (read64 : ℕ → Outcome ℕ) (n : ℕ)
      → i.address < u64
      → i.address ≢ 0
      → fields.member_location < u64
      → fields.member_location ≢ i.address
      → (c : Instance) × (m' : SymbolManager) × (change_base_type i new_type field m ≡ (ok c, m))
        × (c.type ≡ t)
        × (instance_member read64 (suc n) c field false false m
            ≡ (ok (record { type = b; address = i.address }), m'))
  change_base_type-member read64 n fits real_i small apart =
      let a = (i.address + (u64 - fields.member_location)) % u64 in
      let back : (a + fields.member_location) % u64 ≡ i.address = omega arith in
      let (m', e) =
        instance_member_lem read64 n a (λ h. absurd (apart (omega arith)))
          (λ h. absurd (real_i (omega arith))) in
      (
        container,
        m',
        change_base_type_lem,
        refl,
        e ∙ ap (λ x. (ok (record { type = b; address = x }), m')) back,
      )
