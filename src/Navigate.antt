-- ===== src/Navigate.antt =====
-- References between types and the members of structures (libdwarfparser/refbasetype.cpp,
-- referencingtype.cpp, array.cpp, structuredmember.cpp, structured.cpp, enum.cpp).
-- Navigate.Instances has the class `Instance`.
pub mod Instances
pub mod Members
pub mod Params
pub mod Chains
pub mod Containers
pub mod Strides
pub mod Tests
use libdwarfparser.Prelude.{
  ℕ, zero, suc, ◌+◌, ◌-◌, ◌*◌, ◌%◌, ◌^◌, String, Bool, true, false, not, ◌&&◌, ◌||◌, Option, none,
  some, List, [], ◌∷◌, ltb, ◌==◌, nat_eq, string_eq, if◌then◌else◌,
}
use libdwarfparser.Outcome.{
  Outcome, ok, fail, undefined, assertion, out_of_fuel, dwarf_exception, require, or_fail,
}
use libdwarfparser.Map.{Map, at_or, touch}
use libdwarfparser.OrderedMap
use libdwarfparser.OrderedMap.{OrderedMap}
use libdwarfparser.Symbols.{
  Symbol, Kind, Reference, Pointer, MemberData, base_type, variable, member, ref_base_type,
  structured, as_ref_base_type, as_array, as_member, as_structured, as_enum,
}
use libdwarfparser.Manager.{Method, pure, raise, lift, continue, ◌>>=◌, ◌>>◌, deref}
use libdwarfparser.Manager.Lookup.{find_symbol_by_id, find_base_type_by_id}
use libdwarfparser.Clean.{type_or_zero}
use libdwarfparser.Parser.Objects.{modify, with_members, u32}

-- `this->base = base`
abbrev pub with_base : Pointer → Kind → Kind
with_base b (base_type e (ref_base_type r k)) =
    base_type e (ref_base_type (record r { base = some b }) k)
with_base b (variable r location) = variable (record r { base = some b }) location
with_base b (member r fields) = member (record r { base = some b }) fields
with_base b k = k

unfoldable pub resolve_base_type : Pointer → ℕ → Method Pointer
unfolding find_base_type_by_id modify
resolve_base_type q type = do
  lift (require (not (type == 0)))
  b ← find_base_type_by_id type
  modify q (with_base b)
  pure b

-- `RefBaseType::getBaseType`
unfoldable pub get_base_type : Pointer → Method Pointer
unfolding deref as_ref_base_type resolve_base_type
get_base_type q = deref q >>= λ s. elim (as_ref_base_type s.kind) [
  | none ↦ raise undefined
  | some (r, k) ↦ elim r.base [ some b ↦ pure b | none ↦ resolve_base_type q (type_or_zero r.type) ]
]

-- `ReferencingType::getBaseType` of a member. A type that was never set is read all the same.
unfoldable pub member_base_type : Pointer → Method Pointer
unfolding deref as_member find_base_type_by_id modify
member_base_type q = deref q >>= λ s. elim (as_member s.kind) [
  | none ↦ raise undefined
  | some (r, fields) ↦ lift (or_fail r.type undefined) >>= λ type.
      find_base_type_by_id type >>= λ b. modify q (with_base b) >> pure b
]

-- The loop that follows references to a type that is none. A null pointer is none.
unfoldable pub underlying : ℕ → Pointer → Method Pointer
unfolding deref as_ref_base_type get_base_type
underlying zero q = raise out_of_fuel
underlying (suc n) q =
    if q == 0
    then pure 0
    else (deref q >>= λ s. elim (as_ref_base_type s.kind) [
      | none ↦ pure q
      | some _ ↦ get_base_type q >>= underlying n
    ])

-- `getByteSize`, by the class of the object.
unfoldable pub get_byte_size : ℕ → Pointer → Method ℕ
unfolding deref as_array as_ref_base_type as_member find_symbol_by_id get_base_type member_base_type
get_byte_size zero q = raise out_of_fuel
get_byte_size (suc n) q = deref q >>= λ s. elim (as_array s.kind) [
  | some (r, a) ↦ find_symbol_by_id (type_or_zero r.type) >>= get_byte_size n >>= λ size.
      pure (a.length * size % u32)
  | none ↦ elim (as_ref_base_type s.kind) [
    | some _ ↦ get_base_type q >>= get_byte_size n
    | none ↦ elim (as_member s.kind) [
      | some _ ↦
          if s.byte_size == 0 then (member_base_type q >>= get_byte_size n) else pure s.byte_size
      | none ↦ pure s.byte_size
    ]
  ]
]

-- `getMemberLocation`
unfoldable pub location_of : Pointer → Method ℕ
unfolding deref as_member
location_of q = deref q >>= λ s. elim (as_member s.kind) [
  | none ↦ raise undefined
  | some (r, fields) ↦ pure fields.member_location
]

unfoldable pub members_of : Pointer → Method (Map String Pointer)
unfolding deref as_structured
members_of t = deref t >>= λ s. elim (as_structured s.kind) [
  | none ↦ raise undefined
  | some members ↦ pure members
]

-- `Structured::memberByName`: `memberNameMap[name]` enters a null pointer for a name that is not
-- there.
unfoldable pub member_by_name : Pointer → String → Method Pointer
unfolding members_of modify
member_by_name t name = do
  members ← members_of t
  modify t (with_members (λ ms. touch ms name 0))
  pure (at_or members name 0)

-- `!result || location > result->getMemberLocation()`
unfoldable pub is_closer : ℕ → Option Pointer → Method Bool
unfolding location_of
is_closer location none = pure true
is_closer location (some result) = location_of result >>= λ l. pure (ltb l location)

unfoldable pub nearest : ℕ → Option Pointer → List (String × Pointer) → Method (Option Pointer)
unfolding location_of is_closer
nearest offset result [] = pure result
nearest offset result ((name, q) ∷ ms) = location_of q >>= λ location. elim (location == offset) [
  | true ↦ pure (some q)
  | false ↦ elim (ltb location offset) [
    | false ↦ nearest offset result ms
    | true ↦ is_closer location result >>= λ b. elim b [
      | true ↦ nearest offset (some q) ms
      | false ↦ nearest offset result ms
    ]
  ]
]

unfoldable pub member_by_offset : Pointer → ℕ → Method (Option Pointer)
unfolding members_of nearest
member_by_offset t offset = members_of t >>= nearest offset none

unfoldable pub name_at : ℕ → List (String × Pointer) → Method String
unfolding location_of
name_at offset [] = pure ""
name_at offset ((name, q) ∷ ms) = location_of q >>= λ location. elim (location == offset) [
  | true ↦ pure name
  | false ↦ name_at offset ms
]

unfoldable pub member_name_by_offset : Pointer → ℕ → Method String
unfolding members_of name_at
member_name_by_offset t offset = members_of t >>= name_at offset

unfoldable pub offset_of : String → List (String × Pointer) → Method ℕ
unfolding deref location_of
offset_of name [] = pure (u32 - 1)
offset_of name ((n, q) ∷ ms) =
    deref q >>= λ s. elim (s.name == name) [ true ↦ location_of q | false ↦ offset_of name ms ]

unfoldable pub member_offset : Pointer → String → Method ℕ
unfolding members_of offset_of
member_offset t name = members_of t >>= offset_of name

-- `Enum::enumName` and `Enum::enumValue`
unfoldable pub enum_name : OrderedMap String → ℕ → Outcome String
enum_name values value =
    or_fail (OrderedMap.find values value) (dwarf_exception "Enum value not found")

unfoldable pub enum_value : OrderedMap String → String → Outcome ℕ
enum_value [] name = fail (dwarf_exception "Enum name not found")
enum_value ((v, n) ∷ values) name =
    let rest = enum_value values name in if n == name then ok v else rest
