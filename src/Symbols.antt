-- ===== src/Symbols.antt =====
-- The classes of symbols (libdwarfparser/symbol.h and the headers of its subclasses) as data: what
-- each object holds, with its class as a constructor. A pointer is a number, never 0.
use libdwarfparser.Prelude.{ℕ, String, Bool, Option, none, some, List}
use libdwarfparser.Map.{Map}
use libdwarfparser.OrderedMap.{OrderedMap}

abbrev pub Pointer : Type 0
Pointer = ℕ

-- What the classes `RefBaseType` and `ReferencingType` hold: the identifier of the type referred to,
-- `none` while the constructor has left it unset, and the pointer once it is resolved.
pub record Reference : Type 0 where
  pub type : Option ℕ
  pub base : Option Pointer

pub record FunctionData : Type 0 where
  pub rettype : ℕ
  pub address : ℕ
  pub param_list : List (String × ℕ)
  pub params_final : Bool

pub record ArrayData : Type 0 where
  pub length : ℕ
  pub length_type : ℕ

pub record MemberData : Type 0 where
  pub bit_size : ℕ
  pub bit_offset : ℕ
  pub member_location : ℕ
  pub parent : Pointer

pub data RefKind : Type 0 where
  pointer const_type typedef func_pointer : RefKind
  array : ArrayData → RefKind

pub data StructKind : Type 0 where
  struct union : StructKind

-- The classes below `BaseType`; `plain` is `BaseType` itself.
pub data TypeKind : Type 0 where
  plain : TypeKind
  enumeration : OrderedMap String → TypeKind
  function : FunctionData → TypeKind
  structured : StructKind → Map String Pointer → TypeKind
  ref_base_type : Reference → RefKind → TypeKind

pub data Kind : Type 0 where
  base_type : ℕ → TypeKind → Kind
  variable : Reference → ℕ → Kind
  member : Reference → MemberData → Kind

pub record Symbol : Type 0 where
  pub name : String
  pub byte_size : ℕ
  pub id : ℕ
  pub kind : Kind

-- The classes that the program casts to by `dynamic_cast`, and what the cast reveals.
unfoldable pub as_base_type : Kind → Option (ℕ × TypeKind)
as_base_type (base_type e t) = some (e, t)
as_base_type _ = none

unfoldable pub as_function : Kind → Option FunctionData
as_function (base_type e (function f)) = some f
as_function _ = none

unfoldable pub as_enum : Kind → Option (OrderedMap String)
as_enum (base_type e (enumeration values)) = some values
as_enum _ = none

unfoldable pub as_structured : Kind → Option (Map String Pointer)
as_structured (base_type e (structured k members)) = some members
as_structured _ = none

unfoldable pub as_ref_base_type : Kind → Option (Reference × RefKind)
as_ref_base_type (base_type e (ref_base_type r k)) = some (r, k)
as_ref_base_type _ = none

-- `Array` is a `Pointer`.
unfoldable pub as_pointer : Kind → Option (Reference × RefKind)
as_pointer (base_type e (ref_base_type r pointer)) = some (r, pointer)
as_pointer (base_type e (ref_base_type r (array a))) = some (r, array a)
as_pointer _ = none

unfoldable pub as_array : Kind → Option (Reference × ArrayData)
as_array (base_type e (ref_base_type r (array a))) = some (r, a)
as_array _ = none

unfoldable pub as_variable : Kind → Option (Reference × ℕ)
as_variable (variable r location) = some (r, location)
as_variable _ = none

unfoldable pub as_member : Kind → Option (Reference × MemberData)
as_member (member r m) = some (r, m)
as_member _ = none
