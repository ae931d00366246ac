-- ===== src/Values.antt =====
-- The values of types in the memory of a virtual machine: the templates `getValue` and `getRawValue`
-- of `BaseType` (libdwarfparser/basetype.h).
pub mod Instances
pub mod Types
pub mod Chains
mod Tests
use libdwarfparser.Prelude.{
  ℕ, zero, suc, ◌%◌, ◌^◌, String, Bool, true, false, not, ◌&&◌, Option, none, some, ◌==◌, nat_eq,
  if◌then◌else◌,
}
use libdwarfparser.Outcome.{
  Outcome, ok, fail, assertion, undefined, dwarf_type_exception, out_of_fuel, ◌>>=◌, ◌>>◌, require,
  or_fail,
}
use libdwarfparser.Parser.Objects.{u32}
use libdwarfparser.Vmi.{
  Libvmi, Vm, read_8_from_va, read_16_from_va, read_32_from_va, read_64_from_va, read_str_from_va,
}
use libdwarfparser.Navigate.Instances.{non_zero}

-- What the numbers of DWARF's `DW_ATE_…` constants mean.
pub data Encoding : Type 0 where
  ate_boolean ate_float ate_signed ate_signed_char ate_unsigned ate_unsigned_char : Encoding
  ate_other : Encoding

-- The type that a template is instantiated for; `any_type` is a type without a specialisation.
pub data ValueType : Type 0 where
  bool_type float_type int8 uint8 int16 uint16 int32 uint32 int64 uint64 string_type any_type :
      ValueType

-- A Boolean, the float nearest to a number, the bits of an integer, or a string.
pub data Value : Type 0 where
  truth : Bool → Value
  rounded : ℕ → Value
  bits : ℕ → Value
  text : String → Value

-- `typeid`
abbrev pub typeid : ValueType → ℕ
typeid bool_type = 0
typeid float_type = 1
typeid int8 = 2
typeid uint8 = 3
typeid int16 = 4
typeid uint16 = 5
typeid int32 = 6
typeid uint32 = 7
typeid int64 = 8
typeid uint64 = 9
typeid string_type = 10
typeid any_type = 11

-- `return 0` as a `T`
abbrev pub zero_of : ValueType → Value
zero_of bool_type = truth false
zero_of float_type = rounded 0
zero_of _ = bits 0

module _ (v : Libvmi) (vm : Vm) where
  -- `VMIInstance::getInstance()`, of which a method is called.
  abbrev pub get_instance : Outcome (Unit {0})
  get_instance = if vm.has_instance then ok tt else fail undefined

  -- The `switch` of `BaseType::getValue`.
  unfoldable pub read_encoded : ValueType → Encoding → ℕ → ℕ → Outcome Value
  read_encoded t ate_boolean va pid =
      if typeid t == typeid bool_type
      then (get_instance >> ok (truth (non_zero (read_64_from_va v va pid))))
      else fail (dwarf_type_exception "Type not bool")
  read_encoded t ate_float va pid =
      if typeid t == typeid float_type
      then (get_instance >> ok (rounded (read_64_from_va v va pid)))
      else fail (dwarf_type_exception "Type not float")
  read_encoded t ate_signed va pid =
      if typeid t == typeid int64
      then (get_instance >> ok (bits (read_64_from_va v va pid)))
      else fail (dwarf_type_exception "Type not int64_t")
  read_encoded t ate_signed_char va pid =
      if typeid t == typeid int8
      then (get_instance >> ok (bits (read_8_from_va v va pid)))
      else fail (dwarf_type_exception "Type not int8_t")
  read_encoded t ate_unsigned va pid =
      if typeid t == typeid uint64
      then (get_instance >> ok (bits (read_64_from_va v va pid)))
      else fail (dwarf_type_exception "Type not uint64_t")
  read_encoded t ate_unsigned_char va pid =
      if typeid t == typeid int8
      then (get_instance >> ok (bits (read_8_from_va v va pid)))
      else fail (dwarf_type_exception "Type not int8_t")
  read_encoded t ate_other va pid = fail assertion

  -- `BaseType::getValue` for a type of an encoding, the specialisation for strings included.
  unfoldable pub get_value : (ℕ → Encoding) → ValueType → ℕ → ℕ → ℕ → Outcome Value
  unfolding read_encoded read_str_from_va
  get_value encoding_of string_type encoding va pid = do
    require (non_zero va)
    get_instance
    s ← read_str_from_va v va (pid % u32)
    ok (text s)
  get_value encoding_of t encoding va pid = do
    require (non_zero va)
    require (non_zero encoding)
    read_encoded t (encoding_of encoding) va (pid % u32)

  -- `BaseType::getRawValue`
  unfoldable pub get_raw_value : ValueType → ℕ → ℕ → Outcome Value
  unfolding read_str_from_va
  get_raw_value int8 va pid = do
    require (non_zero va)
    get_instance
    ok (bits (read_8_from_va v va (pid % u32)))
  get_raw_value uint8 va pid = do
    require (non_zero va)
    get_instance
    ok (bits (read_8_from_va v va (pid % u32)))
  get_raw_value int16 va pid = do
    require (non_zero va)
    get_instance
    ok (bits (read_16_from_va v va (pid % u32)))
  get_raw_value uint16 va pid = do
    require (non_zero va)
    get_instance
    ok (bits (read_16_from_va v va (pid % u32)))
  get_raw_value int32 va pid = do
    require (non_zero va)
    get_instance
    ok (bits (read_32_from_va v va (pid % u32)))
  get_raw_value uint32 va pid = do
    require (non_zero va)
    get_instance
    ok (bits (read_32_from_va v va (pid % u32)))
  get_raw_value int64 va pid = do
    require (non_zero va)
    get_instance
    ok (bits (read_64_from_va v va (pid % u32)))
  get_raw_value uint64 va pid = do
    require (non_zero va)
    get_instance
    ok (bits (read_64_from_va v va (pid % u32)))
  get_raw_value string_type va pid = do
    require (non_zero va)
    get_instance
    s ← read_str_from_va v va (pid % u32)
    ok (text s)
  get_raw_value t va pid = do require (non_zero va); ok (zero_of t)
