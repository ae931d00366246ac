-- ===== src/Parser.antt =====
-- The entries that `DwarfParser` (libdwarfparser/dwarfparser.cpp) reads. What libdwarf answers on an
-- entry is a record; the attributes are read from it the way the parser does. Parser.Objects has the
-- constructors of the symbols and Parser.Init the switch on the tag.
pub mod Dangling
pub mod Objects
pub mod Init
pub mod Print
pub mod Resolved
pub mod Returns
pub mod Sound
pub mod Walk
pub mod Files
pub mod Descriptors
pub mod Registered
pub mod Enums
pub mod Known
pub mod Made
pub mod Members
pub mod Tests
use libdwarfparser.Prelude.{
  ℕ, ◌+◌, ◌%◌, ◌^◌, String, Bool, true, false, not, Option, none, some, List, ◌==◌, nat_eq, ltb,
}
use libdwarfparser.Outcome.{Outcome, ok, fail, dwarf_exception, undefined, ◌>>=◌, ◌>>◌, require}
use libdwarfparser.Map.{Map, find}
use libdwarfparser.Block.{parse_block, u64}

-- `DW_DLV_ERROR`, `DW_DLV_NO_ENTRY` and `DW_DLV_OK`.
pub data Answer (A : Type 0) : Type 0 where
  dlv_error : Answer A
  dlv_no_entry : Answer A
  dlv_ok : A → Answer A

-- The form of an attribute, with the answer to the call that reads it. A block has its length and
-- the bytes that may be read.
pub data Form : Type 0 where
  form_block1 : Answer (ℕ × List ℕ) → Form
  form_data : Answer ℕ → Form
  form_ref4 : Answer ℕ → Form
  form_sdata : Answer ℕ → Form
  form_addr : Answer ℕ → Form
  form_sec_offset : Answer ℕ → Form
  form_exprloc : Answer (ℕ × List ℕ) → Form
  form_flag_present form_strp form_other : Form

-- An attribute: its form, and the answers of the calls that do not look at the form.
pub record Attribute : Type 0 where
  pub form : Form
  pub formstring : Answer String
  pub formaddr : Answer ℕ
  pub formflag : Answer Bool

pub data Tag : Type 0 where
  typedef structure_type union_type member base_type pointer_type const_type enumeration_type
        enumerator :
      Tag
  variable array_type subrange_type subprogram formal_parameter compile_unit namespace : Tag
  imported_declaration class_type lexical_block other_tag : Tag

-- What libdwarf answers on an entry. `attrlist` has the code of each attribute.
pub record Die : Type 0 where
  pub tag : Answer Tag
  pub diename : Answer String
  pub dieoffset : Answer ℕ
  pub bytesize : Answer ℕ
  pub bitoffset : Answer ℕ
  pub attributes : Map ℕ (Answer Attribute)
  pub attrlist : Answer (List (Answer ℕ))
  pub tag_name : Answer String

-- The state of the parser that reading an entry depends on, and the value that a local variable
-- without an initialiser holds.
pub record Parser : Type 0 where
  pub file_id : ℕ
  pub cur_cu_offset : ℕ
  pub indeterminate : ℕ

unfoldable pub die_has_attr : Die → ℕ → Bool
die_has_attr d attr = elim (find d.attributes attr) [ none ↦ false | some _ ↦ true ]

unfoldable pub get_die_name : Die → Outcome String
get_die_name d = elim d.diename [
  | dlv_error ↦ fail (dwarf_exception "Error in dwarf_diename\n")
  | dlv_no_entry ↦ ok ""
  | dlv_ok name ↦ ok name
]

unfoldable pub get_die_offset : Parser → Die → Outcome ℕ
get_die_offset p d = elim d.dieoffset [
  | dlv_error ↦ fail (dwarf_exception "Error in dwarf_dieoffset\n")
  | dlv_no_entry ↦ ok p.indeterminate
  | dlv_ok offset ↦ ok offset
]

unfoldable pub get_die_byte_size : Parser → Die → Outcome ℕ
get_die_byte_size p d = elim d.bytesize [
  | dlv_error ↦ fail (dwarf_exception "Error in dwarf_bytesize\n")
  | dlv_no_entry ↦ ok p.indeterminate
  | dlv_ok size ↦ ok size
]

unfoldable pub get_die_bit_offset : Parser → Die → Outcome ℕ
get_die_bit_offset p d = elim d.bitoffset [
  | dlv_error ↦ fail (dwarf_exception "Error in dwarf_bitoffset\n")
  | dlv_no_entry ↦ ok p.indeterminate
  | dlv_ok size ↦ ok size
]

-- The end of `getDieAttributeNumber`: the message names the entry.
unfoldable pub not_a_number : Die → Outcome ℕ
unfolding get_die_name
not_a_number d = do name ← get_die_name d; fail (dwarf_exception "Error in getDieAttributeNumber\n")

abbrev pub number_or_fail : {A : Type 0} → Die → Answer A → (A → Outcome ℕ) → Outcome ℕ
number_or_fail d (dlv_ok x) f = f x
number_or_fail d dlv_error f = not_a_number d
number_or_fail d dlv_no_entry f = not_a_number d

-- The switch on the form.
unfoldable pub form_number : Parser → Die → Form → Outcome ℕ
unfolding not_a_number parse_block
form_number p d (form_block1 r) =
    number_or_fail d r (λ b. require (ltb 0 b.0) >> parse_block b.0 b.1)
form_number p d (form_data r) = number_or_fail d r ok
form_number p d (form_ref4 r) = number_or_fail d r (λ x. ok ((x + p.cur_cu_offset) % u64))
form_number p d (form_sdata r) = number_or_fail d r ok
form_number p d (form_addr r) = number_or_fail d r ok
form_number p d (form_sec_offset r) = number_or_fail d r (λ x. ok ((x + p.cur_cu_offset) % u64))
form_number p d (form_exprloc r) = number_or_fail d r (λ b. parse_block b.0 b.1)
form_number p d _ = not_a_number d

-- `dwarf_hasattr` and `dwarf_attr`. An attribute that libdwarf says is there and does not give is a
-- variable never written.
unfoldable pub get_attribute : Die → ℕ → Outcome Attribute
get_attribute d attr = elim (find d.attributes attr) [
  | none ↦ fail (dwarf_exception "Attr not in Die\n")
  | some dlv_error ↦ fail (dwarf_exception "Error in dwarf_attr\n")
  | some dlv_no_entry ↦ fail undefined
  | some (dlv_ok a) ↦ ok a
]

unfoldable pub get_die_attribute_number : Parser → Die → ℕ → Outcome ℕ
unfolding get_attribute form_number
get_die_attribute_number p d attr = do a ← get_attribute d attr; form_number p d a.form
