-- ===== src/Parser/Print.antt =====
-- The other readers of attributes, and `print_die_data` for what may end it
-- (libdwarfparser/dwarfparser.cpp). What is printed is left out.
use libdwarfparser.Prelude.{ℕ, String, Bool, true, false, none, some, List, [], ◌∷◌, nat_eq}
use libdwarfparser.Outcome.{Outcome, ok, fail, dwarf_exception, exits, undefined, ◌>>=◌, ◌>>◌}
use libdwarfparser.Map.{find}
use libdwarfparser.Parser.{
  Parser, Die, Form, Answer, dlv_error, dlv_no_entry, dlv_ok, form_addr, form_data, form_ref4,
  form_sdata, form_flag_present, form_strp, die_has_attr, get_attribute, get_die_name,
  get_die_offset, get_die_attribute_number,
}

-- The codes of the DWARF standard.
abbrev pub at_declaration : ℕ
at_declaration = 0x3c

abbrev pub at_external : ℕ
at_external = 0x3f

abbrev pub answer_or : {A : Type 0} → Answer A → String → Outcome A
answer_or (dlv_ok x) reason = ok x
answer_or dlv_error reason = fail (dwarf_exception reason)
answer_or dlv_no_entry reason = fail (dwarf_exception reason)

unfoldable pub get_die_attribute_string : Die → ℕ → Outcome String
unfolding get_attribute
get_die_attribute_string d attr = do
  a ← get_attribute d attr
  answer_or a.formstring "Error in getDieAttributeString\n"

unfoldable pub get_die_attribute_address : Die → ℕ → Outcome ℕ
unfolding get_attribute
get_die_attribute_address d attr = do
  a ← get_attribute d attr
  answer_or a.formaddr "Error in getDieAttributeAddress\n"

-- A flag that is not there is not set.
unfoldable pub get_die_attribute_flag : Die → ℕ → Outcome Bool
unfolding die_has_attr get_attribute
get_die_attribute_flag d attr = elim (die_has_attr d attr) [
  | false ↦ ok false
  | true ↦ (do a ← get_attribute d attr; answer_or a.formflag "Error in getDieAttributeAddress\n")
]

unfoldable pub is_die_external : Die → Outcome Bool
unfolding get_die_attribute_flag
is_die_external d = get_die_attribute_flag d at_external

unfoldable pub is_die_declaration : Die → Outcome Bool
unfolding get_die_attribute_flag
is_die_declaration d = get_die_attribute_flag d at_declaration

abbrev pub discard : {A : Type 0} → Outcome A → Outcome (Unit {0})
discard o = o >>= λ _. ok tt

-- One attribute, by its form.
unfoldable pub print_form : Parser → Die → ℕ → Form → Outcome (Unit {0})
unfolding get_die_attribute_address get_die_attribute_number get_die_attribute_flag
    get_die_attribute_string
print_form p d attr (form_addr r) = discard (get_die_attribute_address d attr)
print_form p d attr (form_data r) = discard (get_die_attribute_number p d attr)
print_form p d attr (form_ref4 r) = discard (get_die_attribute_number p d attr)
print_form p d attr (form_sdata r) = discard (get_die_attribute_number p d attr)
print_form p d attr form_flag_present = discard (get_die_attribute_flag d attr)
print_form p d attr form_strp = discard (get_die_attribute_string d attr)
print_form p d attr _ = ok tt

unfoldable pub print_attribute : Parser → Die → ℕ → Outcome (Unit {0})
unfolding print_form
print_attribute p d attr = elim (find d.attributes attr) [
  | some (dlv_ok a) ↦ print_form p d attr a.form
  | some dlv_error ↦ fail (dwarf_exception "Error in dwarf_attr\n")
  | some dlv_no_entry ↦ fail undefined
  | none ↦ fail undefined
]

-- The loop over the attributes. One whose code libdwarf does not give is passed over.
unfoldable pub print_attributes : Parser → Die → List (Answer ℕ) → Outcome (Unit {0})
unfolding print_attribute
print_attributes p d [] = ok tt
print_attributes p d (dlv_ok attr ∷ rest) = print_attribute p d attr >> print_attributes p d rest
print_attributes p d (dlv_error ∷ rest) = print_attributes p d rest
print_attributes p d (dlv_no_entry ∷ rest) = print_attributes p d rest

unfoldable pub print_die_data : Parser → Die → Outcome (Unit {0})
unfolding get_die_name get_die_offset print_attributes
print_die_data p d = get_die_name d >>= λ name. get_die_offset p d >>= λ offset. elim d.tag [
  | dlv_ok tag ↦ elim d.tag_name [
    | dlv_ok tag_name ↦ elim d.attrlist [
      | dlv_error ↦ fail (dwarf_exception "Unable to get attribute list")
      | dlv_no_entry ↦ ok tt
      | dlv_ok attrs ↦ print_attributes p d attrs
    ]
    | _ ↦ fail exits
  ]
  | _ ↦ fail exits
]
