-- ===== src/Parser/Enums/Tests.antt =====
-- An enumeration with the values 0, 1 and again 0.
use libdwarfparser.Prelude.{
  ℕ, ◌+◌, ◌%◌, ◌≡◌, refl, arith, String, List, [], ◌∷◌, ◌==◌, nat_eq, string_eq, if◌then◌else◌,
}
use libdwarfparser.Outcome.{ok, or_fail, dwarf_exception}
use libdwarfparser.Map.{find}
use libdwarfparser.OrderedMap.{OrderedMap, IsAscending}
use libdwarfparser.Navigate.{enum_name}
use libdwarfparser.Manager.{SymbolManager, init}
use libdwarfparser.Manager.Names.{find_class_by_name}
use libdwarfparser.Parser.{
  Parser, Die, Tag, Attribute, Answer, dlv_ok, dlv_no_entry, form_data, die_has_attr,
  get_die_attribute_number,
}
use libdwarfparser.Parser.Objects.{at_const_value, u32}
use libdwarfparser.Parser.Walk.{Debug}
use libdwarfparser.Parser.Walk.Preorder.{entry, empty, visit}
use libdwarfparser.Parser.Made.{siblings}
use libdwarfparser.Parser.Enums.Reading.{
  HasValues, IsEnumeratorEntry, last_enumerator, visit-enumeration,
}

abbrev parser : Parser
parser = record { file_id = 1; cur_cu_offset = 0; indeterminate = 77 }

abbrev colour : Die
colour = record {
  tag = dlv_ok Tag.enumeration_type;
  diename = dlv_ok "colour";
  dieoffset = dlv_ok 0x20;
  bytesize = dlv_ok 4;
  attributes = [];
  bitoffset = dlv_no_entry;
  attrlist = dlv_no_entry;
  tag_name = dlv_no_entry;
}

abbrev enumerator_die : String → ℕ → Die
enumerator_die name value = record colour {
  tag = dlv_ok Tag.enumerator;
  diename = dlv_ok name;
  attributes =
      (
        at_const_value,
        dlv_ok (record {
          form = form_data (dlv_ok value);
          formstring = dlv_no_entry;
          formaddr = dlv_no_entry;
          formflag = dlv_no_entry;
        }),
      )
      ∷ [];
}

abbrev debug : Debug
debug = record {
  die = λ h.
      if h == 0
      then colour
      else if h == 1
      then enumerator_die "RED" 0
      else if h == 2
      then enumerator_die "GREEN" (u32 + 1)
      else enumerator_die "SCARLET" 0;
  child = λ h. dlv_no_entry;
  sibling = λ h. dlv_no_entry;
  next_cu_header = λ k. dlv_no_entry;
  cu_die = λ k. dlv_no_entry;
}

abbrev enumerators : List (String × ℕ)
enumerators = ("RED", 0) ∷ ("GREEN", 1) ∷ ("SCARLET", 0) ∷ []

enumerator_die-IsEnumeratorEntry :
    (name : String) (value v : ℕ)
    → value % u32 ≡ v
    → IsEnumeratorEntry parser (enumerator_die name value) name v
unfolding find get_die_attribute_number libdwarfparser.Parser.get_die_name
enumerator_die-IsEnumeratorEntry name value v low = record {
  tagged = refl;
  named = refl;
  value = value;
  given = refl;
  kept = low;
}

visit-enumeration_example :
    (m' : SymbolManager) × (values : OrderedMap String) × (visit debug parser
        (entry 0 (siblings (1 ∷ 2 ∷ 3 ∷ [])) empty)
        0
        init
      ≡ (ok tt, m'))
    × HasValues m' 1 values
    × IsAscending values
    × ((w : ℕ)
        → enum_name values w
          ≡ or_fail (last_enumerator enumerators w) (dwarf_exception "Enum value not found"))
unfolding find find_class_by_name libdwarfparser.Parser.get_die_name
    libdwarfparser.Parser.get_die_byte_size libdwarfparser.Parser.get_die_offset die_has_attr
    libdwarfparser.Manager.Names.equal_range
visit-enumeration_example =
    visit-enumeration debug parser 0 (1 ∷ 2 ∷ 3 ∷ []) "colour" enumerators 0 init
      (record {
        tagged = refl;
        named = refl;
        size = 4;
        sized = refl;
        offset = 0x20;
        placed = refl;
        plain = refl;
      })
      (
        enumerator_die-IsEnumeratorEntry "RED" 0 0 refl,
        (
          enumerator_die-IsEnumeratorEntry "GREEN" (u32 + 1) 1 refl,
          (enumerator_die-IsEnumeratorEntry "SCARLET" 0 0 refl, tt),
        ),
      )
      refl (λ h. omega arith) (omega arith)
