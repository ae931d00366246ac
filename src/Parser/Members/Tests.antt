-- ===== src/Parser/Members/Tests.antt =====
-- A structure with the members `next`, `prev` and again `next`.
use libdwarfparser.Prelude.{
  ℕ, ◌≡◌, refl, arith, String, List, [], ◌∷◌, ◌==◌, ◌%◌, ◌+◌, nat_eq, string_eq, if◌then◌else◌, inl,
  inr,
}
use libdwarfparser.Outcome.{ok}
use libdwarfparser.Map.{find}
use libdwarfparser.Manager.{SymbolManager, init}
use libdwarfparser.Manager.Names.{find_class_by_name}
use libdwarfparser.Parser.{
  Parser, Die, Tag, die_has_attr, get_die_attribute_number, Attribute, Answer, dlv_ok, dlv_no_entry,
  form_data,
}
use libdwarfparser.Parser.Objects.{at_type, at_data_member_location, u32}
use libdwarfparser.Symbols.{struct}
use libdwarfparser.Parser.Walk.{Debug}
use libdwarfparser.Parser.Walk.Preorder.{entry, empty, visit}
use libdwarfparser.Parser.Members.Finds.{Finds}
use libdwarfparser.Parser.Members.Reading.{visit-structure}
use libdwarfparser.Parser.Made.{siblings}
use libdwarfparser.Parser.Members.Structures.{first_location, IsMemberEntry}

abbrev parser : Parser
parser = record { file_id = 1; cur_cu_offset = 0; indeterminate = 77 }

abbrev numbered : ℕ → Answer Attribute
numbered n = dlv_ok (record {
  form = form_data (dlv_ok n);
  formstring = dlv_no_entry;
  formaddr = dlv_no_entry;
  formflag = dlv_no_entry;
})

abbrev list_head : Die
list_head = record {
  tag = dlv_ok Tag.structure_type;
  diename = dlv_ok "list_head";
  dieoffset = dlv_ok 0x20;
  bytesize = dlv_ok 24;
  attributes = [];
  bitoffset = dlv_no_entry;
  attrlist = dlv_no_entry;
  tag_name = dlv_no_entry;
}

abbrev member_die : ℕ → String → ℕ → Die
member_die h name location = record list_head {
  tag = dlv_ok Tag.member;
  diename = dlv_ok name;
  dieoffset = dlv_ok (0x20 + h);
  attributes = (at_type, numbered 0x99) ∷ (at_data_member_location, numbered location) ∷ [];
}

abbrev debug : Debug
debug = record {
  die = λ h.
      if h == 0
      then list_head
      else if h == 1
      then member_die 1 "next" 0
      else if h == 2
      then member_die 2 "prev" 8
      else member_die 3 "next" 16;
  child = λ h. dlv_no_entry;
  sibling = λ h. dlv_no_entry;
  next_cu_header = λ k. dlv_no_entry;
  cu_die = λ k. dlv_no_entry;
}

abbrev members : List (String × ℕ)
members = ("next", 0) ∷ ("prev", 8) ∷ ("next", 16) ∷ []

-- The location is one of 32 bits.
member_die-IsMemberEntry :
    (h : ℕ) (name : String) (location : ℕ)
    → location % u32 ≡ location
    → IsMemberEntry parser (member_die h name location) name location
unfolding find die_has_attr get_die_attribute_number libdwarfparser.Parser.get_die_byte_size
    libdwarfparser.Parser.get_die_offset libdwarfparser.Parser.get_die_name
member_die-IsMemberEntry h name location small = record {
  tagged = refl;
  named = refl;
  given = record {
    size = 24;
    sized = refl;
    offset = 0x20 + h;
    placed = refl;
    type = 0x99;
    typed = refl;
    type_given = refl;
    bits = 0;
    bits_given = inl refl;
    bit_start = 0;
    bit_start_given = inl refl;
    location = location;
    location_given = inr refl;
  };
  placed = small;
}

visit-structure_example :
    (m' : SymbolManager) × (visit debug parser (entry 0 (siblings (1 ∷ 2 ∷ 3 ∷ [])) empty) 0 init
      ≡ (ok tt, m'))
    × ((x : String) → Finds m' 1 x (first_location members x))
unfolding find find_class_by_name libdwarfparser.Parser.get_die_name
    libdwarfparser.Parser.get_die_byte_size libdwarfparser.Parser.get_die_offset die_has_attr
    libdwarfparser.Manager.Names.equal_range
visit-structure_example =
    visit-structure debug parser struct 0 (1 ∷ 2 ∷ 3 ∷ []) "list_head" members 0 init
      (record {
        tagged = refl;
        named = refl;
        size = 24;
        sized = refl;
        offset = 0x20;
        placed = refl;
        plain = refl;
      })
      (
        member_die-IsMemberEntry 1 "next" 0 refl,
        (member_die-IsMemberEntry 2 "prev" 8 refl, (member_die-IsMemberEntry 3 "next" 16 refl, tt)),
      )
      refl tt (λ h. omega arith) (omega arith)
