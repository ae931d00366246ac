-- ===== src/Parser/Tests.antt =====
-- Entries and what they make, on concrete values.
use libdwarfparser.Prelude.{ℕ, ◌≡◌, refl, String, some, none, [], ◌∷◌, nat_eq, string_eq, arith}
use libdwarfparser.Outcome.{ok, fail, undefined, dwarf_exception}
use libdwarfparser.Map.{find, at_or, touch}
use libdwarfparser.OrderedMap.{OrderedMap}
use libdwarfparser.OrderedMap
use libdwarfparser.Ids
use libdwarfparser.Symbols.{Symbol, ref_base_type, typedef, base_type, enumeration, plain}
use libdwarfparser.Manager.{SymbolManager, init}
use libdwarfparser.Manager.Lookup.{find_symbol_by_id}
use libdwarfparser.Parser
use libdwarfparser.Parser.{
  Form, Attribute, dlv_error, Parser, Die, Tag, dlv_ok, dlv_no_entry, form_data, form_ref4,
  get_die_attribute_number, get_die_byte_size, get_die_name, get_die_offset,
}
use libdwarfparser.Parser.Objects.{at_const_value, at_type, at_encoding, new_base_type}
use libdwarfparser.Parser.Dangling.{new_base_type-dangling}
use libdwarfparser.Manager.Destroy.{destructor}
use libdwarfparser.Parser.Init.{init_symbol_from_die}
use libdwarfparser.Parser.Known.{init_symbol_from_die-known}
use libdwarfparser.Parser.Enums.{enum_name-enum_value}
use libdwarfparser.Navigate.{enum_name, enum_value}

abbrev parser : Parser
parser = record { file_id = 1; cur_cu_offset = 0x100; indeterminate = 77 }

abbrev attribute : Form → Attribute
attribute form = record {
  form = form;
  formstring = dlv_error;
  formaddr = dlv_error;
  formflag = dlv_error;
}

-- `struct list_head` at the offset 0x2d.
abbrev list_head_die : Die
list_head_die = record {
  tag = dlv_ok Tag.structure_type;
  diename = dlv_ok "list_head";
  dieoffset = dlv_ok 0x2d;
  bytesize = dlv_ok 16;
  attributes = [];
  bitoffset = dlv_no_entry;
  attrlist = dlv_no_entry;
  tag_name = dlv_no_entry;
}

-- An enumerator of the value 5.
abbrev enumerator_die : Die
enumerator_die = record list_head_die {
  tag = dlv_ok Tag.enumerator;
  diename = dlv_ok "RED";
  attributes =
      (at_const_value, dlv_ok (attribute (form_data (dlv_ok 5))))
      ∷ (at_type, dlv_ok (attribute (form_ref4 (dlv_ok 0x2d))))
      ∷ [];
}

abbrev colours : OrderedMap String
colours = (0, "BLACK") ∷ (7, "BLUE") ∷ []

abbrev colour : Symbol
colour = record { name = "colour"; byte_size = 4; id = 1; kind = base_type 0 (enumeration colours) }

abbrev manager : SymbolManager
manager = record init { heap = record { cells = (1, colour) ∷ []; next = 2 } }

-- A reference is relative to the compilation unit.
reference_number : get_die_attribute_number parser enumerator_die at_type ≡ ok 0x12d
unfolding get_die_attribute_number find
reference_number = refl

-- The first structure of a new manager is its first object, and the second of its name is the same.
struct_once : (init_symbol_from_die parser list_head_die 0 init).0 ≡ ok 1
unfolding init_symbol_from_die get_die_byte_size find libdwarfparser.Map.assign Parser.die_has_attr
struct_once = refl

struct_again :
    (init_symbol_from_die parser
      (record list_head_die { dieoffset = dlv_ok 0x99 })
      0
      (init_symbol_from_die parser list_head_die 0 init).1).0
    ≡ ok 1
unfolding init_symbol_from_die get_die_byte_size find libdwarfparser.Map.assign Parser.die_has_attr
struct_again = refl

enum_name-enum_value_example :
    (w : ℕ) × (enum_value colours "BLUE" ≡ ok w) × (enum_name colours w ≡ ok "BLUE")
unfolding enum_name OrderedMap.find
enum_name-enum_value_example = enum_name-enum_value colours 7 "BLUE" (omega arith, tt) refl

-- A manager that knows the typedef `u32` of the entry at 0x2d.
abbrev known_typedef_of_u32 : Symbol
known_typedef_of_u32 = record {
  name = "u32";
  byte_size = 4;
  id = 1;
  kind = base_type 0 (ref_base_type (record { type = some 0; base = none }) typedef);
}

abbrev knowing : SymbolManager
knowing = record init {
  heap = record { cells = (1, known_typedef_of_u32) ∷ []; next = 2 };
  ids = (Ids.get_id Ids.init (0x2d, 1)).1;
  symbol_id_map = (1, 1) ∷ [];
  ref_base_type_name_map = ("u32", 1) ∷ [];
}

abbrev typedef_die : Die
typedef_die = record list_head_die {
  tag = dlv_ok Tag.typedef;
  diename = dlv_ok "u32";
  dieoffset = dlv_ok 0x99;
}

init_symbol_from_die-known_example :
    ((init_symbol_from_die parser typedef_die 0 knowing).0 ≡ ok 1)
    × (find_symbol_by_id
          (Ids.get_id knowing.ids (0x99, 1)).0
          (init_symbol_from_die parser typedef_die 0 knowing).1
        ≡ (ok 1, (init_symbol_from_die parser typedef_die 0 knowing).1))
    × ((init_symbol_from_die parser typedef_die 0 knowing).1.heap ≡ knowing.heap)
unfolding get_die_name get_die_offset find Ids.get_id at_or touch libdwarfparser.Map.assign
init_symbol_from_die-known_example =
    init_symbol_from_die-known parser typedef_die 0 1 "u32" knowing known_typedef_of_u32 0x99 refl
      refl refl refl refl refl ((known_typedef_of_u32, refl, refl), tt) refl refl

-- A base type whose encoding libdwarf says is there and does not give.
abbrev broken_die : Die
broken_die = record list_head_die {
  tag = dlv_ok Tag.base_type;
  attributes = (at_encoding, dlv_error) ∷ [];
}

new_base_type-dangling_example :
    ((new_base_type parser broken_die "int" plain init).0
      ≡ fail (dwarf_exception "Error in dwarf_attr\n"))
    × (find
          (new_base_type parser broken_die "int" plain init).1.symbol_id_map
          (Ids.get_id Ids.init (0x2d, 1)).0
        ≡ some 1)
    × (find (new_base_type parser broken_die "int" plain init).1.heap.cells 1 ≡ none)
    × ((destructor (new_base_type parser broken_die "int" plain init).1).0 ≡ fail undefined)
unfolding get_die_byte_size get_die_offset Parser.die_has_attr get_die_attribute_number find
new_base_type-dangling_example =
    new_base_type-dangling parser broken_die "int" "Error in dwarf_attr\n" plain init 16 0x2d refl
      refl refl refl
