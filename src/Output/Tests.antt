-- ===== src/Output/Tests.antt =====
-- What is printed of a union with two members, which are both at its start.
use libdwarfparser.Prelude.{ℕ, ◌≡◌, refl, String, some, none, List, [], ◌∷◌, ◌++◌, nat_eq}
use libdwarfparser.Outcome.{ok}
use libdwarfparser.OrderedMap.{OrderedMap, find, IsAscending}
use libdwarfparser.Symbols.{Symbol, Pointer, base_type, member, structured, union}
use libdwarfparser.Manager.{SymbolManager, init}
use libdwarfparser.Output.{Line, text, hex, dec}
use libdwarfparser.Output.Print.{member_lines, print_base_type, print_structured}
use libdwarfparser.Output.Members.{last_name, print_structured-last_name}

abbrev member_symbol : String → ℕ → Symbol
member_symbol name id = record {
  name = name;
  byte_size = 4;
  id = id;
  kind =
      member (record { type = some 9; base = none })
        (record { bit_size = 0; bit_offset = 0; member_location = 0; parent = 1 });
}

abbrev members : List (String × Pointer)
members = ("a", 2) ∷ ("b", 3) ∷ []

abbrev union_symbol : Symbol
union_symbol = record {
  name = "u";
  byte_size = 4;
  id = 1;
  kind = base_type 0 (structured union members);
}

abbrev manager : SymbolManager
manager = record init {
  heap = record {
    cells = (1, union_symbol) ∷ (2, member_symbol "a" 2) ∷ (3, member_symbol "b" 3) ∷ [];
    next = 4;
  };
}

print_structured-last_name_example :
    (names : OrderedMap String) × (lines : List Line) × (m' : SymbolManager) × (print_base_type
        union_symbol 0 manager
      ≡ (ok lines, m'))
    × (print_structured union_symbol 0 members manager
        ≡ (ok (lines ++ ((text "\t Members:      " ∷ []) ∷ member_lines names)), m'))
    × IsAscending names
    × ((location : ℕ) → find names location ≡ last_name manager members location)
unfolding libdwarfparser.Navigate.location_of libdwarfparser.Map.find
print_structured-last_name_example =
    print_structured-last_name manager union_symbol 0 members ((0, refl), ((0, refl), tt))

-- The line of `a` is lost.
union_lines :
    (print_structured union_symbol 0 members manager).0
    ≡ ok (
        (text "Symbolname:      " ∷ text "u" ∷ [])
        ∷ (text "\t ID:           " ∷ hex 1 ∷ [])
        ∷ (text "\t Dwarf ID:     " ∷ hex 0 ∷ [])
        ∷ (text "\t Dwarf File:   " ∷ hex 0 ∷ [])
        ∷ (text "\t Bytesize:     " ∷ dec 4 ∷ [])
        ∷ (text "\t BaseType:" ∷ [])
        ∷ (text "\t Encoding:     " ∷ dec 0 ∷ [])
        ∷ (text "\t Members:      " ∷ [])
        ∷ (text "\t\t 0x" ∷ hex 0 ∷ text "\t" ∷ text "b" ∷ [])
        ∷ [])
unfolding print_structured libdwarfparser.Navigate.location_of libdwarfparser.Map.find
    libdwarfparser.Ids.get_rev_id libdwarfparser.OrderedMap.assign libdwarfparser.Map.at_or
union_lines = refl
