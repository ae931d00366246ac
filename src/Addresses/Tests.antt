-- ===== src/Addresses/Tests.antt =====
-- Small symbol tables, and the theorems about the address component at them.
use libdwarfparser.Prelude.{◌≡◌, refl, Bool, true, false, [], ◌∷◌, arith, nat_eq, string_eq}
use libdwarfparser.Outcome.{Outcome, ok}
use libdwarfparser.Map.{find, assign}
use libdwarfparser.Addresses.{
  Addresses, add_symbol_address, add_sysmap_symbol, get_system_map_address, update_rev_maps,
  get_containing_symbol, is_symbol, get_elf_symbol_name, is_function, get_function_name,
}
use libdwarfparser.Addresses.SystemMap.{add_sysmap_symbol_swapped}
use libdwarfparser.Addresses.Reverse.{Reverses, update_rev_maps-Reverses}
use libdwarfparser.Addresses.Containing.{containing, get_containing_symbol-eq-containing}
use libdwarfparser.OrderedMap.{from_upper, before_upper}

abbrev empty : Addresses
empty = record {
  sys_map_symbols = [];
  sys_map_symbols_private = [];
  elf_symbol_map = [];
  function_symbol_map = [];
  elf_symbol_rev_map = [];
  function_symbol_rev_map = [];
}

abbrev table : Addresses
table = record empty {
  elf_symbol_map = ("init", 0x100) ∷ ("exit", 0x200) ∷ [];
  function_symbol_map = ("start", 0x100) ∷ [];
  elf_symbol_rev_map = (0x100, "init") ∷ (0x200, "exit") ∷ [];
}

renamed : Outcome (Bool × Addresses)
renamed = add_symbol_address table "init" 0x300 false

renamed_adds :
    renamed
    ≡ ok (
      true,
      record table { elf_symbol_map = ("init", 0x100) ∷ ("exit", 0x200) ∷ ("init_", 0x300) ∷ [] },
    )
unfolding renamed add_symbol_address find assign
renamed_adds = refl

add_sysmap_symbol_swapped_example :
    (get_system_map_address (add_sysmap_symbol table "jiffies" 0x500 true) "jiffies" false ≡ 0x500)
    × (get_system_map_address (add_sysmap_symbol table "jiffies" 0x500 false) "jiffies" false ≡ 0)
    × (get_system_map_address (add_sysmap_symbol table "jiffies" 0x500 false) "jiffies" true
        ≡ 0x500)
unfolding find
add_sysmap_symbol_swapped_example = add_sysmap_symbol_swapped table "jiffies" 0x500 refl

update_rev_maps-Reverses_example :
    Reverses table.elf_symbol_map
      (is_symbol (update_rev_maps table))
      (get_elf_symbol_name (update_rev_maps table))
    × Reverses table.function_symbol_map
        (is_function (update_rev_maps table))
        (get_function_name (update_rev_maps table))
unfolding find
update_rev_maps-Reverses_example = update_rev_maps-Reverses table (refl, (refl, tt)) (refl, tt)

get_containing_symbol-eq-containing_example :
    get_containing_symbol table 0x180 ≡ containing table.elf_symbol_rev_map 0x180
get_containing_symbol-eq-containing_example =
    get_containing_symbol-eq-containing table 0x180 (omega arith, tt)

contains : get_containing_symbol table 0x180 ≡ ok 0x100
unfolding get_containing_symbol from_upper before_upper
contains = refl
