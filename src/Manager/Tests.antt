-- ===== src/Manager/Tests.antt =====
-- A manager with a few symbols, and the theorems about its look-ups.
use libdwarfparser.Prelude.{
  ℕ, ◌≡◌, refl, false, none, some, [], ◌∷◌, ◌==◌, if◌then◌else◌, nat_eq, string_eq,
}
use libdwarfparser.Outcome.{ok, fail, assertion, undefined}
use libdwarfparser.Map.{find, at_or}
use libdwarfparser.Addresses.{get_system_map_address, get_elf_symbol_address, get_function_address}
use libdwarfparser.Symbols.{Symbol, base_type, plain, ref_base_type, array}
use libdwarfparser.Manager.{SymbolManager, init}
use libdwarfparser.Manager.Lookup.{find_symbol_by_id, remove_symbol}
use libdwarfparser.Manager.Find.{
  IsIndexed, resolve, find_symbol_by_id-resolved, find_symbol_by_id-unresolved,
}
use libdwarfparser.Manager.Aliases.{remove_symbol_lem}
use libdwarfparser.Manager.Names.{
  function_address, variable_location, find_function_by_name, find_variable_by_name,
  get_symbol_address, system_map, modules, functions, dwarf_function, dwarf_variable,
}
use libdwarfparser.Manager.Destroy.{destructor, destructor-dangling}
use libdwarfparser.Manager.Sources.{first_address, get_symbol_address-first}

abbrev int_type : Symbol
int_type = record { name = "int"; byte_size = 4; id = 1; kind = base_type 5 plain }

abbrev array_of : ℕ → ℕ → ℕ → Symbol
array_of id type length = record {
  name = "";
  byte_size = 8;
  id = id;
  kind = base_type 0 (
      ref_base_type (record { type = some type; base = none })
        (array (record { length = length; length_type = 0 })));
}

-- `int` under the identifier 1, and 2 as its alias; arrays of the types 1 and 5.
abbrev manager : SymbolManager
manager = record init {
  heap = record {
    cells = (1, int_type) ∷ (2, array_of 3 1 10) ∷ (3, array_of 4 5 20) ∷ [];
    next = 4;
  };
  symbol_id_map = (1, 1) ∷ (3, 2) ∷ (4, 3) ∷ [];
  symbol_id_alias_map = (2, 1) ∷ [];
  symbol_id_alias_reverse_list = (1, 2 ∷ []) ∷ [];
  array_type_map = (1, 2) ∷ (5, 3) ∷ [];
}

manager-IsIndexed : IsIndexed manager
unfolding find
manager-IsIndexed =
    ((int_type, refl, refl), ((array_of 3 1 10, refl, refl), ((array_of 4 5 20, refl, refl), tt)))

find_symbol_by_id-resolved_example : find_symbol_by_id 2 manager ≡ (ok 1, manager)
unfolding resolve find
find_symbol_by_id-resolved_example = find_symbol_by_id-resolved manager 2 1 manager-IsIndexed refl

-- The identifier 9 was never entered.
find_symbol_by_id-unresolved_example : (find_symbol_by_id 9 manager).0 ≡ fail assertion
unfolding resolve find
find_symbol_by_id-unresolved_example = find_symbol_by_id-unresolved manager 9 manager-IsIndexed refl

remove_symbol_lem_example :
    ((remove_symbol 3 manager).0 ≡ ok tt)
    × ((j : ℕ)
        → find (remove_symbol 3 manager).1.symbol_id_map j
          ≡ (if 3 == j then none else find manager.symbol_id_map j))
    × IsIndexed (remove_symbol 3 manager).1
unfolding find at_or
remove_symbol_lem_example = remove_symbol_lem manager 3 manager-IsIndexed

get_symbol_address-first_example : get_symbol_address "jiffies" 31 manager ≡ (
  ok (
      first_address 31 (
        (system_map, get_system_map_address manager.addresses "jiffies" false)
        ∷ (modules, get_elf_symbol_address manager.addresses "jiffies")
        ∷ (functions, get_function_address manager.addresses "jiffies")
        ∷ (dwarf_function, 0)
        ∷ (dwarf_variable, 0)
        ∷ [])),
  manager,
)
unfolding function_address variable_location find_function_by_name find_variable_by_name find
get_symbol_address-first_example = get_symbol_address-first manager "jiffies" 31 0 0 refl refl

-- The object of the array 3 was deleted and its entry stays.
destructor-dangling_example :
    (destructor (record manager { heap = record manager.heap { cells = (1, int_type) ∷ [] } })).0
    ≡ fail undefined
unfolding find
destructor-dangling_example =
    destructor-dangling
      (record manager { heap = record manager.heap { cells = (1, int_type) ∷ [] } }) 3 2 refl refl
