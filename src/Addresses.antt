-- ===== src/Addresses.antt =====
-- The symbol addresses of `SymbolManager` (libdwarfparser/symbolmanager.cpp): the system map, the
-- symbols and functions of ELF files, and their reverse maps. The proofs are in the modules below.
pub mod Underscores
pub mod Names
pub mod Functions
pub mod Reverse
pub mod Containing
pub mod SystemMap
pub mod Invariant
pub mod Tests
use Prim.Native.String.{◌++◌}
use libdwarfparser.Prelude.{
  ℕ, zero, suc, String, Bool, true, false, Option, none, some, List, [], ◌∷◌, length, ◌==◌,
  if◌then◌else◌, nat_eq, string_eq,
}
use libdwarfparser.Outcome.{Outcome, ok, fail, undefined, out_of_fuel, ◌>>=◌}
use libdwarfparser.Map.{Map, find, assign}
use libdwarfparser.OrderedMap
use libdwarfparser.OrderedMap.{OrderedMap}

pub record Addresses : Type 0 where
  pub sys_map_symbols : Map String ℕ
  pub sys_map_symbols_private : Map String ℕ
  pub elf_symbol_map : Map String ℕ
  pub function_symbol_map : Map String ℕ
  pub elf_symbol_rev_map : OrderedMap String
  pub function_symbol_rev_map : OrderedMap String

abbrev pub init : Addresses
init = record {
  sys_map_symbols = [];
  sys_map_symbols_private = [];
  elf_symbol_map = [];
  function_symbol_map = [];
  elf_symbol_rev_map = [];
  function_symbol_rev_map = [];
}

-- The value at an iterator, or 0 at `end()`: how every address look-up ends.
abbrev pub address_or_zero : Option ℕ → ℕ
address_or_zero none = 0
address_or_zero (some a) = a

abbrev pub name_or_empty : Option String → String
name_or_empty none = ""
name_or_empty (some n) = n

abbrev pub found {ℓ} : {A : Type ℓ} → Option A → Bool
found none = false
found (some a) = true

unfoldable pub get_elf_symbol_address : Addresses → String → ℕ
get_elf_symbol_address s name = address_or_zero (find s.elf_symbol_map name)

unfoldable pub get_function_address : Addresses → String → ℕ
get_function_address s name = address_or_zero (find s.function_symbol_map name)

unfoldable pub get_system_map_address : Addresses → String → Bool → ℕ
get_system_map_address s name priv = elim (find s.sys_map_symbols name) [
  | some a ↦ a
  | none ↦ if priv then address_or_zero (find s.sys_map_symbols_private name) else 0
]

unfoldable pub add_sysmap_symbol : Addresses → String → ℕ → Bool → Addresses
add_sysmap_symbol s name address priv =
    if priv
    then record s { sys_map_symbols = assign s.sys_map_symbols name address }
    else record s { sys_map_symbols_private = assign s.sys_map_symbols_private name address }

-- The `while` loop of `addSymbolAddress`. `none` is its `return false`; otherwise the name and the
-- value of `duplicate` that it leaves behind.
unfoldable pub rename_symbol :
    ℕ → Map String ℕ → ℕ → Bool → String → Bool → Outcome (Option (String × Bool))
rename_symbol zero m address replace new_name duplicate = fail out_of_fuel
rename_symbol (suc fuel) m address replace new_name duplicate = elim (find m new_name) [
  | none ↦ ok (some (new_name, duplicate))
  | some known ↦
      if known == address
      then ok none
      else if replace
      then ok (some (new_name, true))
      else rename_symbol fuel m address replace (new_name ++ "_") true
]

-- The assignment that ends `addSymbolAddress`, and what it returns.
unfoldable pub finish_symbol : Addresses → ℕ → Option (String × Bool) → Bool × Addresses
finish_symbol s address none = (false, s)
finish_symbol s address (some (new_name, duplicate)) =
    (duplicate, record s { elf_symbol_map = assign s.elf_symbol_map new_name address })

unfoldable pub add_symbol_address : Addresses → String → ℕ → Bool → Outcome (Bool × Addresses)
unfolding rename_symbol finish_symbol
add_symbol_address s name address replace = do
  target ← rename_symbol (suc (length s.elf_symbol_map)) s.elf_symbol_map address replace name false
  ok (finish_symbol s address target)

-- The `while` loop of `addFunctionAddress`.
unfoldable pub free_name : ℕ → Map String ℕ → String → Outcome String
free_name zero m new_name = fail out_of_fuel
free_name (suc fuel) m new_name = elim (find m new_name) [
  | none ↦ ok new_name
  | some _ ↦ free_name fuel m (new_name ++ "_")
]

unfoldable pub add_function_address : Addresses → String → ℕ → Outcome Addresses
unfolding free_name
add_function_address s name address = do
  new_name ← free_name (suc (length s.function_symbol_map)) s.function_symbol_map name
  ok (record s { function_symbol_map = assign s.function_symbol_map new_name address })

-- One loop of `updateRevMaps`, over the entries in the order of iteration.
unfoldable pub reverse_entries : Map String ℕ → OrderedMap String → OrderedMap String
reverse_entries [] rev = rev
reverse_entries ((name, address) ∷ m) rev = reverse_entries m (OrderedMap.assign rev address name)

unfoldable pub update_rev_maps : Addresses → Addresses
unfolding reverse_entries
update_rev_maps s = record s {
  elf_symbol_rev_map = reverse_entries s.elf_symbol_map [];
  function_symbol_rev_map = reverse_entries s.function_symbol_map [];
}

unfoldable pub get_elf_symbol_name : Addresses → ℕ → String
get_elf_symbol_name s address = name_or_empty (OrderedMap.find s.elf_symbol_rev_map address)

unfoldable pub is_symbol : Addresses → ℕ → Bool
is_symbol s address = found (OrderedMap.find s.elf_symbol_rev_map address)

unfoldable pub get_function_name : Addresses → ℕ → String
get_function_name s address = name_or_empty (OrderedMap.find s.function_symbol_rev_map address)

unfoldable pub is_function : Addresses → ℕ → Bool
is_function s address = found (OrderedMap.find s.function_symbol_rev_map address)

-- The key of the last entry before an iterator, which is decremented: undefined at `begin()`.
unfoldable pub previous_key : OrderedMap String → Outcome ℕ
previous_key [] = fail undefined
previous_key ((k, n) ∷ []) = ok k
previous_key (e ∷ e' ∷ m) = previous_key (e' ∷ m)

-- `upper_bound`, and the entry before it unless that is `end()`.
unfoldable pub get_containing_symbol : Addresses → ℕ → Outcome ℕ
unfolding previous_key
get_containing_symbol s address = elim (OrderedMap.from_upper s.elf_symbol_rev_map address) [
  | [] ↦ ok 0
  | _ ∷ _ ↦ previous_key (OrderedMap.before_upper s.elf_symbol_rev_map address)
]
