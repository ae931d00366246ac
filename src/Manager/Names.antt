-- ===== src/Manager/Names.antt =====
-- The look-ups of `SymbolManager` by name and by element type, and `getSymbolAddress`
-- (libdwarfparser/symbolmanager.cpp and .h).
use Prim.Native.Nat.{bit_and}
use libdwarfparser.Prelude.{
  ℕ, String, Bool, true, false, not, Option, none, some, List, [], ◌∷◌, map, ◌==◌, if◌then◌else◌,
  nat_eq, string_eq,
}
use libdwarfparser.Outcome.{undefined}
use libdwarfparser.Map.{find}
use libdwarfparser.Addresses.{get_system_map_address, get_elf_symbol_address, get_function_address}
use libdwarfparser.Symbols.{Kind, Pointer, as_function, as_array, as_variable}
use libdwarfparser.Manager.{Multimap, Method, pure, raise, ◌>>=◌, get, deref}
use libdwarfparser.Manager.Lookup.{get_aliases}

-- `m.equal_range(name)`
unfoldable pub equal_range : Multimap String → String → List Pointer
equal_range [] name = []
equal_range ((n, p) ∷ m) name =
    let rest = equal_range m name in if n == name then p ∷ rest else rest

-- The loop of `findBaseTypeByName<T>`.
unfoldable pub first_of_class : (Kind → Bool) → List Pointer → Method (Option Pointer)
unfolding deref
first_of_class cast [] = pure none
first_of_class cast (p ∷ ps) =
    deref p >>= λ s. elim (cast s.kind) [ true ↦ pure (some p) | false ↦ first_of_class cast ps ]

unfoldable pub find_class_by_name : (Kind → Bool) → String → Method (Option Pointer)
unfolding equal_range first_of_class
find_class_by_name cast name = do
  m ← get
  first_of_class cast (equal_range m.base_type_name_map name)

abbrev pub head_of : List Pointer → Option Pointer
head_of [] = none
head_of (p ∷ ps) = some p

-- `baseTypeNameMap.find(name)`
unfoldable pub find_base_type_by_name : String → Method (Option Pointer)
unfolding equal_range
find_base_type_by_name name = do m ← get; pure (head_of (equal_range m.base_type_name_map name))

-- The loop of `findSymbolByName<T>` assigns to a variable of its own: the result is null.
unfoldable pub find_symbol_by_name : (Kind → Bool) → String → Method (Option Pointer)
unfolding equal_range first_of_class
find_symbol_by_name cast name = do
  m ← get
  t ← first_of_class cast (equal_range m.symbol_name_map name)
  pure none

unfoldable pub find_function_by_name : String → Method (Option Pointer)
find_function_by_name name = do m ← get; pure (find m.function_name_map name)

unfoldable pub find_ref_base_type_by_name : String → Method (Option Pointer)
find_ref_base_type_by_name name = do m ← get; pure (find m.ref_base_type_name_map name)

unfoldable pub find_variable_by_name : String → Method (Option Pointer)
find_variable_by_name name = do m ← get; pure (find m.variable_name_map name)

-- `arrayTypeMap.find(id)`: the entries from the first with that key to the end of the map.
unfoldable pub from_key : Multimap ℕ → ℕ → List Pointer
from_key [] id = []
from_key ((k, p) ∷ m) id =
    let rest = from_key m id in if k == id then p ∷ map (λ e. e.1) m else rest

-- A loop of `findArrayByTypeID`: the first array of a length, from an iterator to the end.
unfoldable pub find_of_length : ℕ → List Pointer → Method (Option Pointer)
unfolding deref as_array
find_of_length length [] = pure none
find_of_length length (p ∷ ps) = deref p >>= λ s. elim (as_array s.kind) [
  | none ↦ raise undefined
  | some (r, a) ↦ elim (a.length == length) [
    | true ↦ pure (some p)
    | false ↦ find_of_length length ps
  ]
]

unfoldable pub find_of_aliases : ℕ → List ℕ → Method (Option Pointer)
unfolding from_key find_of_length
find_of_aliases length [] = pure none
find_of_aliases length (i ∷ is) = get >>= λ m.
    find_of_length length (from_key m.array_type_map i) >>= λ r. elim r [
      | some p ↦ pure (some p)
      | none ↦ find_of_aliases length is
    ]

unfoldable pub find_array_by_type_id : ℕ → ℕ → Method (Option Pointer)
unfolding from_key find_of_length get_aliases find_of_aliases
find_array_by_type_id id length = get >>= λ m.
    find_of_length length (from_key m.array_type_map id) >>= λ r. elim r [
      | some p ↦ pure (some p)
      | none ↦ get_aliases id >>= find_of_aliases length
    ]

-- The bits of `symbol_source`.
abbrev pub system_map : ℕ
system_map = 1

abbrev pub modules : ℕ
modules = 2

abbrev pub functions : ℕ
functions = 4

abbrev pub dwarf_function : ℕ
dwarf_function = 8

abbrev pub dwarf_variable : ℕ
dwarf_variable = 16

abbrev pub enum_bit_test : ℕ → ℕ → Bool
enum_bit_test src source = not (bit_and src source == 0)

-- `func->getAddress()` for the function of a name, 0 without one.
unfoldable pub function_address : String → Method ℕ
unfolding find_function_by_name deref as_function
function_address name = find_function_by_name name >>= λ o. elim o [
  | none ↦ pure 0
  | some p ↦ deref p >>= λ s. elim (as_function s.kind) [
    | none ↦ raise undefined
    | some f ↦ pure f.address
  ]
]

-- `var->getLocation()` for the variable of a name, 0 without one.
unfoldable pub variable_location : String → Method ℕ
unfolding find_variable_by_name deref as_variable
variable_location name = find_variable_by_name name >>= λ o. elim o [
  | none ↦ pure 0
  | some p ↦ deref p >>= λ s. elim (as_variable s.kind) [
    | none ↦ raise undefined
    | some (r, location) ↦ pure location
  ]
]

-- One source: its address if the source is asked for and has one, and the next source if not.
abbrev pub try_source : Bool → Method ℕ → Method ℕ → Method ℕ
try_source asked source next =
    if asked then (source >>= λ address. if address == 0 then next else pure address) else next

unfoldable pub get_symbol_address : String → ℕ → Method ℕ
unfolding get_system_map_address get_elf_symbol_address get_function_address function_address
    variable_location
get_symbol_address name src = get >>= λ m.
    try_source (enum_bit_test src system_map) (pure (get_system_map_address m.addresses name false))
      (try_source (enum_bit_test src modules) (pure (get_elf_symbol_address m.addresses name)) (
        try_source (enum_bit_test src functions) (pure (get_function_address m.addresses name)) (
          try_source (enum_bit_test src dwarf_function) (function_address name)
            (try_source (enum_bit_test src dwarf_variable) (variable_location name) (pure 0)))))
