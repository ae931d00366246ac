-- ===== src/Navigate/Tests.antt =====
-- Types and members, on concrete values.
use libdwarfparser.Prelude.{
  ℕ, ◌≡◌, refl, true, false, String, Option, some, none, List, [], ◌∷◌, arith, ◌==◌, nat_eq,
  if◌then◌else◌,
}
use libdwarfparser.Outcome.{Outcome, ok, fail, undefined}
use libdwarfparser.Map.{find}
use libdwarfparser.Symbols.{
  pointer, array, as_base_type, as_function, function, FunctionData, Symbol, Pointer, RefKind,
  base_type, plain, member, structured, struct, ref_base_type, typedef, const_type, as_structured,
}
use libdwarfparser.Manager.{SymbolManager, init}
use libdwarfparser.Manager.Names.{equal_range}
use libdwarfparser.Manager.Lookup.{find_base_type_by_id}
use libdwarfparser.Navigate.{location_of, member_by_offset}
use libdwarfparser.Navigate.Params.{
  get_full_param_list, get_param_by_name, first_named, get_param_by_name-full,
}
use libdwarfparser.Navigate.Members.{IsNearest, member_by_offset-IsNearest}
use libdwarfparser.Navigate.Containers.{structure, member_symbol, change_base_type-member}
use libdwarfparser.Navigate.Strides.{array_elem-pointers}
use libdwarfparser.Navigate.Instances.{Instance, change_base_type, instance_member, array_elem}

abbrev symbol : String → ℕ → Symbol
symbol name id = record { name = name; byte_size = 16; id = id; kind = base_type 0 plain }

abbrev member_at : ℕ → ℕ → Symbol
member_at id location = record (symbol "m" id) {
  kind =
      member (record { type = some 1; base = none })
        (record { bit_size = 0; bit_offset = 0; member_location = location; parent = 2 });
}

abbrev reference_to : ℕ → Pointer → RefKind → Symbol
reference_to id b k = record (symbol "r" id) {
  kind = base_type 0 (ref_base_type (record { type = some 1; base = some b }) k);
}

abbrev members : List (String × Pointer)
members = ("next", 3) ∷ ("prev", 4) ∷ []

abbrev list_head : Symbol
list_head = record (symbol "list_head" 2) { kind = base_type 0 (structured struct members) }

-- A plain type, a structure with members at 0 and 8, a typedef of the structure and a constant of
-- that.
abbrev manager : SymbolManager
manager = record init {
  heap = record {
    cells =
        (1, symbol "int" 1)
        ∷ (2, list_head)
        ∷ (3, member_at 3 0)
        ∷ (4, member_at 4 8)
        ∷ (5, reference_to 5 2 typedef)
        ∷ (6, reference_to 6 5 const_type)
        ∷ [];
    next = 7;
  };
}

abbrev loc : Pointer → ℕ
loc q = if q == 4 then 8 else 0

member_by_offset-IsNearest_example :
    (o : Option Pointer) × (member_by_offset 2 12 manager ≡ (ok o, manager))
    × IsNearest manager loc 12 o members
unfolding find as_structured location_of
member_by_offset-IsNearest_example =
    member_by_offset-IsNearest manager loc 2 list_head members 12 refl refl (refl, (refl, tt))

second_member : (member_by_offset 2 12 manager).0 ≡ ok (some 4)
unfolding member_by_offset find as_structured location_of
second_member = refl

-- A `task` with an `int` at 0 and a list at 8, and an array of two pointers to `int`.
abbrev list_member : Symbol
list_member =
    member_symbol "list" 16 8 none 2
      (record { bit_size = 0; bit_offset = 0; member_location = 8; parent = 7 })

abbrev tasks : SymbolManager
tasks = record init {
  heap = record {
    cells =
        (1, symbol "int" 1)
        ∷ (2, list_head)
        ∷ (7, structure "task" 24 7 0 struct (("list", 8) ∷ []))
        ∷ (8, list_member)
        ∷ (9, reference_to 9 1 pointer)
        ∷ (10, reference_to 10 9 (array (record { length = 2; length_type = 0 })))
        ∷ [];
    next = 11;
  };
  symbol_id_map = (2, 2) ∷ [];
  base_type_name_map = ("task", 7) ∷ [];
}

abbrev unmapped : ℕ → Outcome ℕ
unmapped a = fail undefined

change_base_type-member_example :
    (c : Instance) × (m' : SymbolManager) × (change_base_type
        (record { type = 2; address = 0x1008 })
        "task"
        "list"
        tasks
      ≡ (ok c, tasks))
    × (c.type ≡ 7)
    × (instance_member unmapped 3 c "list" false false tasks
        ≡ (ok (record { type = 2; address = 0x1008 }), m'))
unfolding find equal_range find_base_type_by_id as_base_type
change_base_type-member_example =
    change_base_type-member tasks (record { type = 2; address = 0x1008 }) "task" "list" 7 8 2
      list_head list_head "task" 24 7 0 struct (("list", 8) ∷ []) "list" 16 8 none 2
      (record { bit_size = 0; bit_offset = 0; member_location = 8; parent = 7 }) refl refl refl
      (omega arith) refl refl (omega arith) refl refl refl unmapped 2 (omega arith) (omega arith)
      (omega arith) (omega arith)

array_elem-pointers_example :
    array_elem 2 (record { type = 10; address = 0x2000 }) 1 tasks
    ≡ (ok (record { type = 9; address = 0x2010 }), tasks)
unfolding find
array_elem-pointers_example =
    array_elem-pointers tasks (record { type = 10; address = 0x2000 }) 9 1
      (reference_to 10 9 (array (record { length = 2; length_type = 0 })))
      (reference_to 9 1 pointer) (symbol "int" 1) 0 0 0 (record { type = some 1; base = some 9 })
      (record { type = some 1; base = some 1 }) (record { length = 2; length_type = 0 }) refl refl
      refl refl refl refl refl refl 1 (omega arith) (omega arith) (omega arith)

-- A function of two parameters of the same name.
abbrev two_params : FunctionData
two_params = record {
  rettype = 1;
  address = 0x100;
  param_list = ("a", 1) ∷ ("a", 2) ∷ [];
  params_final = true;
}

abbrev calls : SymbolManager
calls = record init {
  heap = record {
    cells =
        (1, symbol "int" 1)
        ∷ (2, list_head)
        ∷ (3, record (symbol "f" 3) { kind = base_type 0 (function two_params) })
        ∷ [];
    next = 4;
  };
  symbol_id_map = (1, 1) ∷ (2, 2) ∷ [];
}

get_param_by_name-full_example :
    (full : List (String × Pointer)) × (get_full_param_list 3 calls ≡ (ok full, calls))
    × ((name : String) → get_param_by_name 3 name calls ≡ (ok (first_named name full), calls))
unfolding find as_function
get_param_by_name-full_example =
    get_param_by_name-full calls 3
      (record (symbol "f" 3) { kind = base_type 0 (function two_params) }) two_params refl refl
      (
        (1, symbol "int" 1, 0, plain, refl, refl, refl),
        ((2, list_head, 0, structured struct members, refl, refl, refl), tt),
      )
