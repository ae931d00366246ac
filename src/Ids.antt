-- ===== src/Ids.antt =====
-- The identifier namespace of `SymbolManager` (libdwarfparser/symbolmanager.cpp): `getID` and
-- `getRevID` over `idMap`, `idRevMap` and `currentID`.
pub mod Consistency
pub mod History
pub mod Numbered
pub mod Tests
use libdwarfparser.Prelude.{ℕ, ◌+◌, ◌%◌, ◌^◌, List, [], ◌∷◌, ◌==◌, if◌then◌else◌, nat_eq, pair_eq}
use libdwarfparser.Map.{Map, find, assign, at_or, touch}

-- A DWARF offset and the number of the file that it stands in.
abbrev pub DwarfId : Type 0
DwarfId = ℕ × ℕ

abbrev pub u64 : ℕ
u64 = 2 ^ 64

pub record Ids : Type 0 where
  pub id_map : Map DwarfId ℕ
  pub id_rev_map : Map ℕ DwarfId
  pub current_id : ℕ

abbrev pub init : Ids
init = record { id_map = []; id_rev_map = []; current_id = 0 }

-- `std::make_pair` of two zeros, the value that `idRevMap[id]` creates.
abbrev pub no_dwarf_id : DwarfId
no_dwarf_id = (0, 0)

issue : Ids → DwarfId → ℕ → ℕ × Ids
issue s pair new_id = (
  new_id,
  record {
    id_map = assign s.id_map pair new_id;
    id_rev_map = assign s.id_rev_map new_id pair;
    current_id = new_id;
  },
)

-- The test `idMap[pair] == 0` itself inserts a zero for a pair that is not there.
unfoldable pub get_id : Ids → DwarfId → ℕ × Ids
unfolding issue
get_id s pair =
    let s' : Ids = record s { id_map = touch s.id_map pair 0 } in
    let known = at_or s.id_map pair 0 in
    if known == 0 then issue s' pair ((s.current_id + 1) % u64) else (known, s')

unfoldable pub get_rev_id : Ids → ℕ → DwarfId × Ids
get_rev_id s id =
    (at_or s.id_rev_map id no_dwarf_id, record s { id_rev_map = touch s.id_rev_map id no_dwarf_id })

-- A use of the namespace by any of its clients.
pub data Call : Type 0 where
  get_id_of : DwarfId → Call
  get_rev_id_of : ℕ → Call

pub step : Ids → Call → Ids
step s (get_id_of pair) = (get_id s pair).1
step s (get_rev_id_of id) = (get_rev_id s id).1

pub run : Ids → List Call → Ids
run s [] = s
run s (c ∷ cs) = run (step s c) cs
