-- ===== src/Parser/Walk/Tests.antt =====
-- The walk over one unit with a structure in it.
use libdwarfparser.Prelude.{
  true, false, ℕ, ◌+◌, ◌≡◌, refl, String, [], ◌∷◌, ◌==◌, nat_eq, string_eq, if◌then◌else◌, arith,
  inl, inr, Option, some, none, List, length, ◌<◌,
}
use libdwarfparser.Outcome.{ok}
use libdwarfparser.Map.{find}
use libdwarfparser.Manager.{init}
use libdwarfparser.Ids.{u64}
use libdwarfparser.Ids.Numbered.{init-IsNumbered}
use libdwarfparser.Manager.Destroy.{destructor}
use libdwarfparser.Manager.Sound.{IsSound, init-IsSound}
use libdwarfparser.Parser.{Parser, Die, Tag, dlv_ok, dlv_no_entry}
use libdwarfparser.Parser.Walk.{Debug, read_cu_list}
use libdwarfparser.Parser.Walk.Preorder.{
  empty, entry, CompileUnit, visit_units, read_cu_list-eq-visit_units,
}
use libdwarfparser.Parser.Sound.Entries.{read_cu_list-IsSound}
use libdwarfparser.Parser.Resolved.Files.{IsFound, AllUnits, read_cu_list-resolves}
use libdwarfparser.Parser.Returns.{IsPlain}
use libdwarfparser.Parser.Returns.Units.{read_cu_list-returns}
use libdwarfparser.Parser.Files.{File, parse_files, parse_dwarf_from_fd, new_parser}
use libdwarfparser.Parser.Descriptors.{parse_filename, parse_filenames, parse_filenames-refused_fds}
use libdwarfparser.Parser.Sound.Lifetime.{started, destructor-parse_files}

abbrev parser : Parser
parser = record { file_id = 1; cur_cu_offset = 0; indeterminate = 77 }

abbrev structure : String → ℕ → Die
structure name offset = record {
  tag = dlv_ok Tag.structure_type;
  diename = dlv_ok name;
  dieoffset = dlv_ok offset;
  bytesize = dlv_ok 16;
  attributes = [];
  bitoffset = dlv_no_entry;
  attrlist = dlv_no_entry;
  tag_name = dlv_no_entry;
}

-- The entry 0 with the entries 1 and 2 below it.
abbrev debug : Debug
debug = record {
  die = λ h. structure (if h == 0 then "outer" else if h == 1 then "left" else "right") (0x20 + h);
  child = λ h. if h == 0 then dlv_ok 1 else dlv_no_entry;
  sibling = λ h. if h == 1 then dlv_ok 2 else dlv_no_entry;
  next_cu_header = λ k. if k == 0 then dlv_ok 0x80 else dlv_no_entry;
  cu_die = λ k. dlv_ok 0;
}

abbrev unit : CompileUnit
unit = record {
  next = 0x80;
  handle = 0;
  below = entry 1 empty (entry 2 empty empty);
  behind = empty;
}

read_cu_list-eq-visit_units_example :
    read_cu_list debug parser 2 3 init ≡ visit_units debug parser 0 (unit ∷ []) init
read_cu_list-eq-visit_units_example =
    read_cu_list-eq-visit_units debug parser 2 3 (unit ∷ []) init
      (refl, refl, (refl, refl, (refl, refl, refl)), refl, refl) (omega arith, tt) (omega arith)

-- The walk returns.
reads_unit : (read_cu_list debug parser 2 3 init).0 ≡ ok tt
unfolding read_cu_list find libdwarfparser.Parser.get_die_byte_size libdwarfparser.Map.assign
reads_unit = refl

-- The three entries have identifiers then.
numbers_unit : length (read_cu_list debug parser 2 3 init).1.ids.id_map < u64
unfolding read_cu_list find libdwarfparser.Parser.get_die_byte_size libdwarfparser.Map.assign
    libdwarfparser.Ids.get_id libdwarfparser.Map.at_or libdwarfparser.Map.touch
numbers_unit = omega arith

read_cu_list-IsSound_example : IsSound (read_cu_list debug parser 2 3 init).1
read_cu_list-IsSound_example = read_cu_list-IsSound debug parser 2 3 init init-IsSound reads_unit

abbrev file : File
file = record { debug = debug; is_dwarf = true; indeterminate = 77; rounds = 2; depth = 3 }

destructor-parse_files_example :
    (destructor (parse_files (file ∷ file ∷ []) started).manager).0 ≡ ok tt
unfolding parse_dwarf_from_fd new_parser read_cu_list find libdwarfparser.Parser.get_die_byte_size
    libdwarfparser.Map.assign
destructor-parse_files_example =
    destructor-parse_files (file ∷ file ∷ []) (inr refl, (inr refl, tt))

structure-IsPlain : (name : String) (offset : ℕ) → IsPlain (structure name offset)
unfolding find
structure-IsPlain name offset = record {
  tag = Tag.structure_type;
  tagged = refl;
  plain_tag = tt;
  named = tt;
  placed = tt;
  sized = tt;
  encoding = inl refl;
}

read_cu_list-returns_example :
    ((read_cu_list debug parser 2 3 init).0 ≡ ok tt)
    × AllUnits debug (λ d. IsFound parser d (read_cu_list debug parser 2 3 init).1) (unit ∷ [])
read_cu_list-returns_example =
    read_cu_list-returns debug parser 2 3 (unit ∷ []) init
      (refl, refl, (refl, refl, (refl, refl, refl)), refl, refl) (omega arith, tt) (omega arith)
      init-IsSound init-IsNumbered
      (
        (
          structure-IsPlain "outer" 0x20,
          ((structure-IsPlain "left" 0x21, (tt, (structure-IsPlain "right" 0x22, (tt, tt)))), tt),
        ),
        tt,
      )
      numbers_unit

read_cu_list-resolves_example :
    AllUnits debug (λ d. IsFound parser d (read_cu_list debug parser 2 3 init).1) (unit ∷ [])
read_cu_list-resolves_example =
    read_cu_list-resolves debug parser 2 3 (unit ∷ []) init
      (refl, refl, (refl, refl, (refl, refl, refl)), refl, refl) (omega arith, tt) (omega arith)
      init-IsSound init-IsNumbered reads_unit numbers_unit

abbrev files : List (File × Option ℕ)
files =
    (file, some 3)
    ∷ (record file { is_dwarf = false }, some 4)
    ∷ (file, some 5)
    ∷ (record file { is_dwarf = false }, none)
    ∷ []

-- The descriptor 4 is that of a file without DWARF information, and the last file cannot be opened.
parse_filenames-refused_fds_example :
    (parse_filenames files (record { process = started; open_fds = [] })).open_fds ≡ 4 ∷ []
unfolding parse_filename parse_filenames read_cu_list find libdwarfparser.Parser.get_die_byte_size
    libdwarfparser.Map.assign
parse_filenames-refused_fds_example =
    parse_filenames-refused_fds files (record { process = started; open_fds = [] })
      (refl, (refl, (refl, (refl, tt))))
