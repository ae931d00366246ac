-- ===== src/Parser/Files.antt =====
-- A file from its opening to its end: `parseDwarfFromFD` and the constructor of `DwarfParser`
-- (libdwarfparser/dwarfparser.cpp). Opening and closing a descriptor has no other effect here.
use libdwarfparser.Prelude.{
  ℕ, ◌+◌, ◌<◌, ◌≡◌, length, arith, ◌%◌, Bool, List, [], ◌∷◌, if◌then◌else◌,
}
use libdwarfparser.Outcome.{Outcome, ok, fail, dwarf_exception}
use libdwarfparser.Manager.{SymbolManager, continue}
use libdwarfparser.Parser.{Parser}
use libdwarfparser.Parser.Objects.{u32}
use libdwarfparser.Parser.Walk.{Debug, read_cu_list}

-- What libdwarf does on a file, whether `dwarf_init` succeeds, what a local variable without an
-- initialiser holds, and the bounds of the loops.
pub record File : Type 0 where
  pub debug : Debug
  pub is_dwarf : Bool
  pub indeterminate : ℕ
  pub rounds : ℕ
  pub depth : ℕ

-- `nextFileID`, which all parsers share, and the manager.
pub record Process : Type 0 where
  pub next_file_id : ℕ
  pub manager : SymbolManager

unfoldable pub new_parser : File → ℕ → Outcome Parser × ℕ
new_parser f next_file_id =
    let file_id = (next_file_id + 1) % u32 in
    (
      if f.is_dwarf
          then ok (record { file_id = file_id; cur_cu_offset = 0; indeterminate = f.indeterminate })
          else fail (dwarf_exception "Giving up, cannot do DWARF processing\n"),
      file_id,
    )

unfoldable pub parse_dwarf_from_fd : File → Process → Outcome (Unit {0}) × Process
unfolding new_parser read_cu_list
parse_dwarf_from_fd f s =
    let (o, file_id) = new_parser f s.next_file_id in
    let (r, m) = continue o (λ p. read_cu_list f.debug p f.rounds f.depth) s.manager in
    (r, record { next_file_id = file_id; manager = m })

-- Files one after the other. A caller goes on after an exception.
unfoldable pub parse_files : List File → Process → Process
unfolding parse_dwarf_from_fd
parse_files [] s = s
parse_files (f ∷ fs) s = parse_files fs (parse_dwarf_from_fd f s).1

-- The file behind others gets the number of files so far as its identifier, from 1 on, whether those
-- could be read or not, below 2 ^ 32 files.
pub next_file_id-parse_files :
    (fs : List File) (s : Process)
    → s.next_file_id + length fs < u32
    → (parse_files fs s).next_file_id ≡ s.next_file_id + length fs
unfolding parse_files
next_file_id-parse_files [] s small = omega arith
next_file_id-parse_files (f ∷ fs) s small =
    let opened = (parse_dwarf_from_fd f s).1 in
    let next : opened.next_file_id ≡ s.next_file_id + 1 = omega arith in
    omega (arith, next, next_file_id-parse_files fs opened (omega (arith, next)))
