-- ===== src/Parser/Descriptors.antt =====
-- The descriptors of the files: `parseDwarfFromFilename`, `parseDwarfFromFD`, and the constructor and
-- the destructor of `DwarfParser` (libdwarfparser/dwarfparser.cpp).
use libdwarfparser.Prelude.{
  ℕ, ◌≡◌, refl, Option, none, some, Bool, true, List, [], ◌∷◌, ◌==◌, nat_eq, if◌then◌else◌, arith,
  Bool-cases, inl, inr, ap, ◌∙◌,
}
use libdwarfparser.Outcome.{Outcome, ok, fail, is_exception}
use libdwarfparser.Manager.{continue}
use libdwarfparser.Parser.Walk.{read_cu_list}
use libdwarfparser.Parser.Files.{File, Process, new_parser, parse_dwarf_from_fd}

-- The process and the descriptors that are open.
pub record System : Type 0 where
  pub process : Process
  pub open_fds : List ℕ

-- `close(fd)`
unfoldable pub close_fd : ℕ → List ℕ → List ℕ
close_fd fd [] = []
close_fd fd (x ∷ xs) = let rest = close_fd fd xs in if x == fd then xs else x ∷ rest

-- `close` of what `open` returned: of -1 it does nothing.
abbrev pub close_opened : Option ℕ → List ℕ → List ℕ
close_opened none fds = fds
close_opened (some fd) fds = close_fd fd fds

-- The open descriptors behind an `open`, which returns a descriptor, or -1, here `none`.
abbrev pub opened : Option ℕ → List ℕ → List ℕ
opened none fds = fds
opened (some fd) fds = fd ∷ fds

-- A return and an exception that is caught run the destructors of the local objects; `exit` and
-- `abort` do not.
abbrev pub unwinds : Outcome (Unit {0}) → Bool
unwinds (ok u) = true
unwinds (fail e) = is_exception e

-- The destructor, which runs only for a parser that was constructed.
unfoldable pub destroy_parser : Option ℕ → Outcome (Unit {0}) → List ℕ → List ℕ
unfolding close_fd
destroy_parser fd result open_fds = if unwinds result then close_opened fd open_fds else open_fds

unfoldable pub parse_fd : File → Option ℕ → System → Outcome (Unit {0}) × System
unfolding new_parser read_cu_list destroy_parser
parse_fd f fd s =
    let (o, file_id) = new_parser f s.process.next_file_id in
    elim o [
      | fail e ↦ (
        fail e,
        record s { process = record { next_file_id = file_id; manager = s.process.manager } },
      )
      | ok p ↦
          let (r, m) = read_cu_list f.debug p f.rounds f.depth s.process.manager in
          (
            r,
            record {
              process = record { next_file_id = file_id; manager = m };
              open_fds = destroy_parser fd r s.open_fds;
            },
          )
    ]

-- What `open` returns is handed on untested.
unfoldable pub parse_filename : File → Option ℕ → System → Outcome (Unit {0}) × System
unfolding parse_fd
parse_filename f fd s = parse_fd f fd (record s { open_fds = opened fd s.open_fds })

-- One file after the other. A caller goes on after an exception.
unfoldable pub parse_filenames : List (File × Option ℕ) → System → System
unfolding parse_filename
parse_filenames [] s = s
parse_filenames ((f, fd) ∷ fs) s = parse_filenames fs (parse_filename f fd s).1

-- Each file is read to its end or to an exception.
abbrev pub AllUnwind : List (File × Option ℕ) → System → Type 0
AllUnwind [] s = Unit
AllUnwind ((f, fd) ∷ fs) s =
    (unwinds (parse_filename f fd s).0 ≡ true) × AllUnwind fs (parse_filename f fd s).1

-- The descriptors of the files that `dwarf_init` refuses, on top of others.
abbrev pub refused_fds : List (File × Option ℕ) → List ℕ → List ℕ
refused_fds [] fds = fds
refused_fds ((f, fd) ∷ fs) fds = refused_fds fs (if f.is_dwarf then fds else opened fd fds)

close_fd-first : (fd : ℕ) (fds : List ℕ) → close_fd fd (fd ∷ fds) ≡ fds
unfolding close_fd
close_fd-first fd fds = ground arith

close_opened-opened : (fd : Option ℕ) (fds : List ℕ) → close_opened fd (opened fd fds) ≡ fds
close_opened-opened none fds = refl
close_opened-opened (some fd) fds = close_fd-first fd fds

parse_filename-open_fds :
    (f : File) (fd : Option ℕ) (s : System)
    → unwinds (parse_filename f fd s).0 ≡ true
    → (parse_filename f fd s).1.open_fds ≡ (if f.is_dwarf then s.open_fds else opened fd s.open_fds)
unfolding parse_filename parse_fd new_parser destroy_parser
parse_filename-open_fds f fd s ended = elim (Bool-cases f.is_dwarf) [
  | inl dwarf ↦ rw (dwarf, rw dwarf at ended) (close_opened-opened fd s.open_fds)
  | inr other ↦ rw other refl
]

-- The manager and the identifiers of files are those of `parse_dwarf_from_fd`, which leaves the
-- descriptors out.
pub parse_filename-process :
    (f : File) (fd : Option ℕ) (s : System)
    → ((parse_filename f fd s).0, (parse_filename f fd s).1.process)
      ≡ parse_dwarf_from_fd f s.process
unfolding parse_filename parse_fd parse_dwarf_from_fd new_parser
parse_filename-process f fd s = elim (Bool-cases f.is_dwarf) [
  | inl dwarf ↦ rw (dwarf, continue) refl
  | inr other ↦ rw (other, continue) refl
]

-- If each of a list of files is read to its end or to an exception, the descriptors that are open
-- afterwards are those open before and, on top of them, those of the files that `dwarf_init` refuses,
-- which are never closed; a file that `open` fails on has none.
pub parse_filenames-refused_fds :
    (fs : List (File × Option ℕ)) (s : System)
    → AllUnwind fs s
    → (parse_filenames fs s).open_fds ≡ refused_fds fs s.open_fds
unfolding parse_filenames
parse_filenames-refused_fds [] s all = refl
parse_filenames-refused_fds ((f, fd) ∷ fs) s (ended, all) =
    parse_filenames-refused_fds fs (parse_filename f fd s).1 all
    ∙ ap (refused_fds fs) (parse_filename-open_fds f fd s ended)
