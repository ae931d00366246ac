-- ===== src/Parser/Sound/Lifetime.antt =====
-- A manager from its construction to its end (libdwarfparser/symbolmanager.cpp), with files read in
-- between (libdwarfparser/dwarfparser.cpp).
use libdwarfparser.Prelude.{◌≡◌, ◌⊎◌, inl, inr, false, List, [], ◌∷◌}
use libdwarfparser.Outcome.{Outcome, ok, fail}
use libdwarfparser.Manager.{SymbolManager, init, continue}
use libdwarfparser.Manager.Destroy.{destructor}
use libdwarfparser.Manager.Sound.{IsSound, init-IsSound}
use libdwarfparser.Manager.Sound.Destroyed.{destructor-IsSound}
use libdwarfparser.Parser.{Parser}
use libdwarfparser.Parser.Walk.{read_cu_list}
use libdwarfparser.Parser.Files.{File, Process, new_parser, parse_dwarf_from_fd, parse_files}
use libdwarfparser.Parser.Sound.Entries.{read_cu_list-IsSound}

-- The process before its first file.
abbrev pub started : Process
started = record { next_file_id = 0; manager = init }

-- Each file is read without an error, or refused by `dwarf_init`.
abbrev pub AllRead : List File → Process → Type 0
AllRead [] s = Unit
AllRead (f ∷ fs) s =
    ((f.is_dwarf ≡ false) ⊎ ((parse_dwarf_from_fd f s).0 ≡ ok tt))
    × AllRead fs (parse_dwarf_from_fd f s).1

opened-IsSound :
    (f : File) (o : Outcome Parser) (m : SymbolManager)
    → IsSound m
    → (continue o (λ p. read_cu_list f.debug p f.rounds f.depth) m).0 ≡ ok tt
    → IsSound (continue o (λ p. read_cu_list f.debug p f.rounds f.depth) m).1
opened-IsSound f (ok p) m v returned = read_cu_list-IsSound f.debug p f.rounds f.depth m v returned
opened-IsSound f (fail e) m v returned = v

refused-IsSound :
    (f : File) (s : Process)
    → f.is_dwarf ≡ false
    → IsSound s.manager
    → IsSound (parse_dwarf_from_fd f s).1.manager
unfolding parse_dwarf_from_fd new_parser
refused-IsSound f s refused v = rw (refused, continue) v

read-IsSound :
    (f : File) (s : Process)
    → (parse_dwarf_from_fd f s).0 ≡ ok tt
    → IsSound s.manager
    → IsSound (parse_dwarf_from_fd f s).1.manager
unfolding parse_dwarf_from_fd
read-IsSound f s returned v = opened-IsSound f (new_parser f s.next_file_id).0 s.manager v returned

parse_files-IsSound :
    (fs : List File) (s : Process)
    → AllRead fs s
    → IsSound s.manager
    → IsSound (parse_files fs s).manager
unfolding parse_files
parse_files-IsSound [] s all v = v
parse_files-IsSound (f ∷ fs) s (here, all) v =
    parse_files-IsSound fs (parse_dwarf_from_fd f s).1 all (elim here [
      | inl refused ↦ refused-IsSound f s refused v
      | inr returned ↦ read-IsSound f s returned v
    ])

-- A manager that any files were read into, each without an error or else refused by `dwarf_init`, is
-- destroyed without an error, as long as nothing else has changed it.
pub destructor-parse_files :
    (fs : List File) → AllRead fs started → (destructor (parse_files fs started).manager).0 ≡ ok tt
destructor-parse_files fs all =
    destructor-IsSound (parse_files fs started).manager
      (parse_files-IsSound fs started all init-IsSound)
