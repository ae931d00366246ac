-- ===== src/Output.antt =====
-- What the program writes to its standard output: lines of texts and numbers. `print` of the classes
-- of symbols is in the modules below.
pub mod Print
pub mod Members
mod Tests
use libdwarfparser.Prelude.{ℕ, String, List}

-- A number is written in decimal digits or in hexadecimal ones.
pub data Piece : Type 0 where
  text : String → Piece
  dec : ℕ → Piece
  hex : ℕ → Piece

abbrev pub Line : Type 0
Line = List Piece
