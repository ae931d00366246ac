-- ===== src/Block.antt =====
-- `parseBlock` (libdwarfparser/dwarfparser.cpp): the location expressions of DWARF that the parser
-- understands, an address and a member offset. The proofs are in the modules below.
pub mod Address
pub mod Offset
pub mod Tests
use Prim.Native.Nat.{bit_and, bit_or}
use libdwarfparser.Prelude.{
  ℕ, zero, suc, ◌+◌, ◌-◌, ◌*◌, ◌%◌, ◌^◌, List, [], ◌∷◌, get_elem?, ltb, leb, ◌==◌, if◌then◌else◌,
  nat_eq,
}
use libdwarfparser.Outcome.{Outcome, ok, fail, undefined, ◌>>=◌, ◌>>◌, require, or_fail}

-- The codes of the DWARF standard.
abbrev pub dw_op_addr : ℕ
dw_op_addr = 0x03

abbrev pub dw_op_plus_uconst : ℕ
dw_op_plus_uconst = 0x23

abbrev pub u64 : ℕ
u64 = 2 ^ 64

-- `bdata[i]`, where `bdata` holds the bytes that may be read.
abbrev pub read : List ℕ → ℕ → Outcome ℕ
read bdata i = or_fail (get_elem? bdata i) undefined

-- The rounds `i = 9 - k .. 8` of the first loop, which reads `bdata[9 - i]`.
unfoldable pub address_rounds : ℕ → List ℕ → ℕ → Outcome ℕ
address_rounds zero bdata result = ok result
address_rounds (suc k) bdata result = do
  byte ← read bdata (suc k)
  address_rounds k bdata ((result * 2 ^ 8 % u64 + byte) % u64)

-- The second loop with `k` rounds left, at `i`.
unfoldable pub offset_rounds : ℕ → List ℕ → ℕ → ℕ → Outcome ℕ
offset_rounds zero bdata i result = ok result
offset_rounds (suc k) bdata i result = do
  byte ← read bdata i
  let result' = bit_or result (bit_and byte 0x7f * 2 ^ ((i - 1) * 7) % u64)
  let rest = offset_rounds k bdata (i + 1) result'
  if bit_and byte 0x80 == 0 then ok result' else rest

-- The switch on the first byte. A block longer than ten bytes is reported and read all the same.
unfoldable pub dispatch : ℕ → List ℕ → ℕ → Outcome ℕ
unfolding address_rounds offset_rounds
dispatch blen bdata op =
    if op == dw_op_addr
    then address_rounds 8 bdata 0
    else if op == dw_op_plus_uconst
    then (require (leb blen 9) >> offset_rounds (blen - 1) bdata 1 0)
    else ok 0

unfoldable pub parse_block : ℕ → List ℕ → Outcome ℕ
unfolding dispatch
parse_block blen bdata = do op ← read bdata 0; dispatch blen bdata op
