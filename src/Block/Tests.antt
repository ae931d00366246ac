-- ===== src/Block/Tests.antt =====
-- Blocks as a compiler writes them, and the theorems about them at these inputs.
use libdwarfparser.Prelude.{◌+◌, ◌≡◌, refl, [], ◌∷◌, ◌++◌, length, arith}
use libdwarfparser.Outcome.{ok, fail, undefined, assertion}
use libdwarfparser.Block.{parse_block, dw_op_addr, dw_op_plus_uconst}
use libdwarfparser.Block.Address.{le_bytes, parse_block-address, parse_block-short_address}
use libdwarfparser.Block.Offset.{uleb_bytes, parse_block-offset}

kernel_address :
    parse_block 9 (0x03 ∷ 0x80 ∷ 0x35 ∷ 0xc1 ∷ 0x81 ∷ 0xff ∷ 0xff ∷ 0xff ∷ 0xff ∷ [])
    ≡ ok 0xffff_ffff_81c1_3580
unfolding parse_block
kernel_address = refl

member_offset : parse_block 3 (0x23 ∷ 0x90 ∷ 0x0a ∷ []) ≡ ok 1296
unfolding parse_block
member_offset = refl

long_offset : parse_block 10 (0x23 ∷ []) ≡ fail assertion
unfolding parse_block
long_offset = refl

frame_base : parse_block 1 (0x9c ∷ []) ≡ ok 0
unfolding parse_block
frame_base = refl

parse_block-address_example :
    parse_block 10 (dw_op_addr ∷ le_bytes 8 0xffff_ffff_81c1_3580 ++ 0x9f ∷ [])
    ≡ ok 0xffff_ffff_81c1_3580
parse_block-address_example = parse_block-address 0xffff_ffff_81c1_3580 10 (0x9f ∷ []) (omega arith)

parse_block-short_address_example :
    parse_block 5 (dw_op_addr ∷ 0x80 ∷ 0x35 ∷ 0xc1 ∷ 0x81 ∷ []) ≡ fail undefined
parse_block-short_address_example =
    parse_block-short_address 5 (0x80 ∷ 0x35 ∷ 0xc1 ∷ 0x81 ∷ []) (omega arith)

parse_block-offset_example :
    parse_block (1 + length (uleb_bytes 7 1296)) (dw_op_plus_uconst ∷ uleb_bytes 7 1296 ++ [])
    ≡ ok 1296
parse_block-offset_example = parse_block-offset 1296 [] (omega arith)
