-- ===== src/Block/Address.antt =====
-- `DW_OP_addr`: eight bytes, the lowest first.
use libdwarfparser.Prelude.{
  ℕ, zero, suc, ◌/◌, ◌%◌, ◌<◌, ◌≡◌, ◌≤◌, refl, arith, List, [], ◌∷◌, ◌++◌, get_elem?, length, none,
}
use libdwarfparser.Outcome.{ok, fail, undefined}
use libdwarfparser.Block.{parse_block, dw_op_addr, u64}

-- An address as `n` bytes, the lowest first.
pub le_bytes : ℕ → ℕ → List ℕ
le_bytes zero w = []
le_bytes (suc n) w = w % 256 ∷ le_bytes n (w / 256)

-- The block of an address is read back as that address, whatever length is claimed for the block
-- and whatever follows the eight bytes.
pub parse_block-address :
    (w blen : ℕ) (rest : List ℕ)
    → w < u64
    → parse_block blen (dw_op_addr ∷ le_bytes 8 w ++ rest) ≡ ok w
unfolding parse_block le_bytes
parse_block-address w blen rest h = ground arith

get_elem?-none {ℓ} : {A : Type ℓ} (xs : List A) (i : ℕ) → length xs ≤ i → get_elem? xs i ≡ none
get_elem?-none [] i h = refl
get_elem?-none (x ∷ xs) zero h = absurd (omega arith)
get_elem?-none (x ∷ xs) (suc i) h = get_elem?-none xs i (omega arith)

-- An address block with fewer than eight bytes behind its operator is read out of bounds, whatever
-- length is claimed for it: no test stops the loop.
pub parse_block-short_address :
    (blen : ℕ) (bytes : List ℕ)
    → length bytes < 8
    → parse_block blen (dw_op_addr ∷ bytes) ≡ fail undefined
unfolding parse_block
parse_block-short_address blen bytes h = ground (arith, get_elem?-none bytes 7 (omega arith))
