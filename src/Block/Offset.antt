-- ===== src/Block/Offset.antt =====
-- `DW_OP_plus_uconst`: an offset in groups of seven bits, the lowest first.
use Prim.Native.Nat.{bit_and, bit_or}
use libdwarfparser.Prelude.{
  ℕ, zero, suc, ◌+◌, ◌-◌, ◌*◌, ◌/◌, ◌%◌, ◌^◌, ◌<◌, ◌≡◌, ◌≤◌, refl, arith, List, [], ◌∷◌, ◌++◌,
  get_elem?, length, length-append, ltb, Bool-cases, inl, inr, ◌∙◌, ap, some, if◌then◌else◌,
}
use libdwarfparser.Outcome.{ok}
use mathlib.Core.List.{append_assoc}
use native.Mathlib.Nat.{mod-eq_of_lt, pow-suc, one-le-pow}
use native.Mathlib.Numerals.{towards_suc}
use libdwarfparser.Bits.{bit_or-shifted, low_seven, top_bit}
use libdwarfparser.Block.{parse_block, offset_rounds, dw_op_plus_uconst, u64}

-- The unsigned LEB128 encoding of the DWARF standard, in at most `k + 1` groups.
pub uleb_bytes : ℕ → ℕ → List ℕ
uleb_bytes zero n = n % 128 ∷ []
uleb_bytes (suc k) n =
    let rest = uleb_bytes k (n / 128) in if ltb n 128 then n ∷ [] else (n % 128 + 128) ∷ rest

length-uleb_bytes : (k n : ℕ) → length (uleb_bytes k n) ≤ suc k
unfolding uleb_bytes
length-uleb_bytes zero n = omega arith
length-uleb_bytes (suc k) n = ground (arith, length-uleb_bytes k (n / 128))

get_elem?-append {ℓ} :
    {A : Type ℓ} (before : List A) (x : A) (rest : List A)
    → get_elem? (before ++ x ∷ rest) (length before) ≡ some x
get_elem?-append [] x rest = refl
get_elem?-append (y ∷ before) x rest = get_elem?-append before x rest

pow_group : (s : ℕ) → 2 ^ (s + 7) ≡ 128 * 2 ^ s
pow_group s = simp towards_suc (omega arith)

-- The shift of group `i`, and of the next.
place : ℕ → ℕ
place i = 2 ^ ((i - 1) * 7)

place-next : (i : ℕ) → 1 ≤ i → place (i + 1) ≡ 128 * place i
unfolding place
place-next i h =
    let e : (i + 1 - 1) * 7 ≡ (i - 1) * 7 + 7 = omega arith in rw e (pow_group ((i - 1) * 7))

-- A group joins the bits that were read below it.
join :
    (i r b : ℕ)
    → b < 256
    → r < place i
    → place i * 128 ≤ u64
    → bit_or r (bit_and b 0x7f * 2 ^ ((i - 1) * 7) % u64) ≡ r + b % 128 * place i
unfolding place
join i r b byte fits room =
    let below : b % 128 * place i < u64 = grind arith in
    rw (low_seven b byte) (rw (mod-eq_of_lt below) (bit_or-shifted ((i - 1) * 7) r (b % 128) fits))

-- One round, at the last group and at any other.
round :
    (g i r b : ℕ) (bdata : List ℕ)
    → get_elem? bdata i ≡ some b
    → b < 256
    → r < place i
    → place i * 128 ≤ u64
    → offset_rounds (suc g) bdata i r ≡ (
        if ltb b 128
        then ok (r + b % 128 * place i)
        else offset_rounds g bdata (i + 1) (r + b % 128 * place i))
unfolding offset_rounds
round g i r b bdata found byte fits room =
    rw (found, offset_rounds) (rw (join i r b byte fits room) (ground (arith, top_bit b byte)))

-- A group fits the 64 bits as long as the places of the whole number do.
room_for_group : (i k : ℕ) → place i * 128 ^ suc k ≤ 2 ^ 56 → place i * 128 ≤ u64
room_for_group i k h =
    let more : place i * 128 ≤ place i * 128 ^ suc k =
      grind (arith, pow-suc 128 k, one-le-pow k 128) in
    omega (arith, more)

next_room :
    (i k : ℕ) → 1 ≤ i → place i * 128 ^ suc (suc k) ≤ 2 ^ 56 → place (i + 1) * 128 ^ suc k ≤ 2 ^ 56
next_room i k lo h =
    rw (place-next i lo) (omega (arith, ap (λ (t : ℕ). place i * t) (pow-suc 128 (suc k))))

next_fits : (r b p : ℕ) → r < p → r + b % 128 * p < 128 * p
next_fits r b p h = grind arith

regroup : (r n p : ℕ) → r + (n % 128 + 128) % 128 * p + n / 128 * (128 * p) ≡ r + n * p
regroup r n p =
    let low : (n % 128 + 128) % 128 ≡ n % 128 = omega arith in
    let whole : n / 128 * 128 + n % 128 ≡ n = omega arith in
    rw low (omega (arith, ap (λ (t : ℕ). t * p) whole))

-- The loop at the group `i`, with the bits below already read.
offset_rounds-uleb :
    (g k i r n : ℕ) (before rest : List ℕ)
    → length before ≡ i
    → 1 ≤ i
    → place i * 128 ^ suc k ≤ 2 ^ 56
    → r < place i
    → n < 128 ^ suc k
    → length (uleb_bytes k n) ≤ g
    → offset_rounds g (before ++ (uleb_bytes k n ++ rest)) i r ≡ ok (r + n * place i)
unfolding uleb_bytes
offset_rounds-uleb zero zero i r n before rest at lo hi fits small rounds = absurd (omega arith)
offset_rounds-uleb zero (suc k) i r n before rest at lo hi fits small rounds = absurd (ground arith)
offset_rounds-uleb (suc g) zero i r n before rest at lo hi fits small rounds =
    round g i r (n % 128) _ (rw (← at) (get_elem?-append before (n % 128) rest)) (omega arith) fits
      (room_for_group i 0 hi)
    ∙ ground arith
offset_rounds-uleb (suc g) (suc k) i r n before rest at lo hi fits small rounds =
    elim (Bool-cases (ltb n 128)) [
      | inl last ↦ rw last (
          round g i r n _ (rw (← at) (get_elem?-append before n rest)) (ground arith) fits
            (room_for_group i (suc k) hi)
          ∙ ground arith)
      | inr more ↦
          let b = n % 128 + 128 in
          let r' = r + b % 128 * place i in
          let ih =
            offset_rounds-uleb g k (i + 1) r' (n / 128) (before ++ b ∷ []) rest
              (omega (arith, length-append before (b ∷ []), at)) (omega arith) (next_room i k lo hi)
              (rw (place-next i lo) (next_fits r b (place i) fits))
              (omega (arith, pow-suc 128 (suc k))) (ground arith) in
          rw more (
            round g i r b _ (rw (← at) (get_elem?-append before b (uleb_bytes k (n / 128) ++ rest)))
              (omega arith) fits (room_for_group i (suc k) hi)
            ∙ ground (arith, (rw append_assoc at ih), place-next i lo, regroup r n (place i)))
    ]

-- An offset below 2^56, encoded in groups of seven bits, is read back, whatever follows its groups.
pub parse_block-offset :
    (n : ℕ) (rest : List ℕ)
    → n < 2 ^ 56
    → parse_block (1 + length (uleb_bytes 7 n)) (dw_op_plus_uconst ∷ uleb_bytes 7 n ++ rest) ≡ ok n
unfolding parse_block place
parse_block-offset n rest h =
    let len = length-uleb_bytes 7 n in
    let count : 1 + length (uleb_bytes 7 n) - 1 ≡ length (uleb_bytes 7 n) = omega arith in
    let decoded =
      offset_rounds-uleb (length (uleb_bytes 7 n)) 7 1 0 n (dw_op_plus_uconst ∷ []) rest refl
        (omega arith) (omega arith) (omega arith) h (omega arith) in
    rw count (ground (arith, decoded))
