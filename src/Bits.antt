-- ===== src/Bits.antt =====
-- `|` of disjoint fields and the masks of one byte, as arithmetic.
use Prim.Native.Nat.{max, digits, bit_and, bit_or, bit_or-bitwise}
use native.Mathlib.Nat.{pow-suc}
use libdwarfparser.Prelude.{
  ℕ, zero, suc, ◌+◌, ◌*◌, ◌/◌, ◌%◌, ◌^◌, ◌≤◌, ◌<◌, ◌≡◌, refl, ap, Bool, true, ◌&&◌, arith, nat_beq,
  nat_beq_iff,
}

-- The digits of a disjunction do not depend on the fuel, once that reaches the first number.
or_digits : ℕ → ℕ → ℕ → ℕ
or_digits n a b = digits (λ y. y) max n a b

or_digits_enough : (n a b : ℕ) → a ≤ n → or_digits n a b ≡ or_digits a a b
unfolding or_digits
or_digits_enough n a b h = agree n a a b h (omega arith)
  where
    agree : (n m a b : ℕ) → a ≤ n → a ≤ m → or_digits n a b ≡ or_digits m a b
    agree zero zero a b p q = refl
    agree zero (suc m) zero b p q = refl
    agree (suc n) zero zero b p q = refl
    agree zero (suc m) (suc a) b p q = absurd (omega arith)
    agree (suc n) zero (suc a) b p q = absurd (omega arith)
    agree (suc n) (suc m) zero b p q = refl
    agree (suc n) (suc m) (suc a) b p q =
        ap (λ t. t * 2 + max (suc a % 2) (b % 2))
          (agree n m (suc a / 2) (b / 2) (omega arith) (omega arith))

-- The lowest binary digit of a disjunction, and the rest.
bit_or_unfold : (a b : ℕ) → bit_or a b ≡ bit_or (a / 2) (b / 2) * 2 + max (a % 2) (b % 2)
unfolding or_digits
bit_or_unfold zero b = omega (arith, bit_or-bitwise 0 b, bit_or-bitwise 0 (b / 2))
bit_or_unfold (suc a) b = omega (
  arith,
  bit_or-bitwise (suc a) b,
  bit_or-bitwise (suc a / 2) (b / 2),
  or_digits_enough a (suc a / 2) (b / 2) (omega arith),
)

zero-bit_or : (b : ℕ) → bit_or 0 b ≡ b
zero-bit_or b = bit_or-bitwise 0 b

double_shift : (q k : ℕ) → q * 2 ^ suc k ≡ q * 2 ^ k * 2
double_shift q k = omega (arith, ap (λ (t : ℕ). q * t) (pow-suc 2 k))

-- A number of `k` bits, and another that is shifted past them: `|` is their sum.
pub bit_or-shifted : (k r q : ℕ) → r < 2 ^ k → bit_or r (q * 2 ^ k) ≡ r + q * 2 ^ k
bit_or-shifted zero zero q h = omega (arith, zero-bit_or (q * 2 ^ 0))
bit_or-shifted zero (suc r) q h = absurd (omega arith)
bit_or-shifted (suc k) r q h =
    let halved : q * 2 ^ suc k / 2 ≡ q * 2 ^ k = omega (arith, double_shift q k) in
    omega (
      arith,
      bit_or_unfold r (q * 2 ^ suc k),
      double_shift q k,
      ap (λ (t : ℕ). bit_or (r / 2) t) halved,
      pow-suc 2 k,
      bit_or-shifted k (r / 2) q (omega (arith, pow-suc 2 k)),
    )

-- Equations over one byte, checked at each value.
holds_below : ℕ → (ℕ → Bool) → Bool
holds_below zero p = true
holds_below (suc n) p = p n && holds_below n p

holds_below_sound : (n : ℕ) (p : ℕ → Bool) (x : ℕ) → holds_below n p ≡ true → x < n → p x ≡ true
unfolding holds_below
holds_below_sound zero p x h lt = absurd (omega arith)
holds_below_sound (suc n) p x h lt = ground (arith, holds_below_sound n p x)

pub low_seven : (b : ℕ) → b < 256 → bit_and b 0x7f ≡ b % 128
unfolding holds_below
low_seven b h =
    (nat_beq_iff _ _).0 (holds_below_sound 256 (λ x. nat_beq (bit_and x 0x7f) (x % 128)) b refl h)

pub top_bit : (b : ℕ) → b < 256 → bit_and b 0x80 ≡ b / 128 * 128
unfolding holds_below
top_bit b h =
    (nat_beq_iff _ _).0
      (holds_below_sound 256 (λ x. nat_beq (bit_and x 0x80) (x / 128 * 128)) b refl h)
