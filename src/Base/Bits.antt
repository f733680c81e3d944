-- ===== src/Base/Bits.antt =====
-- Words as sets of bits: `|`, `&` and `1 << i` by the digits of a number.
use Prim.Native.Nat.{
  ℕ, zero, suc, ◌+◌, ◌*◌, ◌/◌, ◌%◌, ◌^◌, ◌≤◌, ◌<◌, min, max, bit_and, bit_or, digits,
  bit_and-bitwise, bit_or-bitwise,
}
use mathlib.Core.Path.{◌≡◌, refl, sym, ap, ◌∙◌}
use mathlib.Core.Bool.{Bool, false, not, ◌||◌}
use native.Mathlib.Nat.{pow-suc, one-le-pow}
use native.Mathlib.Omega.{arith}
use bark_esp.Base.Branch.{if◌then◌else◌, ◌==◌}

-- More rounds than the first number has digits make no difference.
module _ (z : ℕ → ℕ) (f : ℕ → ℕ → ℕ) where
  digits_rounds : (n m a b : ℕ) → a ≤ n → a ≤ m → digits z f n a b ≡ digits z f m a b
  digits_rounds zero zero a b h k = refl
  digits_rounds zero (suc m) zero b h k = refl
  digits_rounds zero (suc m) (suc a) b h k = absurd (omega arith)
  digits_rounds (suc n) zero zero b h k = refl
  digits_rounds (suc n) zero (suc a) b h k = absurd (omega arith)
  digits_rounds (suc n) (suc m) zero b h k = refl
  digits_rounds (suc n) (suc m) (suc a) b h k =
      ap (λ t. t * 2 + f (suc a % 2) (b % 2))
        (digits_rounds n m (suc a / 2) (b / 2) (omega arith) (omega arith))

  digits_halve :
      (a b : ℕ)
      → digits z f (suc a) (suc a) b
        ≡ digits z f (suc a / 2) (suc a / 2) (b / 2) * 2 + f (suc a % 2) (b % 2)
  digits_halve a b =
      ap (λ t. t * 2 + f (suc a % 2) (b % 2))
        (digits_rounds a (suc a / 2) (suc a / 2) (b / 2) (omega arith) (omega arith))

-- The lowest digit and the others.
and_halves : (a b : ℕ) → bit_and a b ≡ bit_and (a / 2) (b / 2) * 2 + min (a % 2) (b % 2)
and_halves zero b = omega (arith, bit_and-bitwise 0 b, bit_and-bitwise 0 (b / 2))
and_halves (suc a) b =
    bit_and-bitwise (suc a) b
    ∙ digits_halve (λ _. 0) min a b
    ∙ ap (λ t. t * 2 + min (suc a % 2) (b % 2)) (sym (bit_and-bitwise (suc a / 2) (b / 2)))

or_halves : (a b : ℕ) → bit_or a b ≡ bit_or (a / 2) (b / 2) * 2 + max (a % 2) (b % 2)
or_halves zero b = omega (arith, bit_or-bitwise 0 b, bit_or-bitwise 0 (b / 2))
or_halves (suc a) b =
    bit_or-bitwise (suc a) b
    ∙ digits_halve (λ y. y) max a b
    ∙ ap (λ t. t * 2 + max (suc a % 2) (b % 2)) (sym (bit_or-bitwise (suc a / 2) (b / 2)))

-- The digit at a place, counted from the lowest.
abbrev pub digit : ℕ → ℕ → ℕ
digit b zero = b % 2
digit b (suc i) = digit (b / 2) i

digit-lt : (i b : ℕ) → digit b i < 2
digit-lt zero b = omega arith
digit-lt (suc i) b = digit-lt i (b / 2)

digit-zero : (i : ℕ) → digit 0 i ≡ 0
digit-zero zero = refl
digit-zero (suc i) = digit-zero i

digit-or : (i a b : ℕ) → digit (bit_or a b) i ≡ max (digit a i) (digit b i)
digit-or zero a b = omega (arith, or_halves a b)
digit-or (suc i) a b = ap (λ t. digit t i) half ∙ digit-or i (a / 2) (b / 2)
  where
    half : bit_or a b / 2 ≡ bit_or (a / 2) (b / 2)
    half = omega (arith, or_halves a b)

-- `1 << i`
digit-pow : (i j : ℕ) → digit (2 ^ i) j ≡ (if i == j then 1 else 0)
digit-pow zero zero = refl
digit-pow zero (suc j) = ap (λ t. digit t j) {y = 0} (omega arith) ∙ ground (arith, digit-zero j)
digit-pow (suc i) zero = ground (arith, pow-suc 2 i)
digit-pow (suc i) (suc j) = ap (λ t. digit t j) half ∙ ground (arith, digit-pow i j)
  where
    half : 2 ^ suc i / 2 ≡ 2 ^ i
    half = omega (arith, pow-suc 2 i)

digits_none : (n a : ℕ) → digits (λ _. 0) min n a 0 ≡ 0
digits_none zero a = refl
digits_none (suc n) zero = refl
digits_none (suc n) (suc a) = omega (arith, digits_none n (suc a / 2))

and-zero : (a : ℕ) → bit_and a 0 ≡ 0
and-zero a = bit_and-bitwise a 0 ∙ digits_none a a

-- `b & (1 << i)` is that digit in its place.
and-pow : (i b : ℕ) → bit_and b (2 ^ i) ≡ digit b i * 2 ^ i
and-pow zero b = omega (arith, and_halves b 1, and-zero (b / 2))
and-pow (suc i) b =
    and_halves b (2 ^ suc i)
    ∙ ap (λ t. bit_and (b / 2) t * 2 + min (b % 2) (2 ^ suc i % 2)) half
    ∙ omega (arith, and-pow i (b / 2), pow-suc 2 i, ap (λ t. digit (b / 2) i * t) (pow-suc 2 i))
  where
    half : 2 ^ suc i / 2 ≡ 2 ^ i
    half = omega (arith, pow-suc 2 i)

-- The test `b & (1 << i) != 0`.
abbrev pub has_bit : ℕ → ℕ → Bool
has_bit b i = not (bit_and b (2 ^ i) == 0)

has_bit-digit : (b i : ℕ) → has_bit b i ≡ (digit b i == 1)
has_bit-digit b i = ground (arith, and-pow i b, digit-lt i b, one-le-pow i 2 (omega arith))

-- A set after a bit was put into it.
pub has_bit-or : (b i j : ℕ) → has_bit (bit_or b (2 ^ i)) j ≡ (i == j || has_bit b j)
has_bit-or b i j = ground (
  arith,
  has_bit-digit (bit_or b (2 ^ i)) j,
  has_bit-digit b j,
  digit-or j b (2 ^ i),
  digit-pow i j,
  digit-lt j b,
)

has_bit-zero : (i : ℕ) → has_bit 0 i ≡ false
has_bit-zero i = has_bit-digit 0 i ∙ ground (arith, digit-zero i)
