-- ===== src/App/Stream/Sample.antt =====
-- `convint8` of src/app/stream.rs, from the bits of an `f32` to an `i8`, which is its pattern of
-- eight bits, a number below 256.
pub mod Accuracy
use bark_esp.Base.{
  ℕ, zero, suc, ◌+◌, ◌-◌, ◌*◌, ◌/◌, ◌%◌, ◌^◌, ◌≤◌, ◌<◌, ◌≡◌, Bool, true, false, ◌&&◌, not, ltb, leb,
  ◌==◌, if◌then◌else◌, arith,
}

-- `>>` and `<<` on a `u32`
abbrev pub shift_right : ℕ → ℕ → ℕ
shift_right n zero = n
shift_right n (suc k) = shift_right (n / 2) k

abbrev pub shift_left : ℕ → ℕ → ℕ
shift_left n zero = n
shift_left n (suc k) = shift_left (2 * n % 2 ^ 32) k

-- `sign * value` of two `i8`s, where `sign` is -1 or 1, with wrap-around
abbrev pub times_sign : Bool → ℕ → ℕ
times_sign true value = (2 ^ 8 - value) % 2 ^ 8
times_sign false value = value

-- `normal`, from the exponent and the fraction with its implicit top bit
abbrev pub normal : ℕ → ℕ → ℕ
normal exp frac =
    if leb exp 0x7f then shift_right frac (0x7f - exp) else shift_left frac (exp - 0x7f)

-- The magnitude that is left once zero is out of the way; `normal` is never below `1 << 8` here.
unfoldable pub magnitude : ℕ → ℕ → ℕ
magnitude exp frac =
    if ltb exp 0x78
    then 0
    else (if ltb 0x86 exp then 127 else (normal exp frac - 2 ^ 8) / 2 ^ 16 % 2 ^ 8)

unfoldable pub convint8 : ℕ → ℕ
convint8 bits =
    let frac = bits % 2 ^ 23 in
    let exp = bits / 2 ^ 23 % 2 ^ 8 in
    let negative = not (bits / 2 ^ 31 == 0) in
    if (exp == 0) && (frac == 0) then 0 else times_sign negative (magnitude exp (frac + 2 ^ 23))

shift_right-le : (n k : ℕ) → shift_right n k ≤ n
shift_right-le n zero = omega arith
shift_right-le n (suc k) = omega (arith, shift_right-le (n / 2) k)

pub shift_right-half : (n k : ℕ) → 0 < k → shift_right n k ≤ n / 2
shift_right-half n zero h = absurd (omega arith)
shift_right-half n (suc k) h = shift_right-le (n / 2) k

magnitude-le : (exp frac : ℕ) → exp < 0x7f → frac < 2 ^ 24 → magnitude exp frac ≤ 127
unfolding magnitude
magnitude-le exp frac h f =
    let half = shift_right-half frac (0x7f - exp) (omega arith) in ground (arith, half)

-- On the samples from 0 up to 1, the result is from 0 up to 127; with the sign bit set, it is
-- the negative of that.
pub convint8_signed :
    (bits : ℕ)
    → bits < 0x3f800000
    → (convint8 bits ≤ 127) × (convint8 (bits + 2 ^ 31) ≡ times_sign true (convint8 bits))
unfolding convint8
convint8_signed bits h =
    let exp : (bits + 2 ^ 31) / 2 ^ 23 % 2 ^ 8 ≡ bits / 2 ^ 23 % 2 ^ 8 = omega arith in
    let frac : (bits + 2 ^ 31) % 2 ^ 23 ≡ bits % 2 ^ 23 = omega arith in
    let plus : bits / 2 ^ 31 ≡ 0 = omega arith in
    let minus : (bits + 2 ^ 31) / 2 ^ 31 ≡ 1 = omega arith in
    let small =
      magnitude-le (bits / 2 ^ 23 % 2 ^ 8) (bits % 2 ^ 23 + 2 ^ 23) (omega arith) (omega arith) in
    rw (exp, frac, plus, minus) (ground (arith, small))

-- A sample a little over 1, below 2, is not clipped: its positive value comes out as a negative
-- one.
pub convint8-over_one :
    (bits : ℕ)
    → 0x3f800100 ≤ bits
    → bits < 0x40000000
    → (128 ≤ convint8 bits) × (convint8 bits < 256)
unfolding convint8 magnitude
convint8-over_one bits lo hi =
    let exp : bits / 2 ^ 23 % 2 ^ 8 ≡ 0x7f = omega arith in
    let plus : bits / 2 ^ 31 ≡ 0 = omega arith in rw (exp, plus) (omega arith)

-- From a magnitude of 256 on a sample is clipped, with its sign.
pub convint8-clips :
    (bits : ℕ)
    → 0x87 ≤ bits / 2 ^ 23 % 2 ^ 8
    → bits < 2 ^ 32
    → convint8 bits ≡ times_sign (not (bits / 2 ^ 31 == 0)) 127
unfolding convint8 magnitude
convint8-clips bits h w = ground arith
