-- ===== src/App/Stream/Sample/Accuracy.antt =====
-- How near `convint8` of src/app/stream.rs comes to the sample.
use native.Mathlib.Nat.{pow-le-pow_right}
use bark_esp.Base.{
  ℕ, zero, suc, ◌+◌, ◌-◌, ◌*◌, ◌/◌, ◌%◌, ◌^◌, ◌≤◌, ◌<◌, ◌≡◌, true, arith, dec_lt, lt→ltb,
}
use bark_esp.App.Stream.Sample.{
  shift_right, shift_right-half, magnitude, times_sign, convint8, convint8_signed,
}

-- A number of steps of the DAC that is that of a significand, up to one step and a 256th, where a
-- step is so many units of the significand's last place.
abbrev pub Near : ℕ → ℕ → ℕ → Type 0
Near steps significand unit =
    (steps * 2 ^ 16 * unit ≤ significand) × (significand < ((steps + 1) * 2 ^ 16 + 2 ^ 8) * unit)

shifted-Near :
    (k n : ℕ)
    → k ≤ 7
    → 2 ^ 23 ≤ n
    → n < 2 ^ 24
    → Near ((shift_right n k - 2 ^ 8) / 2 ^ 16) n (2 ^ k)
shifted-Near zero n le lo hi = omega arith
shifted-Near (suc zero) n le lo hi = omega arith
shifted-Near (suc (suc zero)) n le lo hi = omega arith
shifted-Near (suc (suc (suc zero))) n le lo hi = omega arith
shifted-Near (suc (suc (suc (suc zero)))) n le lo hi = omega arith
shifted-Near (suc (suc (suc (suc (suc zero))))) n le lo hi = omega arith
shifted-Near (suc (suc (suc (suc (suc (suc zero)))))) n le lo hi = omega arith
shifted-Near (suc (suc (suc (suc (suc (suc (suc zero))))))) n le lo hi = omega arith
shifted-Near (suc (suc (suc (suc (suc (suc (suc (suc k)))))))) n le lo hi = absurd (omega arith)

-- A sample that is too small for a step.
small-Near : (k n : ℕ) → 8 ≤ k → n < 2 ^ 24 → Near 0 n (2 ^ k)
small-Near k n le hi =
    let big : 2 ^ 8 ≤ 2 ^ k = pow-le-pow_right (omega arith) le in omega (arith, big, hi)

magnitude-Near :
    (exp n : ℕ) → exp < 0x7f → 2 ^ 23 ≤ n → n < 2 ^ 24 → Near (magnitude exp n) n (2 ^ (0x7f - exp))
unfolding magnitude
magnitude-Near exp n h lo hi = elim (dec_lt exp 0x78) [
  | yes small ↦ rw (lt→ltb exp 0x78 small) (small-Near (0x7f - exp) n (omega arith) hi)
  | no large ↦
      let half = shift_right-half n (0x7f - exp) (omega arith) in
      let same : magnitude exp n ≡ (shift_right n (0x7f - exp) - 2 ^ 8) / 2 ^ 16 =
        ground (arith, half) in
      rw same (shifted-Near (0x7f - exp) n (omega arith) lo hi)
]

-- A sample that is no less than the least normal number and below 1 becomes a number of steps up to
-- 127, where a step is the 128th part of 1, which is not above the sample and which the sample
-- exceeds by less than one step and a 256th of one; the bits with the sign set become the
-- negative of that number.
pub convint8-Near :
    (bits : ℕ)
    → 0x00800000 ≤ bits
    → bits < 0x3f800000
    → Near (convint8 bits) (bits % 2 ^ 23 + 2 ^ 23) (2 ^ (0x7f - bits / 2 ^ 23))
      × (convint8 bits ≤ 127)
      × (convint8 (bits + 2 ^ 31) ≡ times_sign true (convint8 bits))
unfolding convint8
convint8-Near bits lo hi =
    let near =
      magnitude-Near (bits / 2 ^ 23) (bits % 2 ^ 23 + 2 ^ 23) (omega arith) (omega arith)
        (omega arith) in
    let value : convint8 bits ≡ magnitude (bits / 2 ^ 23) (bits % 2 ^ 23 + 2 ^ 23) = ground arith in
    let (small, signed) = convint8_signed bits hi in (rw value near, small, signed)
