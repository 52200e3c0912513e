-- ===== src/Common/Bits.antt =====
-- `|` as a sum, of a number that ends in k zero bits and one that fits k bits; and `&` with a mask of
-- k low bits.
use Prim.Native.Nat.{
  ℕ, zero, suc, ◌+◌, ◌*◌, ◌/◌, ◌%◌, ◌^◌, ◌≤◌, ◌<◌, ◌-◌, max, min, bit_or, bit_and, digits,
  bit_or-bitwise, bit_and-bitwise,
}
use mathlib.Core.Path.{◌≡◌, refl, ap, ◌∙◌}
use native.Mathlib.Nat.{pow-suc, one-le-pow}
use native.Mathlib.Omega.{arith}

-- The digits of `a | r`, with enough fuel for `a`.
or_digits :
    (fuel k q a r : ℕ) → a ≡ q * 2 ^ k → a ≤ fuel → r < 2 ^ k → digits (λ b. b) max fuel a r ≡ a + r
or_digits zero k q zero r e h l = omega arith
or_digits zero k q (suc a) r e h l = absurd (omega arith)
or_digits (suc fuel) k q zero r e h l = omega arith
or_digits (suc fuel) zero q (suc a) r e h l = omega (
  arith,
  or_digits fuel 0 (suc a / 2) (suc a / 2) (r / 2) (omega arith) (omega arith) (omega arith),
)
or_digits (suc fuel) (suc k) q (suc a) r e h l =
    let double : q * 2 ^ suc k ≡ 2 * (q * 2 ^ k) =
      omega (arith, ap (λ (t : ℕ). q * t) (pow-suc 2 k)) in
    omega (
      arith,
      pow-suc 2 k,
      or_digits fuel k q (suc a / 2) (r / 2) (omega arith) (omega arith)
          (omega (arith, pow-suc 2 k)),
    )

-- `(q << k) | r` is a sum when `r` fits `k` bits.
pub bit_or-shifted : (k q r : ℕ) → r < 2 ^ k → bit_or (q * 2 ^ k) r ≡ q * 2 ^ k + r
bit_or-shifted k q r l =
    bit_or-bitwise (q * 2 ^ k) r ∙ or_digits (q * 2 ^ k) k q (q * 2 ^ k) r refl (omega arith) l

or_digits_low :
    (fuel k q a r : ℕ) → a ≡ q * 2 ^ k → r ≤ fuel → r < 2 ^ k → digits (λ b. b) max fuel r a ≡ a + r
or_digits_low zero k q a zero e h l = omega arith
or_digits_low zero k q a (suc r) e h l = absurd (omega arith)
or_digits_low (suc fuel) k q a zero e h l = omega arith
or_digits_low (suc fuel) zero q a (suc r) e h l = absurd (omega arith)
or_digits_low (suc fuel) (suc k) q a (suc r) e h l =
    let double : q * 2 ^ suc k ≡ 2 * (q * 2 ^ k) =
      omega (arith, ap (λ (t : ℕ). q * t) (pow-suc 2 k)) in
    omega (
      arith,
      pow-suc 2 k,
      or_digits_low fuel k q (a / 2) (suc r / 2) (omega arith) (omega arith)
          (omega (arith, pow-suc 2 k)),
    )

-- The same with the operands the other way round.
pub bit_or-low : (k q r : ℕ) → r < 2 ^ k → bit_or r (q * 2 ^ k) ≡ q * 2 ^ k + r
bit_or-low k q r l =
    bit_or-bitwise r (q * 2 ^ k) ∙ or_digits_low r k q (q * 2 ^ k) r refl (omega arith) l

and_digits :
    (fuel k q a r : ℕ)
    → a ≡ q * 2 ^ k + r
    → a ≤ fuel
    → r < 2 ^ k
    → digits (λ b. 0) min fuel a (2 ^ k - 1) ≡ r
and_digits zero k q zero r e h l = omega arith
and_digits zero k q (suc a) r e h l = absurd (omega arith)
and_digits (suc fuel) k q zero r e h l = omega arith
and_digits (suc fuel) zero q (suc a) r e h l =
    omega
      (arith, and_digits fuel 0 (suc a / 2) (suc a / 2) 0 (omega arith) (omega arith) (omega arith))
and_digits (suc fuel) (suc k) q (suc a) r e h l =
    let double : q * 2 ^ suc k ≡ 2 * (q * 2 ^ k) =
      omega (arith, ap (λ (t : ℕ). q * t) (pow-suc 2 k)) in
    let half : (2 ^ suc k - 1) / 2 ≡ 2 ^ k - 1 = omega (arith, pow-suc 2 k, one-le-pow k 2) in
    let odd : (2 ^ suc k - 1) % 2 ≡ 1 = omega (arith, pow-suc 2 k, one-le-pow k 2) in
    let rest : digits (λ b. 0) min fuel (suc a / 2) (2 ^ k - 1) ≡ r / 2 =
      and_digits fuel k q (suc a / 2) (r / 2) (omega arith) (omega arith)
        (omega (arith, pow-suc 2 k)) in
    rw (half, odd, rest) (omega arith)

-- A mask of `k` ones keeps the low `k` bits.
pub bit_and-mask : (k q r : ℕ) → r < 2 ^ k → bit_and (q * 2 ^ k + r) (2 ^ k - 1) ≡ r
bit_and-mask k q r l =
    bit_and-bitwise (q * 2 ^ k + r) (2 ^ k - 1)
    ∙ and_digits (q * 2 ^ k + r) k q (q * 2 ^ k + r) r refl (omega arith) l

and_digits_le : (fuel a b : ℕ) → digits (λ b. 0) min fuel a b ≤ b
and_digits_le zero a b = omega arith
and_digits_le (suc fuel) zero b = omega arith
and_digits_le (suc fuel) (suc a) b = omega (arith, and_digits_le fuel (suc a / 2) (b / 2))

pub bit_and_le : (a b : ℕ) → bit_and a b ≤ b
bit_and_le a b = omega (arith, bit_and-bitwise a b, and_digits_le a a b)
