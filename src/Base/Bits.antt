-- ===== src/Base/Bits.antt =====
-- The bitwise `or` at variables: its law for the lowest digit, and that of two numbers with no
-- digit in common, such as a byte and a shifted byte, it is the sum.
use Prim.Native.Nat.{
  ℕ, zero, suc, ◌+◌, ◌*◌, ◌/◌, ◌%◌, ◌^◌, ◌≤◌, ◌<◌, max, bit_or, digits, bit_or-bitwise,
}
use mathlib.Core.Path.{◌≡◌, refl, ap, ap₂, sym, ◌∙◌}
use native.Mathlib.Omega.{arith}
use native.Mathlib.Nat.{pow-suc, mul_assoc}

-- The digit recursion that `bit_or` stands for, on any count of digits that is enough.
abbrev or_digits : ℕ → ℕ → ℕ → ℕ
or_digits n a b = digits (λ b. b) max n a b

or_digits_fuel : (n m a b : ℕ) → a ≤ n → a ≤ m → or_digits n a b ≡ or_digits m a b
or_digits_fuel zero zero a b p q = refl
or_digits_fuel zero (suc m) zero b p q = refl
or_digits_fuel zero (suc m) (suc a) b p q = absurd (omega arith)
or_digits_fuel (suc n) zero zero b p q = refl
or_digits_fuel (suc n) zero (suc a) b p q = absurd (omega arith)
or_digits_fuel (suc n) (suc m) zero b p q = refl
or_digits_fuel (suc n) (suc m) (suc a) b p q =
    omega (arith, or_digits_fuel n m (suc a / 2) (b / 2) (omega arith) (omega arith))

pub zero-bit_or : (b : ℕ) → bit_or 0 b ≡ b
zero-bit_or b = bit_or-bitwise 0 b

-- The lowest digit, and the rest.
pub bit_or_step : (a b : ℕ) → bit_or a b ≡ bit_or (a / 2) (b / 2) * 2 + max (a % 2) (b % 2)
bit_or_step zero b = omega (arith, zero-bit_or b, zero-bit_or (b / 2))
bit_or_step (suc a) b = omega (
  arith,
  bit_or-bitwise (suc a) b,
  bit_or-bitwise (suc a / 2) (b / 2),
  or_digits_fuel a (suc a / 2) (suc a / 2) (b / 2) (omega arith) (omega arith),
)

pow_up : (b k : ℕ) → b * 2 ^ suc k ≡ b * 2 ^ k * 2
pow_up b k = rw (pow-suc 2 k) (sym (mul_assoc b (2 ^ k) 2))

halve_twice : (n : ℕ) → n * 2 / 2 ≡ n
halve_twice n = omega arith

bit_or_twice : (a n : ℕ) → bit_or a (n * 2) ≡ bit_or (a / 2) n * 2 + a % 2
bit_or_twice a n = omega (arith, bit_or_step a (n * 2), ap (bit_or (a / 2)) (halve_twice n))

-- Below bit `k` one number has all its digits, and the other has none.
pub bit_or-shifted : (k a b : ℕ) → a < 2 ^ k → bit_or a (b * 2 ^ k) ≡ a + b * 2 ^ k
bit_or-shifted zero zero b h = omega (arith, zero-bit_or (b * 2 ^ 0))
bit_or-shifted zero (suc a) b h = absurd (omega arith)
bit_or-shifted (suc k) a b h = rw (pow_up b k) (
    bit_or_twice a (b * 2 ^ k)
    ∙ omega (arith, bit_or-shifted k (a / 2) b (omega (arith, pow-suc 2 k))))

mul-one : (a : ℕ) → a * 2 ^ 0 + 0 ≡ a
mul-one a = omega arith

-- Two numbers split at bit `k`: the `or` is that of the upper and that of the lower parts.
pub bit_or_split :
    (k a r b s : ℕ)
    → r < 2 ^ k
    → s < 2 ^ k
    → bit_or (a * 2 ^ k + r) (b * 2 ^ k + s) ≡ bit_or a b * 2 ^ k + bit_or r s
bit_or_split zero a zero b zero hr hs = rw (mul-one a, mul-one b) (omega (arith, zero-bit_or 0))
bit_or_split zero a (suc r) b s hr hs = absurd (omega arith)
bit_or_split zero a zero b (suc s) hr hs = absurd (omega arith)
bit_or_split (suc k) a r b s hr hs =
    let p = pow_up a k in
    let q = pow_up b k in
    let t = pow_up (bit_or a b) k in
    let x : (a * 2 ^ suc k + r) / 2 ≡ a * 2 ^ k + r / 2 = omega arith in
    let y : (b * 2 ^ suc k + s) / 2 ≡ b * 2 ^ k + s / 2 = omega arith in
    let ih =
      bit_or_split k a (r / 2) b (s / 2) (omega (arith, pow-suc 2 k))
        (omega (arith, pow-suc 2 k)) in
    bit_or_step (a * 2 ^ suc k + r) (b * 2 ^ suc k + s)
    ∙ rw (x, y, ih) (omega (arith, bit_or_step r s))

bit_or-zero_fuel : (n a : ℕ) → a ≤ n → bit_or a 0 ≡ a
bit_or-zero_fuel n zero h = zero-bit_or 0
bit_or-zero_fuel zero (suc a) h = absurd (omega arith)
bit_or-zero_fuel (suc n) (suc a) h =
    omega (arith, bit_or_step (suc a) 0, bit_or-zero_fuel n (suc a / 2) (omega arith))

pub bit_or-zero : (a : ℕ) → bit_or a 0 ≡ a
bit_or-zero a = bit_or-zero_fuel a a (omega arith)

-- A number with no digit below bit `k`, and one with none from it on.
pub bit_or_high : (k a r : ℕ) → r < 2 ^ k → bit_or (a * 2 ^ k) r ≡ a * 2 ^ k + r
bit_or_high k a r h =
    let x : a * 2 ^ k ≡ a * 2 ^ k + 0 = omega arith in
    let y : r ≡ 0 * 2 ^ k + r = omega arith in
    ap₂ bit_or x y
    ∙ bit_or_split k a 0 0 r (omega arith) h
    ∙ ap₂ (λ (m n : ℕ). m * 2 ^ k + n) (bit_or-zero a) (zero-bit_or r)
