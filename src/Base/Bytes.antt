-- ===== src/Base/Bytes.antt =====
-- Little-endian bytes: the independent description of the words that the protocol carries.
use snapclient.Base.Bits.{bit_or-shifted}
use Prim.Native.Nat.{ℕ, zero, suc, ◌+◌, ◌*◌, ◌/◌, ◌%◌, ◌^◌, ◌<◌, bit_or}
use mathlib.Core.Path.{◌≡◌, refl, ap}
use mathlib.Core.List.{List, [], ◌∷◌}
use native.Mathlib.Omega.{arith}
use snapclient.Base.Lists.{length}

abbrev pub IsByte : ℕ → Type 0
IsByte b = b < 256

-- The `n` lowest bytes of `v`, the lowest first.
abbrev pub le_bytes : ℕ → ℕ → List ℕ
le_bytes zero v = []
le_bytes (suc n) v = (v % 256) ∷ le_bytes n (v / 256)

pub length-le_bytes : (n v : ℕ) → length (le_bytes n v) ≡ n
length-le_bytes zero v = refl
length-le_bytes (suc n) v = ap suc (length-le_bytes n (v / 256))

-- `(b0 & 0xff) | ((b1 & 0xff) << 8)`
abbrev pub join_two : ℕ → ℕ → ℕ
join_two b0 b1 = bit_or (b0 % 256) (b1 % 256 * 2 ^ 8)

-- The same with `(b2 & 0xff) << 16` and `(b3 & 0xff) << 24`.
abbrev pub join_four : ℕ → ℕ → ℕ → ℕ → ℕ
join_four b0 b1 b2 b3 = bit_or (bit_or (join_two b0 b1) (b2 % 256 * 2 ^ 16)) (b3 % 256 * 2 ^ 24)

pub join_two_sum : (b0 b1 : ℕ) → join_two b0 b1 ≡ b0 % 256 + b1 % 256 * 256
join_two_sum b0 b1 = bit_or-shifted 8 (b0 % 256) (b1 % 256) (omega arith)

join_three_sum :
    (b0 b1 b2 : ℕ)
    → bit_or (join_two b0 b1) (b2 % 256 * 2 ^ 16) ≡ b0 % 256 + b1 % 256 * 256 + b2 % 256 * 65536
join_three_sum b0 b1 b2 = omega (
  arith,
  join_two_sum b0 b1,
  bit_or-shifted 16 (join_two b0 b1) (b2 % 256) (omega (arith, join_two_sum b0 b1)),
)

pub join_four_sum :
    (b0 b1 b2 b3 : ℕ)
    → join_four b0 b1 b2 b3 ≡ b0 % 256 + b1 % 256 * 256 + b2 % 256 * 65536 + b3 % 256 * 16777216
join_four_sum b0 b1 b2 b3 = omega (
  arith,
  join_three_sum b0 b1 b2,
  bit_or-shifted 24 (bit_or (join_two b0 b1) (b2 % 256 * 2 ^ 16)) (b3 % 256)
      (omega (arith, join_three_sum b0 b1 b2)),
)

-- Joining the bytes of a word gives it back.
pub join_two-le_bytes : (v : ℕ) → v < 2 ^ 16 → join_two (v % 256) (v / 256 % 256) ≡ v
join_two-le_bytes v h = omega (arith, join_two_sum (v % 256) (v / 256 % 256))

pub join_four-le_bytes :
    (v : ℕ)
    → v < 2 ^ 32
    → join_four (v % 256) (v / 256 % 256) (v / 256 / 256 % 256) (v / 256 / 256 / 256 % 256) ≡ v
join_four-le_bytes v h = omega (
  arith,
  join_four_sum (v % 256) (v / 256 % 256) (v / 256 / 256 % 256) (v / 256 / 256 / 256 % 256),
)
