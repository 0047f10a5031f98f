-- ===== src/Base/Codes.antt =====
-- `result |= f(&state)`: steps that change a state and return an int, 0 for success.
use Prim.Native.Nat.{ℕ, bit_or}
use mathlib.Core.Path.{◌≡◌}

abbrev pub Step {ℓ} : Type ℓ → Type ℓ
Step S = S → ℕ × S

-- `int result = 0;`
abbrev pub done {ℓ} : {S : Type ℓ} → Step S
done s = (0, s)

infixl 6 ◌|=◌
abbrev pub ◌|=◌ {ℓ} : {S : Type ℓ} → Step S → Step S → Step S
◌|=◌ f g s = let (r, s') = f s in let (r', s'') = g s' in (bit_or r r', s'')

-- Steps that succeed one after the other succeed together.
pub |=-succeeds {ℓ} :
    {S : Type ℓ} (f g : Step S) {a b c : S} → f a ≡ (0, b) → g b ≡ (0, c) → (f |= g) a ≡ (0, c)
|=-succeeds f g p q = rw (p, q)
