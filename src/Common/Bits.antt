-- ===== src/Common/Bits.antt =====
-- The exclusive or of numbers of a given width, and that it undoes itself.
use Prim.Native.Nat.{ℕ, zero, suc, ◌+◌, ◌*◌, ◌/◌, ◌%◌, ◌<◌}
use mathlib.Core.Path.{◌≡◌, ap₂, ◌∙◌}
use native.Mathlib.Omega.{arith}

-- `^` on numbers of a given width
unfoldable pub xor : (width a b : ℕ) → ℕ
xor zero a b = 0
xor (suc width) a b = (a % 2 + b % 2) % 2 + 2 * xor width (a / 2) (b / 2)

abbrev pub two_to : ℕ → ℕ
two_to zero = 1
two_to (suc n) = 2 * two_to n

low_bit : (r x : ℕ) → r < 2 → ((r + 2 * x) % 2 ≡ r) × ((r + 2 * x) / 2 ≡ x)
low_bit r x h = (omega (arith, h), omega (arith, h))

bit-cancels : (a b : ℕ) → ((a % 2 + b % 2) % 2 + b % 2) % 2 ≡ a % 2
bit-cancels a b = omega arith

halves : (a : ℕ) → a % 2 + 2 * (a / 2) ≡ a
halves a = omega arith

pub xor-cancels : (width a b : ℕ) → a < two_to width → xor width (xor width a b) b ≡ a
unfolding xor
xor-cancels zero a b h = omega (arith, h)
xor-cancels (suc width) a b h =
    let x = xor width (a / 2) (b / 2) in
    let low = low_bit ((a % 2 + b % 2) % 2) x (omega arith) in
    ap₂ (λ m n. (m + b % 2) % 2 + 2 * xor width n (b / 2)) low.0 low.1
    ∙ ap₂ (λ m n. m + 2 * n) (bit-cancels a b)
        (xor-cancels width (a / 2) (b / 2) (omega (arith, h)))
    ∙ halves a
