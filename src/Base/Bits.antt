-- ===== src/Base/Bits.antt =====
-- `|` on fields that do not overlap is `+`; each fact is a table checked by evaluation.
use Prim.Native.Nat.{ℕ, zero, suc, ◌+◌, ◌*◌, ◌/◌, ◌<◌, bit_or}
use mathlib.Core.Path.{◌≡◌, refl}
use mathlib.Core.Bool.{Bool, true, ◌&&◌}
use native.Mathlib.Omega.{arith}
use monidroid.Base.Tests.{◌==◌, ==_iff}

all_below : ℕ → (ℕ → Bool) → Bool
all_below zero p = true
all_below (suc n) p = p n && all_below n p

all_below→at : (n : ℕ) (p : ℕ → Bool) (x : ℕ) → all_below n p ≡ true → x < n → p x ≡ true
unfolding all_below
all_below→at zero p x h lt = absurd (omega arith)
all_below→at (suc n) p x h lt = ground (arith, all_below→at n p x)

module _ (f g : ℕ → ℕ → ℕ) (m n : ℕ) where
  agree : Bool
  unfolding all_below
  agree = all_below m λ a. all_below n λ b. f a b == g a b

  agree→eq : agree ≡ true → (a b : ℕ) → a < m → b < n → f a b ≡ g a b
  unfolding agree
  agree→eq h a b ha hb = (==_iff _ _).0 (
      all_below→at n (λ b. f a b == g a b) b
        (all_below→at m (λ a. all_below n λ b. f a b == g a b) a h ha) hb)

-- A high and a low nibble.
pub or_nibbles : (hi lo : ℕ) → hi < 16 → lo < 16 → bit_or (hi * 16) lo ≡ hi * 16 + lo
unfolding agree
or_nibbles = agree→eq (λ hi lo. bit_or (hi * 16) lo) (λ hi lo. hi * 16 + lo) 16 16 refl

-- Two nibbles that stand eight bits up, brought down by 4 and by 8.
pub or_upper_nibbles :
    (hi lo : ℕ) → hi < 16 → lo < 16 → bit_or (hi * 256 / 16) (lo * 256 / 256) ≡ hi * 16 + lo
unfolding agree
or_upper_nibbles =
    agree→eq (λ hi lo. bit_or (hi * 256 / 16) (lo * 256 / 256)) (λ hi lo. hi * 16 + lo) 16 16 refl

-- A two-bit field brought down by 4, between empty fields.
pub or_between_zeros : (x : ℕ) → x < 4 → bit_or (bit_or 0 (x * 16 / 4)) 0 ≡ x * 4
unfolding agree
or_between_zeros x h =
    agree→eq (λ a b. bit_or (bit_or 0 (a * 16 / 4)) 0) (λ a b. a * 4) 4 1 refl x 0 h (omega arith)

-- A low byte and four bits above it.
pub or_above_byte : (lo hi : ℕ) → lo < 256 → hi < 16 → bit_or lo (hi * 256) ≡ lo + hi * 256
unfolding agree
or_above_byte = agree→eq (λ lo hi. bit_or lo (hi * 256)) (λ lo hi. lo + hi * 256) 256 16 refl
