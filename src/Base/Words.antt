-- ===== src/Base/Words.antt =====
-- Machine integers as native numbers. A signed `int` is its bit pattern below 2 ^ 32. The hosts the
-- program runs on store the low byte first.
use Prim.Native.Nat.{ℕ, ◌+◌, ◌*◌, ◌/◌, ◌%◌, ◌^◌, ◌≤◌, ◌<◌}
use mathlib.Core.Path.{◌≡◌}
use mathlib.Core.Bool.{Bool, ◌&&◌}
use mathlib.Core.List.{List, [], ◌∷◌, ◌++◌}
use native.Mathlib.Omega.{arith}
use monidroid.Base.Tests.{ltb}
use monidroid.Base.Lists.{length, get_or, get_or-append_of_lt, All}

abbrev pub u8 : ℕ → ℕ
u8 n = n % 256

abbrev pub u16 : ℕ → ℕ
u16 n = n % 2 ^ 16

abbrev pub u32 : ℕ → ℕ
u32 n = n % 2 ^ 32

abbrev pub IsByte : ℕ → Type 0
IsByte b = b < 256

-- `x > 0` for an `int`.
abbrev pub int_pos : ℕ → Bool
int_pos w = ltb 0 w && ltb w (2 ^ 31)

-- The four bytes of an `int`, as `asio::buffer((void*)&x, sizeof(x))` sends them.
unfoldable pub int_bytes : ℕ → List ℕ
int_bytes w = w % 256 ∷ w / 256 % 256 ∷ w / 2 ^ 16 % 256 ∷ w / 2 ^ 24 % 256 ∷ []

-- `*reinterpret_cast<int*>(p + at)`.
unfoldable pub int_at : List ℕ → ℕ → ℕ
int_at p at =
    get_or p at 0
    + get_or p (at + 1) 0 * 256
    + get_or p (at + 2) 0 * 2 ^ 16
    + get_or p (at + 3) 0 * 2 ^ 24

pub int_at-int_bytes : (w : ℕ) (rest : List ℕ) → w < 2 ^ 32 → int_at (int_bytes w ++ rest) 0 ≡ w
unfolding int_at int_bytes
int_at-int_bytes w rest h = omega arith

pub length-int_bytes : (w : ℕ) → length (int_bytes w) ≡ 4
unfolding int_bytes
length-int_bytes w = omega arith

pub int_bytes-IsByte : (w : ℕ) → All IsByte (int_bytes w)
unfolding int_bytes
int_bytes-IsByte w = omega arith

-- Bytes that follow do not change an `int` that is there.
pub int_at-append :
    (p more : List ℕ) (at : ℕ) → at + 4 ≤ length p → int_at (p ++ more) at ≡ int_at p at
unfolding int_at
int_at-append p more at h = rw (
  get_or-append_of_lt p more at 0 (omega arith),
  get_or-append_of_lt p more (at + 1) 0 (omega arith),
  get_or-append_of_lt p more (at + 2) 0 (omega arith),
  get_or-append_of_lt p more (at + 3) 0 (omega arith),
)
