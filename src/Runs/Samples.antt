-- ===== src/Runs/Samples.antt =====
-- The inputs that the runs share.
use native.Mathlib.Omega.{arith}
use monidroid.Base.{ℕ, ◌+◌, ◌-◌, ◌*◌, ◌/◌, ◌%◌, ◌^◌, ◌<◌, List, [], ◌∷◌, none, false}
use monidroid.Edid.Mode.{Doubles}
use monidroid.Edid.Data.{MonitorMode}
use monidroid.Client.Data.{Client, new}

abbrev pub below : (n : ℕ) → n % 2 ^ 32 < 2 ^ 32
below n = omega arith

-- Numbers in units of a thousandth of a millionth, rounded down.
abbrev pub fixed_point : Doubles
fixed_point = record {
  Double = ℕ;
  of_int = λ n. n * 1_000_000_000;
  of_u32 = λ n. n * 1_000_000_000;
  add = λ a b. a + b;
  sub = λ a b. a - b;
  mul = λ a b. a * b / 1_000_000_000;
  div = λ a b. a * 1_000_000_000 / b;
  ceil = λ a. (a + 999_999_999) / 1_000_000_000 * 1_000_000_000;
  to_u32 = λ a. a / 1_000_000_000 % 2 ^ 32;
  to_u32-lt = λ a. below (a / 1_000_000_000);
}

-- A client that has said nothing yet, and one that streams.
abbrev pub fresh : Client
fresh = record {
  state = new;
  net_buffer = [];
  preffered = record { width = 0; height = 0; refresh_rate = 0 };
  model_name = [];
  is_usb = false;
  monitor = none;
  sent = [];
  shut = false;
}

-- "Pixel", and "Pix" and "el".
abbrev pub pixel : List ℕ
pixel = b'P' ∷ b'i' ∷ b'x' ∷ b'e' ∷ b'l' ∷ []

abbrev pub pix : List ℕ
pix = b'P' ∷ b'i' ∷ b'x' ∷ []

abbrev pub el : List ℕ
el = b'e' ∷ b'l' ∷ []

abbrev pub full_hd : MonitorMode
full_hd = record { width = 1920; height = 1080; refresh_rate = 60 }
