-- ===== src/Edid/Commit.antt =====
-- common/monidroid/edid.h: `EDID::commit`.
use monidroid.Base.{ℕ, ◌+◌, ◌-◌, ◌*◌, ◌/◌, ◌^◌, List, [], ◌∷◌, u8, u32}
use monidroid.Edid.Data.{Edid, body_bytes}

-- The loop over the 127 bytes before the checksum; `sum` is an `unsigned int`.
unfoldable pub sum_bytes : ℕ → List ℕ → ℕ
sum_bytes sum [] = sum
sum_bytes sum (b ∷ bs) = sum_bytes (u32 (sum + b)) bs

-- `round = (sum + 0x100) & ~0xFF`, and the difference cut to a byte.
unfoldable pub checksum_of : ℕ → ℕ
checksum_of sum = let round : ℕ = u32 (sum + 0x100) / 256 * 256 in u8 (u32 (round + 2 ^ 32 - sum))

unfoldable pub commit : Edid → Edid
commit e = record e { checksum = checksum_of (sum_bytes 0 (body_bytes e)) }
