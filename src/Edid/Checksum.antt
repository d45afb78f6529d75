-- ===== src/Edid/Checksum.antt =====
-- What `commit` makes of the block.
use monidroid.Base.{ℕ, ◌+◌, ◌%◌, ◌^◌, ◌<◌, ◌≡◌, refl, ap, arith, List, [], ◌∷◌, ◌++◌, u32}
use monidroid.Edid.Data.{Edid, raw, body_bytes, prefix_bytes}
use monidroid.Edid.Commit.{sum_bytes, checksum_of, commit}

-- The sum of the bytes, with no bound.
unfoldable pub total : List ℕ → ℕ
total [] = 0
total (b ∷ bs) = b + total bs

total-append : (xs ys : List ℕ) → total (xs ++ ys) ≡ total xs + total ys
unfolding total
total-append [] ys = omega arith
total-append (x ∷ xs) ys = omega (arith, total-append xs ys)

sum_bytes-total : (s : ℕ) (bs : List ℕ) → s < 2 ^ 32 → sum_bytes s bs ≡ (s + total bs) % 2 ^ 32
unfolding sum_bytes total
sum_bytes-total s [] h = omega arith
sum_bytes-total s (b ∷ bs) h = omega (arith, sum_bytes-total (u32 (s + b)) bs)

total-one : (x : ℕ) → total (x ∷ []) ≡ x
unfolding total
total-one x = omega arith

checksum_of_lem : (s : ℕ) → s < 2 ^ 32 → (checksum_of s < 256) × ((s + checksum_of s) % 256 ≡ 0)
unfolding checksum_of
checksum_of_lem s h = omega arith

commit-body : (e : Edid) → body_bytes (commit e) ≡ body_bytes e
unfolding commit body_bytes prefix_bytes
commit-body e = refl

-- After `commit` the bytes of the whole block add up to a multiple of 256, the checksum is a byte, and
-- the bytes before it are as they were.
pub commit-total :
    (e : Edid)
    → (total (raw (commit e)) % 256 ≡ 0)
      × ((commit e).checksum < 256)
      × (body_bytes (commit e) ≡ body_bytes e)
unfolding raw commit
commit-total e = (
  omega (
    arith,
    total-append (body_bytes (commit e)) (checksum_of s ∷ []),
    ap total (commit-body e),
    total-one (checksum_of s),
    lem,
    sum_bytes-total 0 (body_bytes e),
  ),
  lem.0,
  commit-body e,
)
  where
    s : ℕ
    s = sum_bytes 0 (body_bytes e)

    lem : (checksum_of s < 256) × ((s + checksum_of s) % 256 ≡ 0)
    lem = checksum_of_lem s (omega (arith, sum_bytes-total 0 (body_bytes e)))
