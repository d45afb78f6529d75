-- ===== src/Native/Elevation.antt =====
-- server/linux/misc.cpp and server/win32/misc.cpp: `checkElevation`; `true` is that it returns, `false` that it
-- throws.
use monidroid.Base.{ℕ, ◌==◌, Bool, false, Option, none, some}

-- On Linux, for the effective user.
unfoldable pub check_elevation_linux : ℕ → Bool
check_elevation_linux euid = euid == 0

-- On Windows: the token of the process, if it opens, with what it says of the elevation, if that is read.
unfoldable pub check_elevation_windows : Option (Option Bool) → Bool
check_elevation_windows none = false
check_elevation_windows (some none) = false
check_elevation_windows (some (some is_elevated)) = is_elevated
