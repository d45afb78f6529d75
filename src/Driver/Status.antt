-- ===== src/Driver/Status.antt =====
-- The NTSTATUS values that the driver returns.
use monidroid.Base.{ℕ, Bool, true, false}

-- `failure` is any other failure code, from a call of the framework.
pub data Status : Type 0 where
  success buffer_too_small not_found insufficient_resources invalid_parameter : Status
  abandon_swapchain : Status
  failure : ℕ → Status

-- `NT_SUCCESS`
abbrev pub nt_success : Status → Bool
nt_success Status.success = true
nt_success _ = false
