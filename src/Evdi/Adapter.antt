-- ===== src/Evdi/Adapter.antt =====
-- server/linux/evdi.cpp: `adapterConnectMonitor`. `checked` is what `evdi_check_device` says of a device
-- number: whether it is `AVAILABLE`.
use monidroid.Base.{
  ℕ, zero, suc, ◌+◌, ◌-◌, ◌≤◌, ◌<◌, ◌≡◌, ◌⊎◌, inl, inr, refl, ap, sym, subst, arith, Bool, true,
  false, Option, none, some, List, [], ◌∷◌, ◌==◌, if◌then◌else◌,
}
use monidroid.Edid.Data.{MonitorMode}
use monidroid.Evdi.Data.{MonitorContext}
use monidroid.Evdi.Monitor.{alloc_frame_buffer}

-- `DEV_NO_THRESHOLD`
abbrev pub dev_no_threshold : ℕ
dev_no_threshold = 10_000

-- The search for a device from the number `n` on, for at most `fuel` numbers.
unfoldable pub search : (ℕ → Bool) → ℕ → ℕ → ℕ
search checked zero n = n
search checked (suc fuel) n =
    let rest = search checked fuel (n + 1) in if checked n then n else rest

-- `AdapterContext`, whose `lastNumber` is one less than `next_number`.
pub record AdapterContext : Type 0 where
  pub next_number : ℕ

unfoldable pub open_adapter : AdapterContext
open_adapter = record { next_number = 0 }

-- The device number, or `none` for the exception.
unfoldable pub find_device : (ℕ → Bool) → AdapterContext → Option ℕ
unfolding search
find_device checked a =
    let n = search checked (dev_no_threshold - a.next_number) a.next_number in
    if n == dev_no_threshold then none else some n

-- The constructor of `MonitorContext`, and the first frame buffer.
unfoldable pub new_monitor : ℕ → List ℕ → MonitorMode → ℕ → MonitorContext
unfolding alloc_frame_buffer
new_monitor n name info address =
    alloc_frame_buffer
      (record {
        dev_index = n;
        preferred = info;
        current = info;
        enabled = false;
        model_name = name;
        frame_buffer = 0;
        capacity = 0;
        frame_buffer_info = record { buffer = 0; width = 0; height = 0; stride = 0 };
        rects_count = 0;
        reports = [];
      })
      info.width info.height address

unfoldable pub adapter_connect_monitor :
    (ℕ → Bool) → AdapterContext → List ℕ → MonitorMode → ℕ → AdapterContext × Option MonitorContext
unfolding find_device new_monitor
adapter_connect_monitor checked a name info address = elim (find_device checked a) [
  | none ↦ (a, none)
  | some n ↦ (record { next_number = n + 1 }, some (new_monitor n name info address))
]

search_none :
    (checked : ℕ → Bool) (fuel n : ℕ)
    → ((k : ℕ) → n ≤ k → k < n + fuel → checked k ≡ false)
    → search checked fuel n ≡ n + fuel
unfolding search
search_none checked zero n h = omega arith
search_none checked (suc fuel) n h =
    let e = search_none checked fuel (n + 1) (λ k l l'. h k (omega arith) (omega arith)) in
    rw (h n (omega arith) (omega arith), e) (omega arith)

search_found :
    (checked : ℕ → Bool) (fuel n k : ℕ)
    → n ≤ k
    → k < n + fuel
    → checked k ≡ true
    → ((j : ℕ) → n ≤ j → j < k → checked j ≡ false)
    → search checked fuel n ≡ k
unfolding search
search_found checked zero n k l l' f h = absurd (omega arith)
search_found checked (suc fuel) n k l l' f h = elim (eq_or_gt n k l) [
  | inl e ↦ rw (e, f) refl
  | inr g ↦ rw (h n (omega arith) g) (
      search_found checked fuel (n + 1) k (omega arith) (omega arith) f
        (λ j m m'. h j (omega arith) m'))
]
  where
    eq_or_gt : (n k : ℕ) → n ≤ k → (n ≡ k) ⊎ (n < k)
    eq_or_gt n k l = grind arith

find_device-none :
    (checked : ℕ → Bool) (a : AdapterContext)
    → a.next_number ≤ dev_no_threshold
    → ((k : ℕ) → a.next_number ≤ k → k < dev_no_threshold → checked k ≡ false)
    → find_device checked a ≡ none
unfolding find_device
find_device-none checked a h f =
    let e =
      search_none checked (dev_no_threshold - a.next_number) a.next_number
        (λ k l l'. f k l (omega arith)) in
    ground (arith, e)

find_device-some :
    (checked : ℕ → Bool) (a : AdapterContext) (k : ℕ)
    → a.next_number ≤ k
    → k < dev_no_threshold
    → checked k ≡ true
    → ((j : ℕ) → a.next_number ≤ j → j < k → checked j ≡ false)
    → find_device checked a ≡ some k
unfolding find_device
find_device-some checked a k l l' f h =
    let e =
      search_found checked (dev_no_threshold - a.next_number) a.next_number k l (omega arith) f h in
    rw e (ground arith)

connects :
    (checked : ℕ → Bool) (a : AdapterContext) (name : List ℕ) (info : MonitorMode) (address : ℕ)
    (o : Option ℕ)
    → find_device checked a ≡ o
    → adapter_connect_monitor checked a name info address ≡ elim o [
      | none ↦ (a, none)
      | some n ↦ (record { next_number = n + 1 }, some (new_monitor n name info address))
    ]
unfolding adapter_connect_monitor
connects checked a name info address o e = rw (e, adapter_connect_monitor) refl

-- The device of a new monitor is the first available one after the device of the last monitor, below the
-- threshold; the connection fails exactly when none of them is available, and then changes nothing. The
-- next monitor's device has a greater number.
pub adapter_connect_monitor_first :
    (checked : ℕ → Bool) (a : AdapterContext) (name : List ℕ) (info : MonitorMode) (address : ℕ)
    → a.next_number ≤ dev_no_threshold
    → let (a', m) = adapter_connect_monitor checked a name info address in
      (((k : ℕ) → a.next_number ≤ k → k < dev_no_threshold → checked k ≡ false)
        → (m ≡ none) × (a' ≡ a))
      × ((k : ℕ)
          → a.next_number ≤ k
          → k < dev_no_threshold
          → checked k ≡ true
          → ((j : ℕ) → a.next_number ≤ j → j < k → checked j ≡ false)
          → (m ≡ some (new_monitor k name info address))
            × (a'.next_number ≡ k + 1)
            × (a'.next_number ≤ dev_no_threshold))
adapter_connect_monitor_first checked a name info address h = (
  λ f.
      let e = connects checked a name info address none (find_device-none checked a h f) in
      (
        ap (λ (x : AdapterContext × Option MonitorContext). x.1) e,
        ap (λ (x : AdapterContext × Option MonitorContext). x.0) e,
      ),
  λ k l l' f s.
      let e =
        connects checked a name info address (some k) (find_device-some checked a k l l' f s) in
      (
        ap (λ (x : AdapterContext × Option MonitorContext). x.1) e,
        ap (λ (x : AdapterContext × Option MonitorContext). x.0.next_number) e,
        subst (λ n. n ≤ dev_no_threshold)
            (sym (ap (λ (x : AdapterContext × Option MonitorContext). x.0.next_number) e))
            (omega arith),
      ),
)

-- `videoHealthCheck`: the version of the module, if it is loaded, the status of `modprobe`, and the version
-- that is read after it. `none` is the exception.
unfoldable pub video_health_check : Option (List ℕ) → ℕ → List ℕ → Option (List ℕ)
video_health_check (some version) status reread = some version
video_health_check none status reread = if status == 0 then some reread else none

-- What `monitorDisconnect` does to a monitor: its handle, its card and its input device are given back, each
-- that it has once.
pub data Release : Type 0 where
  close_handle : ℕ → Release
  remove_card : ℕ → Release
  destroy_input : ℕ → Release

unfoldable pub monitor_disconnect : (handle dev_index : ℕ) → (uinput : Option ℕ) → List Release
monitor_disconnect handle dev_index none = close_handle handle ∷ remove_card dev_index ∷ []
monitor_disconnect handle dev_index (some u) =
    close_handle handle ∷ remove_card dev_index ∷ destroy_input u ∷ []
