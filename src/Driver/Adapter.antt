-- ===== src/Driver/Adapter.antt =====
-- iddcx-driver/Adapter.cpp, and the callbacks of iddcx-driver/Main.cpp that call it: the slots of the
-- adapter and the commands of the server. Monitors are named by the handles that the framework gives.
pub mod Slots
pub mod Validity
use mathlib.Core.Option
use monidroid.Base.{
  ℕ, zero, suc, ◌+◌, Bool, true, false, not, Option, none, some, List, [], ◌∷◌, ◌++◌, get_elem?,
  set, replicate, length, leb, ◌==◌, if◌then◌else◌,
}
use monidroid.Edid.Data.{MonitorMode, raw}
use monidroid.Edid.Custom.{custom_edid}
use monidroid.Edid.Mode.{Doubles, set_default_mode}
use monidroid.Edid.Commit.{commit}
use monidroid.Driver.Status.{Status, nt_success}
use monidroid.Driver.Monitor.{
  MonitorContext, new_monitor, setup_monitor, commit_mode, IddcxPath, FrameMonitorInfo, RequestEnd,
  Hresult, request_frame,
}

-- `MAX_MONITOR_COUNT`
abbrev pub max_monitor_count : ℕ
max_monitor_count = 16

-- A slot of `connectedMonitors` is `none` for null. `monitors` has the contexts of the handles, newest
-- first.
pub record AdapterContext : Type 0 where
  pub connected_monitors : List (Option ℕ)
  pub monitors : List (ℕ × MonitorContext)

unfoldable pub new_adapter : AdapterContext
new_adapter = record { connected_monitors = replicate max_monitor_count none; monitors = [] }

unfoldable pub find_monitor : ℕ → List (ℕ × MonitorContext) → Option MonitorContext
find_monitor h [] = none
find_monitor h ((k, m) ∷ ms) = if k == h then some m else find_monitor h ms

unfoldable pub put_monitor :
    ℕ → MonitorContext → List (ℕ × MonitorContext) → List (ℕ × MonitorContext)
put_monitor h m ms = (h, m) ∷ ms

-- The two searches: the first empty slot, and the first slot with a handle; the number of slots if there is
-- none. Then the loops of the source have read one slot past the end of the array, which is undefined.
unfoldable pub empty_slot : List (Option ℕ) → ℕ
empty_slot [] = 0
empty_slot (none ∷ xs) = 0
empty_slot (some h ∷ xs) = empty_slot xs + 1

unfoldable pub holds : ℕ → Option ℕ → Bool
holds h none = false
holds h (some k) = k == h

unfoldable pub slot_of : ℕ → List (Option ℕ) → ℕ
unfolding holds
slot_of h [] = 0
slot_of h (x ∷ xs) = if holds h x then 0 else slot_of h xs + 1

-- `ADAPTER_MONITOR_INFO`, without the socket and the process.
pub record AdapterMonitorInfo : Type 0 where
  pub width : ℕ
  pub height : ℕ
  pub hertz : ℕ
  pub connector_index : ℕ
  pub adapter_luid : ℕ

-- What the framework answers: the handle of the created monitor or a failure, and then the LUID of the
-- arrival or a failure.
pub record Framework : Type 0 where
  pub created : Option ℕ
  pub create_status : ℕ
  pub arrived : Option ℕ
  pub arrival_status : ℕ

-- What the call returns, and the EDID block that it described the monitor with, if it came so far.
pub record Connected : Type 0 where
  pub adapter : AdapterContext
  pub info : AdapterMonitorInfo
  pub status : Status
  pub description : Option (List ℕ)

unfoldable pub with_monitor : AdapterContext → ℕ → ℕ → AdapterMonitorInfo → AdapterContext
unfolding put_monitor
with_monitor a idx h info = record {
  connected_monitors = set a.connected_monitors idx (some h);
  monitors =
      put_monitor h (setup_monitor (new_monitor h) info.width info.height info.hertz) a.monitors;
}

-- The end of `ConnectMonitor`, for the slot `idx` and the new handle `h`.
unfoldable pub plug_in :
    AdapterContext → AdapterMonitorInfo → ℕ → ℕ → Framework → List ℕ → Connected
unfolding with_monitor
plug_in a info idx h f edid =
    let a' = with_monitor a idx h info in
    elim f.arrived [
      | none ↦ record {
        adapter = a';
        info = info;
        status = Status.failure f.arrival_status;
        description = some edid;
      }
      | some luid ↦ record {
        adapter = a';
        info = record info { connector_index = idx; adapter_luid = luid };
        status = Status.success;
        description = some edid;
      }
    ]

-- `none` where all slots are taken, and the search reads past them.
unfoldable pub connect_monitor :
    Doubles → AdapterContext → AdapterMonitorInfo → Framework → Option Connected
unfolding plug_in empty_slot
connect_monitor d a info f =
    let idx = empty_slot a.connected_monitors in
    let edid = raw (commit (set_default_mode d custom_edid info.width info.height info.hertz)) in
    if idx == max_monitor_count then none else elim f.created [
      | none ↦ some (record {
        adapter = a;
        info = info;
        status = Status.failure f.create_status;
        description = some edid;
      })
      | some h ↦ some (plug_in a info idx h f edid)
    ]

-- `DisconnectMonitor`, with the status that the departure gets; `none` where the slot's index, which is not
-- checked, is out of range.
unfoldable pub disconnect_monitor : AdapterContext → ℕ → Status → Option (AdapterContext × Status)
disconnect_monitor a idx departure = elim (get_elem? a.connected_monitors idx) [
  | none ↦ none
  | some none ↦ some (a, Status.not_found)
  | some (some h) ↦
      some (record a { connected_monitors = set a.connected_monitors idx none }, departure)
]

-- `CommitMode` of a path; `none` where no slot has its monitor, and the search reads past them, where the
-- monitor has no context, and where the commit is undefined.
unfoldable pub commit_path : AdapterContext → IddcxPath → Option (AdapterContext × Status)
unfolding slot_of find_monitor put_monitor
commit_path a p =
    if slot_of p.monitor_object a.connected_monitors == max_monitor_count
    then none
    else elim (find_monitor p.monitor_object a.monitors) [
      | none ↦ none
      | some m ↦ elim (commit_mode m p) [
        | none ↦ none
        | some m' ↦
            some
              (record a { monitors = put_monitor p.monitor_object m' a.monitors }, Status.success)
      ]
    ]

-- `MdEvtAdapterCommitModes`
unfoldable pub commit_modes : AdapterContext → List IddcxPath → Option (AdapterContext × Status)
unfolding commit_path
commit_modes a [] = some (a, Status.success)
commit_modes a (p ∷ ps) = elim (commit_path a p) [
  | none ↦ none
  | some (a', status) ↦
      let rest = commit_modes a' ps in if nt_success status then rest else some (a', status)
]

-- `FrameRequest`; `none` where the slot's index is out of range or the slot is empty.
unfoldable pub frame_request :
    AdapterContext
    → ℕ
    → FrameMonitorInfo
    → RequestEnd
    → Option (AdapterContext × FrameMonitorInfo × Hresult)
unfolding find_monitor put_monitor
frame_request a idx info end = elim (get_elem? a.connected_monitors idx) [
  | none ↦ none
  | some none ↦ none
  | some (some h) ↦ elim (find_monitor h a.monitors) [
    | none ↦ none
    | some m ↦
        let (m', info', hr) = request_frame m info end in
        some (record a { monitors = put_monitor h m' a.monitors }, info', hr)
  ]
]
