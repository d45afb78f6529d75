-- ===== src/Iddcx/Handles.antt =====
-- server/win32/iddcx.cpp: the handles that the Windows server holds, of the adapter and of the driver's process.
use monidroid.Base.{
  ℕ, zero, suc, ◌+◌, ◌-◌, ◌≡◌, refl, ◌∙◌, subst, arith, Bool, true, false, Option, none, some, List,
  [], ◌∷◌, length, if◌then◌else◌, Bool-cases, Option-cases, inl, inr,
}
use monidroid.Edid.Data.{MonitorMode}
use monidroid.Edid.Mode.{Doubles}
use monidroid.Driver.Status.{Status}
use monidroid.Driver.Monitor.{Hresult}
use monidroid.Driver.Adapter.{AdapterContext}
use monidroid.Iddcx.{MonitorContext}
use monidroid.Iddcx.Connect.{ConnectCalls, adapter_connect_monitor, monitor_disconnect}

-- The server's adapter, which is open or not, its monitors, newest first, and its open handles; and the
-- driver's adapter.
pub record Process : Type 0 where
  pub driver : AdapterContext
  pub opened : Bool
  pub monitors : List MonitorContext
  pub handles : ℕ

unfoldable pub new_process : AdapterContext → Process
new_process a = record { driver = a; opened = false; monitors = []; handles = 0 }

-- `openAdapter`, by whether `CreateFileW` succeeds, and `~AdapterContext`.
unfoldable pub open_adapter : Bool → Process → Process
open_adapter opens p = if opens then record p { opened = true; handles = p.handles + 1 } else p

unfoldable pub close_adapter : Process → Process
close_adapter p = if p.opened then record p { opened = false; handles = p.handles - 1 } else p

-- `~MonitorContext`. The handle of the own process is a constant, and closing it does nothing.
unfoldable pub close_monitor : Process → Process
close_monitor p = record p { handles = p.handles - 1 }

-- `adapterConnectMonitor`, whose monitor has opened the driver's process. A null adapter is undefined.
unfoldable pub connect :
    Doubles → (Hresult → ℕ) → List ℕ → MonitorMode → ConnectCalls → Process → Option Process
connect d code model mode c p =
    let r = adapter_connect_monitor d code p.driver model mode c in
    if p.opened
    then elim r [
      | none ↦ none
      | some (a, none) ↦ some (record p { driver = a })
      | some (a, some m) ↦
          some (record p { driver = a; monitors = m ∷ p.monitors; handles = p.handles + 1 })
    ]
    else none

-- The monitor at a position, and the others.
unfoldable pub take_out : ℕ → List MonitorContext → Option (MonitorContext × List MonitorContext)
take_out i [] = none
take_out zero (m ∷ ms) = some (m, ms)
take_out (suc i) (m ∷ ms) = elim (take_out i ms) [ none ↦ none | some (k, ks) ↦ some (k, m ∷ ks) ]

unfoldable pub driver_of : Process → Option AdapterContext
driver_of p = if p.opened then some p.driver else none

-- `monitorDisconnect` of one of them, which ends by freeing it. A null monitor is undefined.
unfoldable pub disconnect : Doubles → (Hresult → ℕ) → ℕ → Status → Process → Option Process
unfolding take_out driver_of close_monitor
disconnect d code i departure p = elim (take_out i p.monitors) [
  | none ↦ none
  | some (m, ms) ↦ elim (monitor_disconnect d code (driver_of p) m departure) [
    | none ↦ none
    | some none ↦ some (close_monitor (record p { monitors = ms }))
    | some (some a) ↦ some (close_monitor (record p { driver = a; monitors = ms }))
  ]
]

-- The calls of the server.
pub data Call : Type 0 where
  connects : List ℕ → MonitorMode → ConnectCalls → Call
  disconnects : ℕ → Status → Call

unfoldable pub all_calls : Doubles → (Hresult → ℕ) → List Call → Process → Option Process
unfolding connect disconnect
all_calls d code [] p = some p
all_calls d code (connects model mode c ∷ cs) p = elim (connect d code model mode c p) [
  | none ↦ none
  | some q ↦ all_calls d code cs q
]
all_calls d code (disconnects i departure ∷ cs) p = elim (disconnect d code i departure p) [
  | none ↦ none
  | some q ↦ all_calls d code cs q
]

-- One handle for the adapter, if it is open, and one for each monitor.
abbrev pub IsHeld : Process → Type 0
IsHeld p = p.handles ≡ (if p.opened then 1 else 0) + length p.monitors

-- What a call keeps, if it is not undefined.
abbrev Keeps : Process → Option Process → Type 0
Keeps p none = Unit {0}
Keeps p (some q) = IsHeld q × (q.opened ≡ p.opened)

abbrev Shorter : List MonitorContext → Option (MonitorContext × List MonitorContext) → Type 0
Shorter ms none = Unit {0}
Shorter ms (some (m, ks)) = length ms ≡ length ks + 1

take_out-Shorter : (i : ℕ) (ms : List MonitorContext) → Shorter ms (take_out i ms)
unfolding take_out
take_out-Shorter i [] = tt
take_out-Shorter zero (m ∷ ms) = omega arith
take_out-Shorter (suc i) (m ∷ ms) = elim (Option-cases (take_out i ms)) [
  | inl e ↦ rw (take_out, e) tt
  | inr ((k, ks), e) ↦
      let h : length ms ≡ length ks + 1 = subst (Shorter ms) e (take_out-Shorter i ms) in
      rw (take_out, e) (omega (arith, h))
]

connect-Keeps :
    (d : Doubles) (code : Hresult → ℕ) (model : List ℕ) (mode : MonitorMode) (c : ConnectCalls)
    (p : Process)
    → IsHeld p
    → Keeps p (connect d code model mode c p)
unfolding connect
connect-Keeps d code model mode c p h = elim (Bool-cases p.opened) [
  | inr e ↦ rw (e, connect) tt
  | inl e ↦ elim (Option-cases (adapter_connect_monitor d code p.driver model mode c)) [
    | inl q ↦ rw (connect, e, q) tt
    | inr ((a, none), q) ↦ rw (connect, q, e) (rw e at h, refl)
    | inr ((a, some m), q) ↦ rw (connect, q, e) (omega (arith, rw e at h), refl)
  ]
]

disconnect-Keeps :
    (d : Doubles) (code : Hresult → ℕ) (i : ℕ) (departure : Status) (p : Process)
    → IsHeld p
    → Keeps p (disconnect d code i departure p)
unfolding disconnect close_monitor
disconnect-Keeps d code i departure p h = elim (Option-cases (take_out i p.monitors)) [
  | inl e ↦ rw (disconnect, e) tt
  | inr ((m, ms), e) ↦
      let k : length p.monitors ≡ length ms + 1 =
        subst (Shorter p.monitors) e (take_out-Shorter i p.monitors) in
      let less : p.handles - 1 ≡ (if p.opened then 1 else 0) + length ms = ground (arith, h, k) in
      elim (Option-cases (monitor_disconnect d code (driver_of p) m departure)) [
        | inl q ↦ rw (disconnect, e, q) tt
        | inr (none, q) ↦ rw (disconnect, e, q) (less, refl)
        | inr (some a, q) ↦ rw (disconnect, e, q) (less, refl)
      ]
]

Keeps-trans : (p q : Process) (o : Option Process) → q.opened ≡ p.opened → Keeps q o → Keeps p o
Keeps-trans p q none e k = tt
Keeps-trans p q (some r) e (h, k) = (h, k ∙ e)

all_calls-Keeps :
    (d : Doubles) (code : Hresult → ℕ) (cs : List Call) (p : Process)
    → IsHeld p
    → Keeps p (all_calls d code cs p)
unfolding all_calls
all_calls-Keeps d code [] p h = (h, refl)
all_calls-Keeps d code (connects model mode c ∷ cs) p h =
    elim (Option-cases (connect d code model mode c p)) [
      | inl e ↦ rw (all_calls, e) tt
      | inr (q, e) ↦
          let k : Keeps p (some q) = subst (Keeps p) e (connect-Keeps d code model mode c p h) in
          rw (all_calls, e)
            (Keeps-trans p q (all_calls d code cs q) k.1 (all_calls-Keeps d code cs q k.0))
    ]
all_calls-Keeps d code (disconnects i departure ∷ cs) p h =
    elim (Option-cases (disconnect d code i departure p)) [
      | inl e ↦ rw (all_calls, e) tt
      | inr (q, e) ↦
          let k : Keeps p (some q) = subst (Keeps p) e (disconnect-Keeps d code i departure p h) in
          rw (all_calls, e)
            (Keeps-trans p q (all_calls d code cs q) k.1 (all_calls-Keeps d code cs q k.0))
    ]

-- However monitors are connected and disconnected through an adapter that could be opened, whether the
-- connections succeed or fail, and where no call is undefined: the server holds one handle for the adapter and
-- one for each monitor that it has, and when it closes the adapter only those of the monitors are left.
pub all_calls-IsHeld :
    (d : Doubles) (code : Hresult → ℕ) (a : AdapterContext) (cs : List Call) (q : Process)
    → all_calls d code cs (open_adapter true (new_process a)) ≡ some q
    → (q.handles ≡ 1 + length q.monitors) × ((close_adapter q).handles ≡ length q.monitors)
unfolding open_adapter new_process close_adapter
all_calls-IsHeld d code a cs q e =
    let start = open_adapter true (new_process a) in
    let (h, k) : Keeps start (some q) =
      subst (Keeps start) e (all_calls-Keeps d code cs start refl) in
    (rw k at h, rw (k, rw k at h) (omega arith))
