-- ===== src/Driver/Ioctl/Served.antt =====
-- The driver's handler of requests, over all that a server asks for.
use monidroid.Base.{
  ℕ, zero, suc, ◌≡◌, ◌≢◌, refl, sym, ap, ◌∙◌, subst, Option, none, some, List, [], ◌∷◌, get_elem?,
  Option-cases, inl, inr, replicate,
}
use monidroid.Edid.Mode.{Doubles}
use monidroid.Driver.Monitor.{FrameMonitorInfo, RequestEnd, Hresult}
use monidroid.Driver.Adapter.{
  AdapterContext, new_adapter, connect_monitor, disconnect_monitor, find_monitor, frame_request,
}
use monidroid.Driver.Adapter.Validity.{
  Plugged, IsValid, IsNew, IfConnected, connected, disconnected, frame_request-others,
}
use monidroid.Driver.Ioctl.{
  IoRequest, IoOutput, monitor_connect, monitor_disconnect, request_frame, unknown_code, frame_info,
  Completed, frame_status, device_io_control,
}

-- One request after another; `none` where one is undefined.
unfoldable pub serve :
    Doubles → (Hresult → ℕ) → List IoRequest → AdapterContext → Option AdapterContext
serve d code [] a = some a
serve d code (r ∷ rs) a = elim (device_io_control d code a r) [
  | none ↦ none
  | some c ↦ serve d code rs c.adapter
]

-- Every new monitor gets a handle that no slot has then.
abbrev pub AllNew : Doubles → (Hresult → ℕ) → List IoRequest → AdapterContext → Type 0
AllNew d code [] a = Unit {0}
AllNew d code (r ∷ rs) a =
    IsNew a r
    × ((c : Completed) → device_io_control d code a r ≡ some c → AllNew d code rs c.adapter)

the_completed : (c c' : Completed) → ◌≡◌ {A = Option Completed} (some c) (some c') → c ≡ c'
the_completed c c' e = cc e

requested :
    (a : AdapterContext) (idx : ℕ) (info : FrameMonitorInfo) (end : RequestEnd)
    (r : AdapterContext × FrameMonitorInfo × Hresult)
    → frame_request a idx info end ≡ some r
    → (h : ℕ) × Plugged a idx h
unfolding frame_request
requested a idx info end r e = elim (Option-cases (get_elem? a.connected_monitors idx)) [
  | inl q ↦ let x : frame_request a idx info end ≡ none = rw (q, frame_request) refl in cc (x, e)
  | inr (none, q) ↦
      let x : frame_request a idx info end ≡ none = rw (q, frame_request) refl in cc (x, e)
  | inr (some h, q) ↦ (h, q)
]

-- What a frame request is answered with.
abbrev answered : (Hresult → ℕ) → AdapterContext × FrameMonitorInfo × Hresult → Completed
answered code r = record { adapter = r.0; status = frame_status code r.2; output = frame_info r.1 }

control-frame :
    (d : Doubles) (code : Hresult → ℕ) (a : AdapterContext) (idx : ℕ) (info : FrameMonitorInfo)
    (end : RequestEnd) (r : AdapterContext × FrameMonitorInfo × Hresult)
    → frame_request a idx info end ≡ some r
    → device_io_control d code a (request_frame idx info end) ≡ some (answered code r)
unfolding device_io_control
control-frame d code a idx info end r q = rw (q, device_io_control) refl

control-IsValid :
    (d : Doubles) (code : Hresult → ℕ) (a : AdapterContext) (r : IoRequest) (c : Completed)
    → IsValid a
    → IsNew a r
    → device_io_control d code a r ≡ some c
    → IsValid c.adapter
unfolding device_io_control
control-IsValid d code a (monitor_connect info f) c v new e =
    elim (Option-cases (connect_monitor d a info f)) [
      | inl q ↦
          let x : device_io_control d code a (monitor_connect info f) ≡ none =
            rw (q, device_io_control) refl in
          cc (x, e)
      | inr (k, q) ↦
          let b : Completed = record {
            adapter = k.adapter;
            status = k.status;
            output = IoOutput.monitor_info k.info;
          } in
          let x : device_io_control d code a (monitor_connect info f) ≡ some b =
            rw (q, device_io_control) refl in
          let w : IsValid k.adapter = subst (IfConnected IsValid) q (connected d a info f v new) in
          subst IsValid (ap (λ (x : Completed). x.adapter) (the_completed b c (sym x ∙ e))) w
    ]
control-IsValid d code a (monitor_disconnect info departure) c v new e =
    elim (Option-cases (disconnect_monitor a info.connector_index departure)) [
      | inl q ↦
          let x : device_io_control d code a (monitor_disconnect info departure) ≡ none =
            rw (q, device_io_control) refl in
          cc (x, e)
      | inr ((a', st), q) ↦
          let x : device_io_control d code a (monitor_disconnect info departure)
              ≡ some (record { adapter = a'; status = st; output = IoOutput.monitor_info info }) =
            rw (q, device_io_control) refl in
          subst IsValid (ap (λ (x : Completed). x.adapter) (the_completed _ c (sym x ∙ e)))
            (disconnected a a' info.connector_index departure st v q)
    ]
control-IsValid d code a (request_frame idx info end) c v new e =
    elim (Option-cases (frame_request a idx info end)) [
      | inl q ↦
          let x : device_io_control d code a (request_frame idx info end) ≡ none =
            rw (q, device_io_control) refl in
          cc (x, e)
      | inr ((a', info', hr), q) ↦
          let (h, p) = requested a idx info end (a', info', hr) q in
          let (r', q', v', same, others) = frame_request-others a idx h info end v p in
          subst IsValid
            (ap (λ (x : Completed). x.adapter)
              (the_completed (answered code r') c
                (sym (control-frame d code a idx info end r' q') ∙ e)))
            v'
    ]
control-IsValid d code a unknown_code c v new e =
    subst IsValid (ap (λ (x : Completed). x.adapter) (the_completed _ c e)) v

new_adapter-IsValid : IsValid new_adapter
unfolding new_adapter
new_adapter-IsValid = record {
  slots = refl;
  different = λ i j h p q. absurd (none_of 16 i h p);
  exist = λ i h p. absurd (none_of 16 i h p);
}
  where
    none_of : (n i h : ℕ) → get_elem? (replicate n none) i ≡ some (some h) → ⊥
    none_of zero i h p = cc p
    none_of (suc n) zero h p = cc p
    none_of (suc n) (suc i) h p = none_of n i h p

serve-IsValid :
    (d : Doubles) (code : Hresult → ℕ) (rs : List IoRequest) (a0 a : AdapterContext)
    → IsValid a0
    → AllNew d code rs a0
    → serve d code rs a0 ≡ some a
    → IsValid a
unfolding serve
serve-IsValid d code [] a0 a v new e = subst IsValid (the_adapter a0 a e) v
  where
    the_adapter : (x y : AdapterContext) → ◌≡◌ {A = Option AdapterContext} (some x) (some y) → x ≡ y
    the_adapter x y e = cc e
serve-IsValid d code (r ∷ rs) a0 a v new e = elim (Option-cases (device_io_control d code a0 r)) [
  | inl q ↦ let x : serve d code (r ∷ rs) a0 ≡ none = rw (q, serve) refl in cc (x, e)
  | inr (c, q) ↦
      let x : serve d code (r ∷ rs) a0 ≡ serve d code rs c.adapter = rw (q, serve) refl in
      serve-IsValid d code rs c.adapter a (control-IsValid d code a0 r c v new.0 q) (new.1 c q)
        (sym x ∙ e)
]

-- However a server has used the driver, by requests of all kinds and in any order none of which was
-- undefined, where the framework gave every new monitor a handle that no slot had: different slots have
-- different monitors; and a frame request for a slot with a monitor is answered, never undefined, and changes
-- no slot and no other slot's monitor.
pub serve-request_frame :
    (d : Doubles) (code : Hresult → ℕ) (rs : List IoRequest) (a : AdapterContext)
    → AllNew d code rs new_adapter
    → serve d code rs new_adapter ≡ some a
    → ((i j h : ℕ) → Plugged a i h → Plugged a j h → i ≡ j)
      × ((i h : ℕ) (info : FrameMonitorInfo) (end : RequestEnd)
          → Plugged a i h
          → (c : Completed) × (device_io_control d code a (request_frame i info end) ≡ some c)
            × (c.adapter.connected_monitors ≡ a.connected_monitors)
            × ((j k : ℕ)
                → i ≢ j
                → Plugged a j k
                → find_monitor k c.adapter.monitors ≡ find_monitor k a.monitors))
serve-request_frame d code rs a new e =
    let v = serve-IsValid d code rs new_adapter a new_adapter-IsValid new e in
    (
      v.different,
      λ i h info end p.
          let (r, q, v', same, others) = frame_request-others a i h info end v p in
          (answered code r, control-frame d code a i info end r q, same, others),
    )
