-- ===== src/Service/Reports.antt =====
-- The check points of what the service reports.
use monidroid.Base.{
  ℕ, ◌<◌, ◌≡◌, refl, arith, true, false, Option, none, some, List, [], ◌∷◌, if◌then◌else◌,
}
use monidroid.Service.Handles.{comes_to_end, controls, svc_loop-HasEnded}
use monidroid.Service.{
  Handle, ServiceState, ServiceStatus, Service, is_settled, report_svc_status, Control, stop,
  session_change, interrogate, other, stop_report, stop_signal, stop_again, svc_ctrl_handler,
  handle_all, WaitEnd, svc_main,
}

-- Reports with check points below a number, newest first: those of a pending state grow and are not 0, the
-- others are 0.
abbrev pub IsCounted : ℕ → List ServiceStatus → Type 0
IsCounted n [] = Unit {0}
IsCounted n (r ∷ rs) =
    if is_settled r.current_state
    then (r.check_point ≡ 0) × IsCounted n rs
    else (0 < r.check_point) × (r.check_point < n) × IsCounted r.check_point rs

abbrev pub Counts : Service → Type 0
Counts s = (0 < s.next_check_point) × IsCounted s.next_check_point s.reports

report_svc_status-Counts :
    (state : ServiceState) (code hint : ℕ) (s : Service)
    → Counts s
    → Counts (report_svc_status state code hint s)
unfolding report_svc_status
report_svc_status-Counts ServiceState.start_pending code hint s (p, k) =
    (omega arith, (p, omega arith, k))
report_svc_status-Counts ServiceState.stop_pending code hint s (p, k) =
    (omega arith, (p, omega arith, k))
report_svc_status-Counts ServiceState.running code hint s (p, k) = (p, (refl, k))
report_svc_status-Counts ServiceState.stopped code hint s (p, k) = (p, (refl, k))

svc_ctrl_handler-Counts : (c : Control) (s : Service) → Counts s → Counts (svc_ctrl_handler c s).0
unfolding svc_ctrl_handler stop_report stop_signal stop_again
svc_ctrl_handler-Counts stop s k =
    report_svc_status-Counts (stop_signal (stop_report s)).status.current_state 0 0
      (stop_signal (stop_report s)) (report_svc_status-Counts ServiceState.stop_pending 0 0 s k)
svc_ctrl_handler-Counts session_change s k = k
svc_ctrl_handler-Counts interrogate s k = k
svc_ctrl_handler-Counts other s k = k

handle_all-Counts : (cs : List Control) (s : Service) → Counts s → Counts (handle_all cs s)
unfolding handle_all
handle_all-Counts [] s k = k
handle_all-Counts (c ∷ cs) s k =
    handle_all-Counts cs (svc_ctrl_handler c s).0 (svc_ctrl_handler-Counts c s k)

-- The check points are kept in order by the service, to its end, with the controls that it handles meanwhile,
-- and by every control that it handles before and after: of
-- the reports, those of a pending state have check points that are not 0 and grow from one to the next, and
-- all others have 0. This holds whether or not the stop event can be created.
pub svc_main-Counts :
    (e : Option ℕ) (ws : List WaitEnd) (s : Service) (c : Control)
    → comes_to_end ws ≡ true
    → Counts s
    → (s' : Service) × (svc_main e ws s ≡ some s')
      × Counts s'
      × Counts (svc_ctrl_handler c s).0
      × Counts (svc_ctrl_handler c s').0
unfolding svc_main
svc_main-Counts (some e) ws s c h k =
    let s1 = report_svc_status ServiceState.start_pending 0 3000 s in
    let k1 = report_svc_status-Counts ServiceState.start_pending 0 3000 s k in
    let k2 = report_svc_status-Counts ServiceState.stopped e 0 s1 k1 in
    (
      report_svc_status ServiceState.stopped e 0 s1,
      refl,
      k2,
      svc_ctrl_handler-Counts c s k,
      svc_ctrl_handler-Counts c (report_svc_status ServiceState.stopped e 0 s1) k2,
    )
svc_main-Counts none ws s c h k =
    let s1 = report_svc_status ServiceState.start_pending 0 3000 s in
    let s1' : Service = record s1 { handles = Handle.stop_event ∷ s1.handles; stop_set = false } in
    let s2 = report_svc_status ServiceState.running 0 0 s1' in
    let k1 = report_svc_status-Counts ServiceState.start_pending 0 3000 s k in
    let k2 = report_svc_status-Counts ServiceState.running 0 0 s1' k1 in
    let (r, e, end) = svc_loop-HasEnded ws s2 refl h in
    let k3 : Counts r.0 =
      kept (handle_all (controls ws) s2) r.0 end.counter end.reports
        (handle_all-Counts (controls ws) s2 k2) in
    let k4 = report_svc_status-Counts ServiceState.stopped r.1 0 r.0 k3 in
    (
      report_svc_status ServiceState.stopped r.1 0 r.0,
      rw (svc_main, e) refl,
      k4,
      svc_ctrl_handler-Counts c s k,
      svc_ctrl_handler-Counts c (report_svc_status ServiceState.stopped r.1 0 r.0) k4,
    )
  where
    kept :
        (a b : Service)
        → b.next_check_point ≡ a.next_check_point
        → b.reports ≡ a.reports
        → Counts a
        → Counts b
    kept a b e1 e2 k = rw (e1, e2) k
