-- ===== src/Service.antt =====
-- server/win32/service.cpp: the Windows service that keeps the server running in the session of the console.
pub mod Handles
pub mod Reports
pub mod Paths
use monidroid.Base.{
  ℕ, ◌+◌, ◌==◌, Bool, true, false, Option, none, some, List, [], ◌∷◌, if◌then◌else◌,
}

-- The handles that the service opens; those of the server's and of the terminator's process.
pub data Handle : Type 0 where
  stop_event this_token server_token out process thread helper_process helper_thread : Handle

abbrev pub same : Handle → Handle → Bool
same Handle.stop_event Handle.stop_event = true
same Handle.this_token Handle.this_token = true
same Handle.server_token Handle.server_token = true
same Handle.out Handle.out = true
same Handle.process Handle.process = true
same Handle.thread Handle.thread = true
same Handle.helper_process Handle.helper_process = true
same Handle.helper_thread Handle.helper_thread = true
same _ _ = false

-- `CloseHandle`, on the list of the handles that are open.
unfoldable pub close_handle : Handle → List Handle → List Handle
close_handle h [] = []
close_handle h (k ∷ ks) = if same h k then ks else k ∷ close_handle h ks

-- `ProcInfo`: which of its handles are not null. The process and the thread come together.
pub record ProcInfo : Type 0 where
  pub has_token : Bool
  pub has_out : Bool
  pub has_process : Bool

unfoldable pub new_proc_info : ProcInfo
new_proc_info = record { has_token = false; has_out = false; has_process = false }

-- `~ProcInfo`
unfoldable pub close_proc_info : ProcInfo → List Handle → List Handle
unfolding close_handle
close_proc_info p hs =
    let h1 = if p.has_token then close_handle Handle.server_token hs else hs in
    let h2 = if p.has_out then close_handle Handle.out h1 else h1 in
    if p.has_process then close_handle Handle.thread (close_handle Handle.process h2) else h2

-- How the five calls of the system in `LaunchServerInSession` end: `none` is a success, `some` what
-- `GetLastError` gives where the code reads it, which may be after `CloseHandle`.
pub record LaunchCalls : Type 0 where
  pub open_token : Option ℕ
  pub duplicate_token : Option ℕ
  pub set_session : Option ℕ
  pub create_file : Option ℕ
  pub create_process : Option ℕ

pub record Launched : Type 0 where
  pub handles : List Handle
  pub info : ProcInfo
  pub code : ℕ

-- From the creation of the log file on, with the token of the server.
unfoldable pub launch_with_token : LaunchCalls → List Handle → ProcInfo → Launched
unfolding close_handle
launch_with_token c hs p = elim c.create_file [
  | some e ↦ record { handles = close_handle Handle.server_token hs; info = p; code = e }
  | none ↦ elim c.create_process [
    | some e ↦ record {
      handles = close_handle Handle.server_token (close_handle Handle.out (Handle.out ∷ hs));
      info = p;
      code = e;
    }
    | none ↦ record {
      handles = Handle.thread ∷ Handle.process ∷ Handle.out ∷ hs;
      info = record { has_token = true; has_out = true; has_process = true };
      code = 0;
    }
  ]
]

unfoldable pub launch_server_in_session : LaunchCalls → List Handle → ProcInfo → Launched
unfolding launch_with_token
launch_server_in_session c hs p = elim c.open_token [
  | some e ↦ record { handles = hs; info = p; code = e }
  | none ↦ elim c.duplicate_token [
    | some e ↦ record {
      handles = close_handle Handle.this_token (Handle.this_token ∷ hs);
      info = p;
      code = e;
    }
    | none ↦
        let held = close_handle Handle.this_token (Handle.server_token ∷ Handle.this_token ∷ hs) in
        elim c.set_session [
          | some e ↦ record { handles = close_handle Handle.server_token held; info = p; code = e }
          | none ↦ launch_with_token c held p
        ]
  ]
]

-- `TryStopServer`: the terminator cannot be started, with the error, or it ends with a code, which is then
-- the last error.
pub data StopCalls : Type 0 where
  not_created : ℕ → StopCalls
  exited : ℕ → StopCalls

-- Whether it succeeded, the last error, and the handles.
unfoldable pub try_stop_server : StopCalls → List Handle → Bool × ℕ × List Handle
unfolding close_handle
try_stop_server (not_created e) hs = (false, e, hs)
try_stop_server (exited code) hs = (
  code == 0,
  code,
  close_handle Handle.helper_thread
      (close_handle Handle.helper_process (Handle.helper_thread ∷ Handle.helper_process ∷ hs)),
)

-- The states of a service that are reported.
pub data ServiceState : Type 0 where
  start_pending running stop_pending stopped : ServiceState

-- `SERVICE_STATUS`, where `accepts` says whether any control is accepted.
pub record ServiceStatus : Type 0 where
  pub current_state : ServiceState
  pub exit_code : ℕ
  pub wait_hint : ℕ
  pub accepts : Bool
  pub check_point : ℕ

-- The globals: the status, the static counter of `ReportSvcStatus`, what was reported, newest first, whether
-- the stop event is set, whether the server's process was terminated, and the open handles.
pub record Service : Type 0 where
  pub status : ServiceStatus
  pub next_check_point : ℕ
  pub reports : List ServiceStatus
  pub stop_set : Bool
  pub terminated : Bool
  pub handles : List Handle

abbrev pub is_start_pending : ServiceState → Bool
is_start_pending ServiceState.start_pending = true
is_start_pending _ = false

abbrev pub is_settled : ServiceState → Bool
is_settled ServiceState.running = true
is_settled ServiceState.stopped = true
is_settled _ = false

-- `ReportSvcStatus`; the counter is a `DWORD`, which the service does not wrap round.
unfoldable pub report_svc_status : ServiceState → ℕ → ℕ → Service → Service
report_svc_status state code hint s =
    let status : ServiceStatus = record {
      current_state = state;
      exit_code = code;
      wait_hint = hint;
      accepts = if is_start_pending state then false else true;
      check_point = if is_settled state then 0 else s.next_check_point;
    } in
    record s {
      status = status;
      next_check_point = if is_settled state then s.next_check_point else s.next_check_point + 1;
      reports = status ∷ s.reports;
    }

-- `SvcCtrlHandler`, with `ERROR_CALL_NOT_IMPLEMENTED`. The three calls for a stop are made one after the
-- other by a thread of its own.
pub data Control : Type 0 where
  stop session_change interrogate other : Control

unfoldable pub stop_report : Service → Service
unfolding report_svc_status
stop_report s = report_svc_status ServiceState.stop_pending 0 0 s

unfoldable pub stop_signal : Service → Service
stop_signal s = record s { stop_set = true }

unfoldable pub stop_again : Service → Service
unfolding report_svc_status
stop_again s = report_svc_status s.status.current_state 0 0 s

unfoldable pub svc_ctrl_handler : Control → Service → Service × ℕ
unfolding stop_report stop_signal stop_again
svc_ctrl_handler stop s = (stop_again (stop_signal (stop_report s)), 0)
svc_ctrl_handler session_change s = (s, 0)
svc_ctrl_handler interrogate s = (s, 0)
svc_ctrl_handler other s = (s, 120)

-- How the wait for the server and the stop event ends: the server has ended, with its code; or the stop event is
-- set, or the wait failed.
pub data ServerEnd : Type 0 where
  ended : ℕ → ServerEnd
  asked : StopCalls → ServerEnd

-- What happens while the loop waits for the stop event: a control is handled, which may set it; five seconds
-- have passed, and there is no session of the console; or there is one, with the controls that are handled
-- from then on and the end of the wait for the server, `none` if that does not end.
pub data WaitEnd : Type 0 where
  controlled : Control → WaitEnd
  no_session : WaitEnd
  session : LaunchCalls → List Control → Option ServerEnd → WaitEnd

unfoldable pub handle_all : List Control → Service → Service
unfolding svc_ctrl_handler
handle_all [] s = s
handle_all (c ∷ cs) s = handle_all cs (svc_ctrl_handler c s).0

-- After the launch; the result is the code.
unfoldable pub after_launch : Launched → ServerEnd → Service → Service × ℕ
unfolding try_stop_server close_proc_info
after_launch l (ended code) s =
    if l.code == 0
    then (record s { handles = close_proc_info l.info l.handles }, code)
    else (record s { handles = close_proc_info l.info l.handles }, l.code)
after_launch l (asked calls) s =
    let r = try_stop_server calls l.handles in
    if l.code == 0
    then (if r.0
        then (record s { handles = close_proc_info l.info r.2 }, 0)
        else (record s { handles = close_proc_info l.info r.2; terminated = true }, r.1))
    else (record s { handles = close_proc_info l.info l.handles }, l.code)

unfoldable pub launch_failed : Launched → Service → Service × ℕ
unfolding close_proc_info
launch_failed l s = (record s { handles = close_proc_info l.info l.handles }, l.code)

-- The loop of `SvcMain`; `none` where it still waits.
unfoldable pub svc_loop : List WaitEnd → Service → Option (Service × ℕ)
unfolding after_launch launch_failed launch_server_in_session new_proc_info svc_ctrl_handler
    handle_all
svc_loop [] s = none
svc_loop (controlled c ∷ ws) s =
    let s' = (svc_ctrl_handler c s).0 in
    let rest = svc_loop ws s' in if s'.stop_set then some (s', 0) else rest
svc_loop (no_session ∷ ws) s = svc_loop ws s
svc_loop (session calls cs end ∷ ws) s =
    let l = launch_server_in_session calls s.handles new_proc_info in
    elim end [
      | some e ↦ some (after_launch l e (handle_all cs s))
      | none ↦ if l.code == 0 then none else some (launch_failed l (handle_all cs s))
    ]

-- `SvcMain` once the handler is registered: whether the event is created, or the error.
unfoldable pub svc_main : Option ℕ → List WaitEnd → Service → Option Service
unfolding report_svc_status svc_loop
svc_main (some e) ws s = some (
    report_svc_status ServiceState.stopped e 0
      (report_svc_status ServiceState.start_pending 0 3000 s))
svc_main none ws s =
    let s1 = report_svc_status ServiceState.start_pending 0 3000 s in
    let s2 =
      report_svc_status ServiceState.running 0 0
        (record s1 { handles = Handle.stop_event ∷ s1.handles; stop_set = false }) in
    elim (svc_loop ws s2) [
      | none ↦ none
      | some r ↦ some (report_svc_status ServiceState.stopped r.1 0 r.0)
    ]
