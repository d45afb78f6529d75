-- ===== src/Service/Handles.antt =====
-- What the service leaves open, and what it reports in the end.
use monidroid.Base.{
  ℕ, ◌≡◌, ◌∙◌, sym, not, if-false, refl, arith, Bool, true, false, Option, none, some, List, [],
  ◌∷◌, Option-cases, inl, inr, ◌==◌, subst, ==_iff, Bool-cases, if◌then◌else◌,
}
use monidroid.Service.{
  Handle, close_handle, new_proc_info, close_proc_info, LaunchCalls, Launched, launch_with_token,
  launch_server_in_session, not_created, exited, try_stop_server, Service, report_svc_status,
  ServerEnd, ended, asked, WaitEnd, controlled, no_session, session, Control, stop, session_change,
  interrogate, other, stop_report, stop_signal, stop_again, svc_ctrl_handler, handle_all,
  launch_failed, after_launch, svc_loop,
}

-- The error of the first call that fails, or 0.
abbrev pub or_error : Option ℕ → ℕ → ℕ
or_error none rest = rest
or_error (some e) rest = e

abbrev pub launch_error : LaunchCalls → ℕ
launch_error c = or_error c.open_token (
    or_error c.duplicate_token
      (or_error c.set_session (or_error c.create_file (or_error c.create_process 0))))

-- What a launch promises.
record IsLaunched (c : LaunchCalls) (hs : List Handle) (l : Launched) : Type 0 where
  code : l.code ≡ launch_error c
  closes : close_proc_info l.info l.handles ≡ hs

launch-IsLaunched :
    (c : LaunchCalls) (hs : List Handle)
    → IsLaunched c hs (launch_server_in_session c hs new_proc_info)
unfolding launch_server_in_session launch_with_token close_proc_info close_handle new_proc_info
launch-IsLaunched c hs = elim (Option-cases c.open_token) [
  | inr (e, n) ↦ rw (launch_server_in_session, n) (record { code = refl; closes = refl })
  | inl n ↦ elim (Option-cases c.duplicate_token) [
    | inr (e, n1) ↦ rw (launch_server_in_session, n, n1) (record { code = refl; closes = refl })
    | inl n1 ↦ elim (Option-cases c.set_session) [
      | inr (e, n2) ↦
          rw (launch_server_in_session, n, n1, n2) (record { code = refl; closes = refl })
      | inl n2 ↦ elim (Option-cases c.create_file) [
        | inr (e, n3) ↦
            rw (launch_server_in_session, n, n1, n2, launch_with_token, n3)
              (record { code = refl; closes = refl })
        | inl n3 ↦ elim (Option-cases c.create_process) [
          | inr (e, n4) ↦
              rw (launch_server_in_session, n, n1, n2, launch_with_token, n3, n4)
                (record { code = refl; closes = refl })
          | inl n4 ↦
              rw (launch_server_in_session, n, n1, n2, launch_with_token, n3, n4)
                (record { code = refl; closes = refl })
        ]
      ]
    ]
  ]
]

-- The code that a server which was launched ends with, and that of the whole service: of the first wait that
-- is no time-out without a session.
abbrev pub end_code : ServerEnd → ℕ
end_code (ended code) = code
end_code (asked (exited code)) = code
end_code (asked (not_created e)) = e

abbrev pub service_code : List WaitEnd → ℕ
service_code [] = 0
service_code (controlled stop ∷ ws) = 0
service_code (controlled _ ∷ ws) = service_code ws
service_code (no_session ∷ ws) = service_code ws
service_code (session c cs none ∷ ws) = launch_error c
service_code (session c cs (some end) ∷ ws) =
    if launch_error c == 0 then end_code end else launch_error c

-- Whether the loop comes to an end: a stop, or a session in which the launch fails or the wait for the server
-- ends.
abbrev pub comes_to_end : List WaitEnd → Bool
comes_to_end [] = false
comes_to_end (controlled stop ∷ ws) = true
comes_to_end (controlled _ ∷ ws) = comes_to_end ws
comes_to_end (no_session ∷ ws) = comes_to_end ws
comes_to_end (session c cs none ∷ ws) = not (launch_error c == 0)
comes_to_end (session c cs (some end) ∷ ws) = true

-- The controls that are handled until then.
abbrev pub controls : List WaitEnd → List Control
controls [] = []
controls (controlled stop ∷ ws) = stop ∷ []
controls (controlled c ∷ ws) = c ∷ controls ws
controls (no_session ∷ ws) = controls ws
controls (session c cs end ∷ ws) = cs

-- What the loop leaves: the handles as they were, and of the reports those of the controls.
pub record HasEnded (code : ℕ) (s : Service) (r : Service × ℕ) : Type 0 where
  pub result : r.1 ≡ code
  pub handles : r.0.handles ≡ s.handles
  pub reports : r.0.reports ≡ s.reports
  pub counter : r.0.next_check_point ≡ s.next_check_point

branch :
    (b : Bool) (s : Service) {x y : ℕ} {p q : Service × ℕ}
    → HasEnded x s p
    → HasEnded y s q
    → HasEnded (if b then x else y) s (if b then p else q)
branch true s h h' = h
branch false s h h' = h'

-- The same with the code that the terminator ends with.
code_branch :
    (code : ℕ) (s : Service) {hs : List Handle}
    → hs ≡ s.handles
    → HasEnded code s (
        if code == 0
        then (record s { handles = hs }, 0)
        else (record s { handles = hs; terminated = true }, code))
code_branch code s e = elim (Bool-cases (code == 0)) [
  | inl z ↦ rw (z) (record {
    result = omega (arith, (==_iff code 0).0 z);
    handles = e;
    reports = refl;
    counter = refl;
  })
  | inr n ↦ rw (n) (record { result = refl; handles = e; reports = refl; counter = refl })
]

after_launch-HasEnded :
    (c : LaunchCalls) (end : ServerEnd) (s : Service) (l : Launched)
    → IsLaunched c s.handles l
    → HasEnded
        (if launch_error c == 0 then end_code end else launch_error c)
        s
        (after_launch l end s)
unfolding after_launch try_stop_server close_handle
after_launch-HasEnded c end s l k =
    subst (λ e. HasEnded (if e == 0 then end_code end else e) s (after_launch l end s)) k.code
      (by_end end)
  where
    closed :
        (code : ℕ) → HasEnded code s (record s { handles = close_proc_info l.info l.handles }, code)
    closed code = record { result = refl; handles = k.closes; reports = refl; counter = refl }

    by_end :
        (end : ServerEnd)
        → HasEnded (if l.code == 0 then end_code end else l.code) s (after_launch l end s)
    by_end (ended code) = branch (l.code == 0) s (closed code) (closed l.code)
    by_end (asked (exited code)) =
        branch (l.code == 0) s (code_branch code s k.closes) (closed l.code)
    by_end (asked (not_created e)) =
        branch (l.code == 0) s
          (record { result = refl; handles = k.closes; reports = refl; counter = refl })
          (closed l.code)

control-handles : (c : Control) (s : Service) → (svc_ctrl_handler c s).0.handles ≡ s.handles
unfolding svc_ctrl_handler stop_report stop_signal stop_again report_svc_status
control-handles stop s = refl
control-handles session_change s = refl
control-handles interrogate s = refl
control-handles other s = refl

handle_all-handles : (cs : List Control) (s : Service) → (handle_all cs s).handles ≡ s.handles
unfolding handle_all
handle_all-handles [] s = refl
handle_all-handles (c ∷ cs) s = handle_all-handles cs (svc_ctrl_handler c s).0 ∙ control-handles c s

-- A control that is no stop changes nothing.
quiet :
    {code : ℕ} (s s1 : Service) (ws : List WaitEnd)
    → s.stop_set ≡ false
    → (r : Service × ℕ) × (svc_loop ws s ≡ some r) × HasEnded code s1 r
    → (r : Service × ℕ) × ((if s.stop_set then some (s, 0) else svc_loop ws s) ≡ some r)
      × HasEnded code s1 r
quiet s s1 ws n (r, e, h) = (r, if-false s.stop_set _ _ n ∙ e, h)

pub svc_loop-HasEnded :
    (ws : List WaitEnd) (s : Service)
    → s.stop_set ≡ false
    → comes_to_end ws ≡ true
    → (r : Service × ℕ) × (svc_loop ws s ≡ some r)
      × HasEnded (service_code ws) (handle_all (controls ws) s) r
unfolding svc_loop svc_ctrl_handler stop_report stop_signal stop_again report_svc_status handle_all
svc_loop-HasEnded [] s n h = absurd (cc)
svc_loop-HasEnded (controlled stop ∷ ws) s n h = (
  ((svc_ctrl_handler stop s).0, 0),
  refl,
  record { result = refl; handles = refl; reports = refl; counter = refl },
)
svc_loop-HasEnded (controlled session_change ∷ ws) s n h =
    quiet s (handle_all (controls ws) s) ws n (svc_loop-HasEnded ws s n h)
svc_loop-HasEnded (controlled interrogate ∷ ws) s n h =
    quiet s (handle_all (controls ws) s) ws n (svc_loop-HasEnded ws s n h)
svc_loop-HasEnded (controlled other ∷ ws) s n h =
    quiet s (handle_all (controls ws) s) ws n (svc_loop-HasEnded ws s n h)
svc_loop-HasEnded (no_session ∷ ws) s n h = svc_loop-HasEnded ws s n h
svc_loop-HasEnded (session c cs (some end) ∷ ws) s n h = (
  after_launch (launch_server_in_session c s.handles new_proc_info) end (handle_all cs s),
  refl,
  after_launch-HasEnded c end (handle_all cs s) (launch_server_in_session c s.handles new_proc_info)
      (of_handles (launch_server_in_session c s.handles new_proc_info)
        (launch-IsLaunched c s.handles)),
)
  where
    of_handles :
        (l : Launched) → IsLaunched c s.handles l → IsLaunched c (handle_all cs s).handles l
    of_handles l k = record { code = k.code; closes = k.closes ∙ sym (handle_all-handles cs s) }
svc_loop-HasEnded (session c cs none ∷ ws) s n h =
    let l = launch_server_in_session c s.handles new_proc_info in
    let k = launch-IsLaunched c s.handles in
    let z : (l.code == 0) ≡ false = rw (k.code) (is_false (launch_error c == 0) h) in
    (
      launch_failed l (handle_all cs s),
      rw (svc_loop, z) refl,
      unfold launch_failed in
          (record {
            result = k.code;
            handles = k.closes ∙ sym (handle_all-handles cs s);
            reports = refl;
            counter = refl;
          }),
    )
  where
    is_false : (b : Bool) → not b ≡ true → b ≡ false
    is_false true e = cc e
    is_false false e = refl
