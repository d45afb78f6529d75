-- ===== src/Entry/Ends.antt =====
-- How `main` ends.
use monidroid.Base.{
  ◌≡◌, ◌∙◌, sym, ap, refl, Bool, true, false, if-false, none, some, List, [], ◌∷◌, ◌++◌, if-both,
  if-true, subst, Option-cases, inl, inr, if◌then◌else◌,
}
use monidroid.Control.{Outcome, returned, thrown, undefined, on_message, msg_key, emit}
use monidroid.Control.Json.{JsonLibrary, IsJsonLibrary}
use monidroid.Protocol.{bytes_eq}
use monidroid.Entry.{Program, shutdown}
use monidroid.Entry.Handlers.{Host, get_client_json}
use monidroid.Entry.Names.{connected_event, client_key, name_key}
use monidroid.Server.Data.{ClientContext}
use monidroid.Entry.Startup.{
  Options, Boot, initial, start_up, Event, message, deferred, published, interrupt, asio_failed,
  Loop, RunEnd, resume, left, threw, broke, waits, success, failure, hangs, on_control,
  send_replies, step, asio_event, asio_rest, run_app, join, leave_main, main,
}
use monidroid.Entry.Closing.{Holds, IsSound, start_up-Keeps, shutdown-IsSound, shutdown-flags}
use monidroid.Entry.Closing.Messages.{on_message-Keeps}

-- The loop where it begins.
abbrev pub begin : {J : Type 0} → Program → Loop J
begin g = record { program = g; replies = []; asio_ex = false }

-- Whether SIGINT or an exception in the thread of asio is among the events.
abbrev pub is_stopped_later : {J : Type 0} → List (Event J) → Bool
is_stopped_later [] = false
is_stopped_later (interrupt ∷ es) = true
is_stopped_later (asio_failed ∷ es) = true
is_stopped_later (_ ∷ es) = is_stopped_later es

-- What holds where the loop waits.
abbrev Waits : {J : Type 0} → RunEnd J → Type 0
Waits (waits l) = IsSound l.program
Waits (left l) = Unit {0}
Waits (threw l) = Unit {0}
Waits broke = Unit {0}

module _ {J : Type 0} (json : JsonLibrary J) where
  send_replies-Waits :
      (rs : List J) (l : Loop J) → IsSound l.program → Waits (send_replies json rs l)
  unfolding send_replies
  send_replies-Waits [] l s = s
  send_replies-Waits (r ∷ rs) l s = elim (Option-cases (json.dump r)) [
    | inl e ↦ rw (send_replies, e) tt
    | inr (text, e) ↦
        rw (send_replies, e) (send_replies-Waits rs (record l { replies = r ∷ l.replies }) s)
  ]

  on_control-Waits :
      (host : Host) (l : Loop J) (o : Outcome Program (List J))
      → Holds IsSound o
      → Waits (elim o [
        | returned g rs ↦ send_replies json rs (record l { program = g })
        | thrown g ↦ threw (record l { program = g })
        | undefined ↦ broke
      ])
  on_control-Waits host l (returned g rs) h = send_replies-Waits rs (record l { program = g }) h
  on_control-Waits host l (thrown g) h = tt
  on_control-Waits host l undefined h = tt

  step-Waits : (e : Event J) (l : Loop J) → IsSound l.program → Waits (step json e l)
  unfolding step on_control
  step-Waits (message host msg) l s = on_control-Waits host l _ (on_message-Keeps json host msg _ s)
  step-Waits (published obj) l s = elim (Option-cases (json.dump obj)) [
    | inl e ↦ rw (step, e) tt
    | inr (text, e) ↦ rw (step, e) s
  ]
  step-Waits deferred l s = if-both Waits l.program.closing tt s
  step-Waits interrupt l s = shutdown-IsSound l.program
  step-Waits asio_failed l s = if-both Waits l.program.stopped s (shutdown-IsSound l.program)

  resumed :
      {x : RunEnd J} (r : RunEnd J) (k k' : Loop J → RunEnd J) (a a' : Loop J → Loop J) (l : Loop J)
      → ((l1 : Loop J) → k l1 ≡ waits l → k' l1 ≡ x)
      → resume r k a ≡ waits l
      → resume r k' a' ≡ x
  resumed (waits l1) k k' a a' l f h = f l1 h
  resumed (left l1) k k' a a' l f h = cc
  resumed (threw l1) k k' a a' l f h = cc
  resumed broke k k' a a' l f h = cc

  -- A run that has come to wait goes on with the events that follow.
  run_app-append :
      (es fs : List (Event J)) (l l' : Loop J)
      → run_app json es l ≡ waits l'
      → run_app json (es ++ fs) l ≡ run_app json fs l'
  unfolding run_app
  run_app-append [] fs l l' h = ap (run_app json fs) (cc)
  run_app-append (e ∷ es) fs l l' h =
      resumed (step json e l) (λ l1. run_app json es l1) (λ l1. run_app json (es ++ fs) l1)
        (asio_rest json es) (asio_rest json (es ++ fs)) l' (λ l1 h1. run_app-append es fs l1 l' h1)
        h

  resumed-Waits :
      (r : RunEnd J) (k : Loop J → RunEnd J) (a : Loop J → Loop J)
      → Waits r
      → ((l1 : Loop J) → IsSound l1.program → Waits (k l1))
      → Waits (resume r k a)
  resumed-Waits (waits l1) k a w f = f l1 w
  resumed-Waits (left l1) k a w f = tt
  resumed-Waits (threw l1) k a w f = tt
  resumed-Waits broke k a w f = tt

  run_app-Waits : (es : List (Event J)) (l : Loop J) → IsSound l.program → Waits (run_app json es l)
  unfolding run_app
  run_app-Waits [] l s = s
  run_app-Waits (e ∷ es) l s =
      resumed-Waits (step json e l) (λ l1. run_app json es l1) (asio_rest json es)
        (step-Waits e l s) (λ l1 s1. run_app-Waits es l1 s1)

  asio_rest-stopped :
      (es : List (Event J)) (l : Loop J) → l.program.stopped ≡ true → asio_rest json es l ≡ l
  unfolding asio_rest
  asio_rest-stopped [] l s = refl
  asio_rest-stopped (e ∷ es) l s = if-true l.program.stopped _ _ s

  stopped_at :
      (es : List (Event J)) (l k : Loop J)
      → l.program.stopped ≡ false
      → k.program.stopped ≡ true
      → (if l.program.stopped then l else asio_rest json es k).program.stopped ≡ true
  stopped_at es l k s h =
      ap (λ (x : Loop J). x.program.stopped)
        (if-false l.program.stopped _ _ s ∙ asio_rest-stopped es k h)
      ∙ h

  goes_on :
      (es : List (Event J)) (l : Loop J) (b : Bool)
      → l.program.stopped ≡ false
      → (asio_rest json es l).program.stopped ≡ b
      → (if l.program.stopped then l else asio_rest json es l).program.stopped ≡ b
  goes_on es l b s h = ap (λ (x : Loop J). x.program.stopped) (if-false l.program.stopped _ _ s) ∙ h

  -- The thread of asio ends if SIGINT or an exception comes.
  asio_rest-waiting :
      (es : List (Event J)) (l : Loop J)
      → l.program.stopped ≡ false
      → (asio_rest json es l).program.stopped ≡ is_stopped_later es
  unfolding asio_rest asio_event
  asio_rest-waiting [] l s = s
  asio_rest-waiting (message host msg ∷ es) l s =
      goes_on es l (is_stopped_later es) s (asio_rest-waiting es l s)
  asio_rest-waiting (published obj ∷ es) l s =
      goes_on es l (is_stopped_later es) s (asio_rest-waiting es l s)
  asio_rest-waiting (deferred ∷ es) l s =
      goes_on es l (is_stopped_later es) s (asio_rest-waiting es l s)
  asio_rest-waiting (interrupt ∷ es) l s =
      stopped_at es l (record l { program = shutdown l.program }) s (shutdown-flags l.program).1
  asio_rest-waiting (asio_failed ∷ es) l s =
      stopped_at es l (record l { program = shutdown l.program; asio_ex = true }) s
        (shutdown-flags l.program).1

  left_waiting :
      (es : List (Event J)) (l : Loop J)
      → l.program.stopped ≡ false
      → leave_main json (threw (asio_rest json es l))
        ≡ (if is_stopped_later es then failure else hangs)
  unfolding leave_main join
  left_waiting es l s = ap (λ b. if b then failure else hangs) (asio_rest-waiting es l s)

  -- An event with a name that is not UTF-8.
  undumped_client :
      (lib : IsJsonLibrary J json) (ctx : ClientContext)
      → json.utf8 ctx.client.model_name ≡ false
      → json.dump (get_client_json json ctx) ≡ none
  unfolding get_client_json bytes_eq
  undumped_client lib ctx e =
      lib.dump-object _ name_key (json.string ctx.client.model_name) refl refl
        (lib.dump-string ctx.client.model_name e)

  undumped :
      (lib : IsJsonLibrary J json) (ctx : ClientContext)
      → json.utf8 ctx.client.model_name ≡ false
      → json.dump (emit json connected_event client_key (get_client_json json ctx)) ≡ none
  unfolding emit bytes_eq
  undumped lib ctx e =
      lib.dump-object _ client_key (get_client_json json ctx) refl refl (undumped_client lib ctx e)

  -- The program and the loop, from the start.
  module _ (o : Options) (boot : Boot) (g : Program) (es : List (Event J)) (l : Loop J)
      (no_version : o.version ≡ false) (no_help : o.help ≡ false)
      (started : start_up o.force_usb boot initial ≡ returned g tt)
      (ran : run_app json es (begin g) ≡ waits l) where
    main-run_app :
        (fs : List (Event J))
        → main json (some o) boot (es ++ fs) ≡ leave_main json (run_app json fs l)
    unfolding main
    main-run_app fs =
        rw (main, no_version, no_help, started)
          (ap (leave_main json) (run_app-append es fs (begin g) l ran))

    began : IsSound g
    unfolding initial
    began = subst (Holds IsSound) started (start_up-Keeps o.force_usb boot initial refl)

    sound : IsSound l.program
    sound = subst Waits ran (run_app-Waits es (begin g) began)

    -- Once the program has been asked to shut down (by a message, by SIGINT, or by an exception in the thread of
    -- asio), `main` ends when the control interface calls what was deferred: with 0, or with -1 if there was
    -- such an exception. The thread of asio, which it joins, has been told to stop by then.
    pub main-deferred :
        (fs : List (Event J))
        → l.program.closing ≡ true
        → main json (some o) boot (es ++ (deferred ∷ fs)) ≡ (if l.asio_ex then failure else success)
    unfolding run_app step leave_main join
    main-deferred fs c =
        main-run_app (deferred ∷ fs)
        ∙ ap (leave_main json) one
        ∙ if-true l.program.stopped _ _ (sym sound ∙ c)
      where
        one : run_app json (deferred ∷ fs) l ≡ left l
        one =
            ap (λ r. resume r (run_app json fs) (asio_rest json fs))
              (if-true l.program.closing _ _ c)
            ∙ ap left (asio_rest-stopped fs l (sym sound ∙ c))

    -- A message of a control panel whose name is not a string ends the loop by an exception; `main` then waits
    -- for the thread of asio, which nothing has told to stop, and does not end, unless SIGINT or an exception in
    -- that thread comes later: then it ends with -1. This holds for every program that has started and has not
    -- been asked to shut down.
    pub main_hangs :
        (fs : List (Event J)) (host : Host) (obj m : J)
        → l.program.stopped ≡ false
        → json.at obj msg_key ≡ some m
        → json.get_string m ≡ none
        → main json (some o) boot (es ++ (message host (some obj) ∷ fs))
          ≡ (if is_stopped_later fs then failure else hangs)
    unfolding run_app step leave_main join on_control on_message
    main_hangs fs host obj m s e1 e2 =
        main-run_app (message host (some obj) ∷ fs) ∙ ap (leave_main json) one ∙ left_waiting fs l s
      where
        one : run_app json (message host (some obj) ∷ fs) l ≡ threw (asio_rest json fs l)
        one = rw (run_app, step, on_control, on_message, e1, e2) refl

    -- The name that a phone gives is not looked at: when a client whose name is not UTF-8 has identified itself,
    -- the event of its connection cannot be dumped, which ends the loop of the control interface by an
    -- exception, and `main` then hangs as it does after a malformed message, unless SIGINT or an exception in
    -- the thread of asio comes later: then it ends with -1. This holds for every program that has started and
    -- has not been asked to shut down.
    pub main_hangs-published :
        (lib : IsJsonLibrary J json) (fs : List (Event J)) (ctx : ClientContext)
        → l.program.stopped ≡ false
        → json.utf8 ctx.client.model_name ≡ false
        → main json (some o) boot (
            es
            ++ (published (emit json connected_event client_key (get_client_json json ctx)) ∷ fs))
          ≡ (if is_stopped_later fs then failure else hangs)
    unfolding run_app step leave_main join
    main_hangs-published lib fs ctx s e =
        main-run_app
          (published (emit json connected_event client_key (get_client_json json ctx)) ∷ fs)
        ∙ ap (leave_main json) one
        ∙ left_waiting fs l s
      where
        one :
            run_app json
              (published (emit json connected_event client_key (get_client_json json ctx)) ∷ fs)
              l
            ≡ threw (asio_rest json fs l)
        one = rw (run_app, step, undumped lib ctx e) refl
