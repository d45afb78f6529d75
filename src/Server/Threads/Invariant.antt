-- ===== src/Server/Threads/Invariant.antt =====
-- What holds in every state that the server comes to.
use monidroid.Base.{
  ℕ, ◌+◌, ◌≤◌, ◌≡◌, ◌≢◌, refl, sym, ap, subst, ◌∙◌, arith, true, false, not, ◌==◌, ==_iff, none,
  some, List, [], ◌∷◌, Bool-cases, Option-cases, inl, inr,
}
use monidroid.Client.Data.{Client}
use monidroid.Client.Send.{force_disconnect}
use monidroid.Server.Data.{Server, Notice, client_connected, client_disconnected, context, contains}
use monidroid.Server.Main.{
  failed, new_server, add_context, store_handle, on_accept, register, unregister, notify,
  set_client, on_client, force_disconnect_id, find_id,
}
use monidroid.Server.Threads.{
  Stage, unborn, accepted, registered, told, leaving, removed, rejected, turned_away, ended,
  Threads, at, move, Runs, registers, identifies, rejects, refuses, leaves, removes, ends, Step,
  accepts, stores, fails, runs, forces, cancels, copies, joins, skips, joined, returns, Steps, here,
  next, Reach, initial, begin_close, close_next, skip_next, closing, closed, cancelled,
}
use monidroid.Server.Threads.Views.{
  left_of, before_copy, is_storing, names, about, handle-update, handle-update_same, handle,
  is_attached, story,
}

-- The handle of a thread whose context is in no copy is in its context until its last lock, but while it has
-- still to be stored.
pub record Ok (t : Threads) (j : ℕ) : Type 0 where
  pub notices : about j t.server.notices ≡ story j (t.stage j)
  pub handle :
      contains j t.copied ≡ false
      → is_attached (t.stage j) ≡ true
      → handle j t.server ≡ some (not (is_storing j t.storing))

pub record Inv (t : Threads) : Type 0 where
  pub each : (j : ℕ) → Ok t j
  pub left : (j : ℕ) → contains j (left_of t.phase) ≡ true → contains j t.copied ≡ true
  pub before : before_copy t.phase ≡ true → t.copied ≡ []
  pub fresh : (j : ℕ) → t.server.current_id ≤ j → t.stage j ≡ unborn

at_self : (t : Threads) (i : ℕ) (p : Stage) → at i p t.stage i ≡ p
unfolding at
at_self t i p = ground arith

at_other : (t : Threads) (i j : ℕ) (p : Stage) → i ≢ j → at i p t.stage j ≡ t.stage j
unfolding at
at_other t i j p n = ground arith

-- A property of each id, from that of one and that of the others.
one_of : (P : ℕ → Type 0) (i : ℕ) → P i → ((j : ℕ) → i ≢ j → P j) → (j : ℕ) → P j
one_of P i p f j = elim (Bool-cases (i == j)) [
  | inl e ↦ subst P ((==_iff i j).0 e) p
  | inr e ↦ f j (λ k. ground arith)
]

-- A step of the thread `i`.
moved :
    (t : Threads) (i : ℕ) (p : Stage) (s : Server)
    → Inv t
    → t.stage i ≢ unborn
    → s.current_id ≡ t.server.current_id
    → (is_attached p ≡ true → (is_attached (t.stage i) ≡ true) × (handle i s ≡ handle i t.server))
    → ((j : ℕ) → i ≢ j → handle j s ≡ handle j t.server)
    → about i s.notices ≡ story i p
    → ((j : ℕ) → i ≢ j → about j s.notices ≡ about j t.server.notices)
    → Inv (move t i p s)
moved t i p s n started same own others heard heard_others = record {
  each =
      one_of (Ok (move t i p s)) i
        (record {
          notices = heard ∙ ap (story i) (sym (at_self t i p));
          handle = λ c a.
              let (b, h) = own (ap is_attached (sym (at_self t i p)) ∙ a) in
              h ∙ (n.each i).handle c b;
        })
        (λ j k. record {
          notices = heard_others j k ∙ (n.each j).notices ∙ ap (story j) (sym (at_other t i j p k));
          handle = λ c a.
              others j k ∙ (n.each j).handle c (ap is_attached (sym (at_other t i j p k)) ∙ a);
        });
  left = n.left;
  before = n.before;
  fresh =
      one_of (λ j. s.current_id ≤ j → at i p t.stage j ≡ unborn) i
        (λ h. absurd (started (n.fresh i (subst (λ m. m ≤ i) same h))))
        (λ j k h. at_other t i j p k ∙ n.fresh j (subst (λ m. m ≤ j) same h));
}

about_self :
    (i : ℕ) (ns : List Notice) (m : Notice) → names i m ≡ true → about i (m ∷ ns) ≡ m ∷ about i ns
unfolding about
about_self i ns m e = rw (about, e) refl

about_other :
    (j : ℕ) (ns : List Notice) (m : Notice) → names j m ≡ false → about j (m ∷ ns) ≡ about j ns
unfolding about
about_other j ns m e = rw (about, e) refl

same_client : (i j : ℕ) (c : Client) (s : Server) → handle j (set_client s i c) ≡ handle j s
unfolding set_client
same_client i j c s =
    handle-update_same (λ x. record x { client = c }) i j s.contexts (λ _. refl) (λ _. refl)

detached : (s : Server) (i j : ℕ) → i ≢ j → handle j (unregister s i) ≡ handle j s
unfolding unregister
detached s i j n = elim (Bool-cases (contains i s.clients)) [
  | inl e ↦
      rw (unregister, e)
        (handle-update (λ x. record x { joinable = false }) (λ _. false) i j s.contexts (λ _. refl)
            (λ _. refl)
          ∙ ground arith)
  | inr e ↦ rw (unregister, e) refl
]

same_id : (s : Server) (i : ℕ) → (unregister s i).current_id ≡ s.current_id
unfolding unregister
same_id s i = ground arith

same_notices : (s : Server) (i : ℕ) → (unregister s i).notices ≡ s.notices
unfolding unregister
same_notices s i = ground arith

not_unborn : (t : Threads) (i : ℕ) (p : Stage) → t.stage i ≡ p → p ≢ unborn → t.stage i ≢ unborn
not_unborn t i p e n q = n (sym e ∙ q)

attached :
    (t : Threads) (i : ℕ) (p : Stage)
    → t.stage i ≡ p
    → is_attached p ≡ true
    → is_attached (t.stage i) ≡ true
attached t i p e h = ap is_attached e ∙ h

heard :
    (t : Threads) (i : ℕ) (p : Stage) → Inv t → t.stage i ≡ p → about i t.server.notices ≡ story i p
heard t i p n e = (n.each i).notices ∙ ap (story i) e

Runs-Inv : (t : Threads) (i : ℕ) {u : Threads} → Runs t i u → Inv t → Inv u
unfolding is_attached story names
Runs-Inv t i (registers e) n =
    moved t i registered (register t.server i) n (not_unborn t i accepted e (λ q. cc q))
      (unfold register in refl) (λ _. (attached t i accepted e refl, unfold register in refl))
      (λ j k. unfold register in refl) (unfold register in heard t i accepted n e)
      (λ j k. unfold register in refl)
Runs-Inv t i (identifies c e) n =
    moved t i told (notify (set_client t.server i c) (client_connected i)) n
      (not_unborn t i registered e (λ q. cc q)) (unfold notify set_client in refl)
      (λ _. (attached t i registered e refl, unfold notify in same_client i i c t.server))
      (λ j k. unfold notify in same_client i j c t.server)
      (unfold notify set_client in
        (about_self i t.server.notices (client_connected i) (ground arith)
          ∙ ap (λ ns. client_connected i ∷ ns) (heard t i registered n e)))
      (λ j k.
        unfold notify set_client in
        about_other j t.server.notices (client_connected i) (ground arith))
Runs-Inv t i (rejects c e) n =
    moved t i rejected (set_client t.server i c) n (not_unborn t i registered e (λ q. cc q))
      (unfold set_client in refl)
      (λ _. (attached t i registered e refl, same_client i i c t.server))
      (λ j k. same_client i j c t.server) (unfold set_client in heard t i registered n e)
      (λ j k. unfold set_client in refl)
Runs-Inv t i (refuses c e) n =
    moved t i turned_away (set_client t.server i c) n (not_unborn t i told e (λ q. cc q))
      (unfold set_client in refl) (λ _. (attached t i told e refl, same_client i i c t.server))
      (λ j k. same_client i j c t.server) (unfold set_client in heard t i told n e)
      (λ j k. unfold set_client in refl)
Runs-Inv t i (leaves c e) n =
    moved t i leaving (set_client t.server i c) n (not_unborn t i told e (λ q. cc q))
      (unfold set_client in refl) (λ _. (attached t i told e refl, same_client i i c t.server))
      (λ j k. same_client i j c t.server) (unfold set_client in heard t i told n e)
      (λ j k. unfold set_client in refl)
Runs-Inv t i (removes e h) n =
    moved t i removed (unregister t.server i) n (not_unborn t i leaving e (λ q. cc q))
      (same_id t.server i) (λ a. cc a) (λ j k. detached t.server i j k)
      (ap (about i) (same_notices t.server i) ∙ heard t i leaving n e)
      (λ j k. ap (about j) (same_notices t.server i))
Runs-Inv t i (ends e) n =
    moved t i ended (notify t.server (client_disconnected i)) n
      (not_unborn t i removed e (λ q. cc q)) (unfold notify in refl) (λ a. cc a)
      (λ j k. unfold notify in refl)
      (unfold notify in
        (about_self i t.server.notices (client_disconnected i) (ground arith)
          ∙ ap (λ ns. client_disconnected i ∷ ns) (heard t i removed n e)))
      (λ j k.
        unfold notify in about_other j t.server.notices (client_disconnected i) (ground arith))

-- A step that changes neither stages nor notices nor the ids.
still :
    (t u : Threads)
    → Inv t
    → u.stage ≡ t.stage
    → u.server.notices ≡ t.server.notices
    → u.server.current_id ≡ t.server.current_id
    → ((j : ℕ)
        → contains j u.copied ≡ false
        → is_attached (t.stage j) ≡ true
        → handle j u.server ≡ some (not (is_storing j u.storing)))
    → ((j : ℕ) → contains j (left_of u.phase) ≡ true → contains j u.copied ≡ true)
    → (before_copy u.phase ≡ true → u.copied ≡ [])
    → Inv u
still t u n stages ns same kept left before = record {
  each = λ j. record {
    notices = ap (about j) ns ∙ (n.each j).notices ∙ ap (λ f. story j (f j)) (sym stages);
    handle = λ c a. kept j c (ap (λ f. is_attached (f j)) (sym stages) ∙ a);
  };
  left = left;
  before = before;
  fresh = λ j h. ap (λ f. f j) stages ∙ n.fresh j (subst (λ m. m ≤ j) same h);
}

-- A change to the client of a context.
cut_off : (f : Client → Client) (i j : ℕ) (s : Server) → handle j (on_client f s i) ≡ handle j s
unfolding on_client
cut_off f i j s =
    handle-update_same (λ x. record x { client = f x.client }) i j s.contexts (λ _. refl)
      (λ _. refl)

forced :
    (s : Server) (text : List ℕ)
    → let s' = (force_disconnect_id s text).0 in
      ((j : ℕ) → handle j s' ≡ handle j s)
      × (s'.notices ≡ s.notices)
      × (s'.current_id ≡ s.current_id)
unfolding force_disconnect_id on_client
forced s text = elim (Option-cases (find_id text s.clients)) [
  | inl e ↦ rw (e, force_disconnect_id) ((λ j. refl), refl, refl)
  | inr (i, e) ↦
      rw (e, force_disconnect_id) ((λ j. cut_off (λ c. force_disconnect c true) i j s), refl, refl)
]

accepts-Inv :
    (t : Threads) (address : List ℕ) (now : ℕ)
    → t.storing ≡ none
    → Inv t
    → Inv (record (move t t.server.current_id accepted (add_context t.server address now)) {
      storing = some t.server.current_id;
    })
unfolding add_context context is_storing story
accepts-Inv t address now e n =
    let i = t.server.current_id in
    let u : Threads = record (move t i accepted (add_context t.server address now)) {
      storing = some i;
    } in
    record {
      each =
          one_of (Ok u) i
            (record {
              notices =
                  (n.each i).notices
                  ∙ ap (story i) (n.fresh i (omega arith))
                  ∙ ap (story i) (sym (at_self t i accepted));
              handle = λ c a. ground arith;
            })
            (λ j k. record {
              notices = (n.each j).notices ∙ ap (story j) (sym (at_other t i j accepted k));
              handle = λ c a.
                  let h =
                    (n.each j).handle c (ap is_attached (sym (at_other t i j accepted k)) ∙ a) in
                  let q : handle j u.server ≡ handle j t.server = ground arith in
                  q ∙ h ∙ (rw e (ground arith));
            });
      left = n.left;
      before = n.before;
      fresh =
          one_of (λ j. i + 1 ≤ j → at i accepted t.stage j ≡ unborn) i
            (λ h. absurd (omega (arith, h)))
            (λ j k h. at_other t i j accepted k ∙ n.fresh j (omega (arith, h)));
    }

-- The handle that is stored.
stored :
    (t : Threads) (i : ℕ)
    → t.storing ≡ some i
    → (j : ℕ) → handle j t.server ≡ some (not (is_storing j t.storing))
    → handle j (store_handle t.server i) ≡ some true
unfolding store_handle is_storing
stored t i e j h =
    handle-update (λ x. record x { joinable = true }) (λ _. true) i j t.server.contexts (λ _. refl)
      (λ _. refl)
    ∙ elim (Bool-cases (i == j)) [
      | inl q ↦ rw (q, h) refl
      | inr q ↦
          let z : is_storing j t.storing ≡ false = rw e q in rw q (h ∙ ap (λ b. some (not b)) z)
    ]

moved_out :
    (t : Threads) (i j : ℕ) (is : List ℕ)
    → i ≢ j
    → handle j (close_next t i is).server ≡ handle j t.server
unfolding close_next
moved_out t i j is k =
    handle-update (λ x. record x { joinable = false }) (λ _. false) i j
      (on_client (λ c. force_disconnect c false) t.server i).contexts (λ _. refl) (λ _. refl)
    ∙ (rw (unequal i j k) (cut_off (λ c. force_disconnect c false) i j t.server))
  where
    unequal : (i j : ℕ) → i ≢ j → (i == j) ≡ false
    unequal i j k = ground arith

-- The loop of the destructor goes on with what it had left.
fewer :
    (t : Threads) (i : ℕ) (is : List ℕ)
    → Inv t
    → t.phase ≡ closing (i ∷ is)
    → (contains i t.copied ≡ true) × ((j : ℕ) → contains j is ≡ true → contains j t.copied ≡ true)
unfolding left_of contains
fewer t i is n e = (n.left i (rw e (ground arith)), λ j h. n.left j (rw e (ground (arith, h))))

pub Step-Inv : (t : Threads) {u : Threads} → Step t u → Inv t → Inv u
unfolding left_of before_copy contains is_storing begin_close close_next skip_next
Step-Inv t (accepts address now a e) n = accepts-Inv t address now e n
Step-Inv t (stores i e) n =
    still t (record t { server = store_handle t.server i; storing = none }) n refl
      (unfold store_handle in refl) (unfold store_handle in refl)
      (λ j c a. stored t i e j ((n.each j).handle c a)) n.left n.before
Step-Inv t (fails a e) n =
    still t (record t { server = on_accept t.server failed }) n refl (unfold on_accept in refl)
      (unfold on_accept in refl) (λ j c a. unfold on_accept in (n.each j).handle c a) n.left
      n.before
Step-Inv t (runs i r) n = Runs-Inv t i r n
Step-Inv t (forces text e) n =
    let (h, m, i) = forced t.server text in
    still t (record t { server = (force_disconnect_id t.server text).0 }) n refl m i
      (λ j c a. h j ∙ (n.each j).handle c a) n.left n.before
Step-Inv t (cancels e) n =
    still t (record t { phase = cancelled }) n refl refl refl (λ j c a. (n.each j).handle c a)
      (λ j h. cc h) (λ h. n.before (rw e refl))
Step-Inv t (copies e) n =
    still t (begin_close t) n (unfold begin_close in refl) (unfold begin_close in refl)
      (unfold begin_close in refl)
      (λ j c a. unfold begin_close in (n.each j).handle (rw (n.before (rw e refl)) refl) a)
      (λ j h. unfold begin_close in h) (λ h. cc h)
Step-Inv t (joins i is e h) n =
    let (took, rest) = fewer t i is n e in
    still t (close_next t i is) n (unfold close_next in refl) (unfold close_next in refl)
      (unfold close_next in refl)
      (λ j c a. moved_out t i j is (apart i j took c) ∙ unfold close_next in (n.each j).handle c a)
      (λ j h. unfold close_next in rest j h) (λ h. cc h)
  where
    apart : (i j : ℕ) → contains i t.copied ≡ true → contains j t.copied ≡ false → i ≢ j
    apart i j a b k = cc (a, b, k)
Step-Inv t (skips i is e h) n =
    let (took, rest) = fewer t i is n e in
    still t (skip_next t i is) n (unfold skip_next in refl) (unfold skip_next on_client in refl)
      (unfold skip_next on_client in refl)
      (λ j c a.
        unfold skip_next in
        (cut_off (λ c. force_disconnect c false) i j t.server ∙ (n.each j).handle c a))
      (λ j h. unfold skip_next in rest j h) (λ h. cc h)
Step-Inv t (joined i is e r) n =
    still t (record t { phase = closing is }) n refl refl refl (λ j c a. (n.each j).handle c a)
      (λ j h. n.left j (rw e h)) (λ h. cc h)
Step-Inv t (returns e) n =
    still t (record t { phase = closed }) n refl refl refl (λ j c a. (n.each j).handle c a)
      (λ j h. cc h) (λ h. cc h)

pub Steps-Inv : (t : Threads) {u : Threads} → Steps t u → Inv t → Inv u
Steps-Inv t here n = n
Steps-Inv t (next {u} r st) n = Step-Inv u st (Steps-Inv t r n)

initial-Inv : (i : ℕ) (s : Server) → new_server true true i ≡ some s → Inv (initial s)
unfolding new_server contains left_of about is_attached story
initial-Inv i s e =
    subst (λ o. elim o [ none ↦ Unit {0} | some x ↦ Inv (initial x) ]) e
      (record {
        each = λ j. record { notices = refl; handle = λ c h. cc h };
        left = λ j h. cc h;
        before = λ h. refl;
        fresh = λ j h. refl;
      })

-- Every state that a new server comes to.
pub Reach-Inv : (i : ℕ) (t : Threads) → Reach i t → Inv t
Reach-Inv i t (s, e, r) = Steps-Inv (initial s) r (initial-Inv i s e)
