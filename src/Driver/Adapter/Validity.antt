-- ===== src/Driver/Adapter/Validity.antt =====
-- The handler of requests over a whole session: the slots keep naming different monitors that exist.
use monidroid.Base.{
  ℕ, zero, suc, ◌≡◌, ◌≢◌, refl, sym, ◌∙◌, subst, arith, Option, none, some, List, [], ◌∷◌,
  get_elem?, set, length, ◌==◌, ==_iff, Bool-cases, Option-cases, inl, inr, ◌⊎◌, if◌then◌else◌,
  length-set,
}
use monidroid.Edid.Mode.{Doubles}
use monidroid.Driver.Status.{Status}
use monidroid.Driver.Monitor.{
  new_monitor, setup_monitor, MonitorContext, FrameMonitorInfo, RequestEnd, Hresult,
}
use monidroid.Driver.Monitor
use monidroid.Driver.Adapter.{
  max_monitor_count, AdapterContext, AdapterMonitorInfo, Connected, Framework, empty_slot,
  connect_monitor, plug_in, with_monitor, disconnect_monitor, find_monitor, put_monitor,
  frame_request,
}
use monidroid.Driver.Ioctl.{IoRequest, monitor_connect}

-- The slot `i` has the monitor `h`.
abbrev pub Plugged : AdapterContext → ℕ → ℕ → Type 0
Plugged a i h = get_elem? a.connected_monitors i ≡ some (some h)

pub record IsValid (a : AdapterContext) : Type 0 where
  pub slots : length a.connected_monitors ≡ max_monitor_count
  pub different : (i j h : ℕ) → Plugged a i h → Plugged a j h → i ≡ j
  pub exist :
      (i h : ℕ) → Plugged a i h → (m : MonitorContext) × (find_monitor h a.monitors ≡ some m)

-- A slot after a write to another, or to itself.
after_set :
    (xs : List (Option ℕ)) (i j : ℕ) (v : Option ℕ) (h : ℕ)
    → get_elem? (set xs i v) j ≡ some (some h)
    → (i ≡ j → v ≡ some h) × (i ≢ j → get_elem? xs j ≡ some (some h))
after_set [] i j v h e = cc
after_set (x ∷ xs) zero zero v h e = (λ _. cc, λ n. absurd (n refl))
after_set (x ∷ xs) zero (suc j) v h e = (λ k. absurd (omega arith), λ _. e)
after_set (x ∷ xs) (suc i) zero v h e = (λ k. absurd (omega arith), λ _. e)
after_set (x ∷ xs) (suc i) (suc j) v h e =
    let (a, b) = after_set xs i j v h e in (λ k. a (omega arith), λ n. b (λ k. n (omega arith)))

find-put :
    (h k : ℕ) (m : MonitorContext) (ms : List (ℕ × MonitorContext))
    → find_monitor k (put_monitor h m ms) ≡ (if h == k then some m else find_monitor k ms)
unfolding find_monitor put_monitor
find-put h k m ms = refl

the_number : (h k : ℕ) → ◌≡◌ {A = Option ℕ} (some h) (some k) → h ≡ k
the_number h k e = cc

-- A context that was there is there, or is replaced.
found :
    (h k : ℕ) (m : MonitorContext) (ms : List (ℕ × MonitorContext))
    → (x : MonitorContext) × (find_monitor k ms ≡ some x)
    → (x : MonitorContext) × (find_monitor k (put_monitor h m ms) ≡ some x)
found h k m ms (x, e) = elim (Bool-cases (h == k)) [
  | inl q ↦ (m, rw (find-put h k m ms, q) refl)
  | inr q ↦ (x, rw (find-put h k m ms, q) e)
]

-- A new monitor at a slot.
with_monitor-IsValid :
    (a : AdapterContext) (idx h : ℕ) (info : AdapterMonitorInfo)
    → IsValid a
    → ((i : ℕ) → ¬ Plugged a i h)
    → IsValid (with_monitor a idx h info)
unfolding with_monitor
with_monitor-IsValid a idx h info v new = record {
  slots = length-set a.connected_monitors idx (some h) ∙ v.slots;
  different = λ i j k p q. apart i j k (at_slot i k p) (at_slot j k q);
  exist = λ i k p. there i k (at_slot i k p);
}
  where
    -- A slot with `k` is the new one, or one of before.
    at_slot :
        (i k : ℕ)
        → get_elem? (set a.connected_monitors idx (some h)) i ≡ some (some k)
        → ((idx ≡ i) × (h ≡ k)) ⊎ Plugged a i k
    at_slot i k p =
        let (same, other) = after_set a.connected_monitors idx i (some h) k p in
        elim (Bool-cases (idx == i)) [
          | inl e ↦ let q = (==_iff idx i).0 e in inl (q, the_number h k (same q))
          | inr e ↦ inr (other (λ q. ground arith))
        ]

    apart :
        (i j k : ℕ)
        → ((idx ≡ i) × (h ≡ k)) ⊎ Plugged a i k
        → ((idx ≡ j) × (h ≡ k)) ⊎ Plugged a j k
        → i ≡ j
    apart i j k (inl (p, e)) (inl (q, e')) = sym p ∙ q
    apart i j k (inl (p, e)) (inr q) = absurd (new j (rw e q))
    apart i j k (inr p) (inl (q, e)) = absurd (new i (rw e p))
    apart i j k (inr p) (inr q) = v.different i j k p q

    there :
        (i k : ℕ)
        → ((idx ≡ i) × (h ≡ k)) ⊎ Plugged a i k
        → (m : MonitorContext) × (find_monitor k (
              put_monitor h
                (setup_monitor (new_monitor h) info.width info.height info.hertz)
                a.monitors)
            ≡ some m)
    there i k (inl (p, e)) = (
      setup_monitor (new_monitor h) info.width info.height info.hertz,
      rw (find-put h k (setup_monitor (new_monitor h) info.width info.height info.hertz) a.monitors)
          (ground arith),
    )
    there i k (inr p) = found h k _ a.monitors (v.exist i k p)

-- The framework gives a new monitor a handle that no slot has.
abbrev pub IsNew : AdapterContext → IoRequest → Type 0
IsNew a (monitor_connect info f) = (i h : ℕ) → f.created ≡ some h → ¬ Plugged a i h
IsNew a _ = Unit {0}

-- A property of the adapter after a connection, where that is not undefined.
abbrev pub IfConnected : (AdapterContext → Type 0) → Option Connected → Type 0
IfConnected P none = Unit {0}
IfConnected P (some r) = P r.adapter

pub connected :
    (d : Doubles) (a : AdapterContext) (info : AdapterMonitorInfo) (f : Framework)
    → IsValid a
    → IsNew a (monitor_connect info f)
    → IfConnected IsValid (connect_monitor d a info f)
unfolding connect_monitor plug_in
connected d a info f v new =
    elim (Bool-cases (empty_slot a.connected_monitors == max_monitor_count)) [
      | inl e ↦ rw (connect_monitor, e) tt
      | inr e ↦ elim (Option-cases f.created) [
        | inl q ↦ rw (connect_monitor, e, q) v
        | inr (h, q) ↦
            rw (connect_monitor, e, q)
              (elim (Option-cases f.arrived) [
                | inl z ↦
                    rw (plug_in, z)
                      (with_monitor-IsValid a (empty_slot a.connected_monitors) h info v
                        (λ i. new i h q))
                | inr (l, z) ↦
                    rw (plug_in, z)
                      (with_monitor-IsValid a (empty_slot a.connected_monitors) h info v
                        (λ i. new i h q))
              ])
      ]
    ]

cleared :
    (a : AdapterContext) (idx : ℕ)
    → IsValid a
    → IsValid (record a { connected_monitors = set a.connected_monitors idx none })
cleared a idx v = record {
  slots = length-set a.connected_monitors idx none ∙ v.slots;
  different = λ i j k p q. v.different i j k (of_before i k p) (of_before j k q);
  exist = λ i k p. v.exist i k (of_before i k p);
}
  where
    of_before :
        (i k : ℕ) → get_elem? (set a.connected_monitors idx none) i ≡ some (some k) → Plugged a i k
    of_before i k p =
        let (same, other) = after_set a.connected_monitors idx i none k p in
        elim (Bool-cases (idx == i)) [
          | inl e ↦ absurd (nothing (same ((==_iff idx i).0 e)))
          | inr e ↦ other (λ q. ground arith)
        ]
      where
        nothing : ◌≡◌ {A = Option ℕ} none (some k) → ⊥
        nothing q = cc q

the_adapter :
    (a b : AdapterContext) (s t : Status)
    → ◌≡◌ {A = Option (AdapterContext × Status)} (some (a, s)) (some (b, t))
    → a ≡ b
the_adapter a b s t e = cc e

pub disconnected :
    (a a' : AdapterContext) (idx : ℕ) (departure st : Status)
    → IsValid a
    → disconnect_monitor a idx departure ≡ some (a', st)
    → IsValid a'
unfolding disconnect_monitor
disconnected a a' idx departure st v e = elim (Option-cases (get_elem? a.connected_monitors idx)) [
  | inl q ↦
      let x : disconnect_monitor a idx departure ≡ none = rw (q, disconnect_monitor) refl in
      cc (x, e)
  | inr (none, q) ↦
      let x : disconnect_monitor a idx departure ≡ some (a, Status.not_found) =
        rw (q, disconnect_monitor) refl in
      subst IsValid (the_adapter a a' Status.not_found st (sym x ∙ e)) v
  | inr (some h, q) ↦
      let b : AdapterContext = record a {
        connected_monitors = set a.connected_monitors idx none;
      } in
      let x : disconnect_monitor a idx departure ≡ some (b, departure) =
        rw (q, disconnect_monitor) refl in
      subst IsValid (the_adapter b a' departure st (sym x ∙ e)) (cleared a idx v)
]

-- A frame request for the monitor of a slot.
pub frame_request-others :
    (a : AdapterContext) (i h : ℕ) (info : FrameMonitorInfo) (end : RequestEnd)
    → IsValid a
    → Plugged a i h
    → (r : AdapterContext × FrameMonitorInfo × Hresult) × (frame_request a i info end ≡ some r)
      × IsValid r.0
      × (r.0.connected_monitors ≡ a.connected_monitors)
      × ((j k : ℕ)
          → i ≢ j
          → Plugged a j k
          → find_monitor k r.0.monitors ≡ find_monitor k a.monitors)
unfolding frame_request
frame_request-others a i h info end v p =
    let (m, e) = v.exist i h p in
    let x = Monitor.request_frame m info end in
    let a' : AdapterContext = record a { monitors = put_monitor h x.0 a.monitors } in
    (
      (a', x.1, x.2),
      rw (p, frame_request, e) refl,
      record {
        slots = v.slots;
        different = v.different;
        exist = λ j k q. found h k x.0 a.monitors (v.exist j k q);
      },
      refl,
      λ j k n q. elim (Bool-cases (h == k)) [
        | inl z ↦ absurd (n (v.different i j k (rw (sym ((==_iff h k).0 z)) p) q))
        | inr z ↦ rw (find-put h k x.0 a.monitors, z) refl
      ],
    )
