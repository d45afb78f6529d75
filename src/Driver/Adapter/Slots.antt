-- ===== src/Driver/Adapter/Slots.antt =====
-- The slots of the adapter, and what a monitor that is plugged in shows.
use monidroid.Base.{
  ℕ, zero, suc, ◌+◌, ◌≡◌, ◌<◌, ◌≤◌, refl, sym, ap, ◌∙◌, subst, arith, Option, none, some, List, [],
  ◌∷◌, get_elem?, set, length, ◌==◌, Bool-cases, inl, inr, ==_iff, get_elem?-set_self,
}
use monidroid.Edid.Data.{raw}
use monidroid.Edid.Custom.{custom_edid}
use monidroid.Edid.Commit.{commit}
use monidroid.Edid.Mode.{Doubles, set_default_mode}
use monidroid.Driver.Status.{Status}
use monidroid.Driver.Adapter.{
  max_monitor_count, AdapterContext, AdapterMonitorInfo, Connected, empty_slot, connect_monitor,
  plug_in, with_monitor, disconnect_monitor,
}

next_slot :
    (xs : List (Option ℕ)) (i : ℕ) (o : Option (Option ℕ)) (k : ℕ)
    → get_elem? xs i ≡ o
    → get_elem? (some k ∷ xs) (i + 1) ≡ o
next_slot xs i o k e = subst (λ n. get_elem? (some k ∷ xs) n ≡ o) (add_one i) e
  where
    add_one : (i : ℕ) → suc i ≡ i + 1
    add_one i = omega arith

full_slot :
    (xs : List (Option ℕ)) (k n : ℕ)
    → ((j : ℕ) → j < n → (h : ℕ) × (get_elem? xs j ≡ some (some h)))
    → (j : ℕ) → j < n + 1
    → (h : ℕ) × (get_elem? (some k ∷ xs) j ≡ some (some h))
full_slot xs k n f zero l = (k, refl)
full_slot xs k n f (suc j) l = f j (omega arith)

-- The slot that the search finds is empty and no slot before it is; or all slots are taken.
pub empty_slot_lem :
    (xs : List (Option ℕ))
    → (empty_slot xs ≤ length xs)
      × (empty_slot xs < length xs → get_elem? xs (empty_slot xs) ≡ some none)
      × ((j : ℕ) → j < empty_slot xs → (h : ℕ) × (get_elem? xs j ≡ some (some h)))
unfolding empty_slot
empty_slot_lem [] = (omega arith, (λ h. absurd (omega arith)), λ j h. absurd (omega arith))
empty_slot_lem (none ∷ xs) = (omega arith, (λ _. refl), λ j h. absurd (omega arith))
empty_slot_lem (some k ∷ xs) =
    let (below, empty, taken) = empty_slot_lem xs in
    (
      omega arith,
      (λ h. next_slot xs (empty_slot xs) (some none) k (empty (omega arith))),
      full_slot xs k (empty_slot xs) taken,
    )

pub the_value : (x y : Option ℕ) → some x ≡ some y → x ≡ y
the_value x y e = cc

set_back :
    (xs : List (Option ℕ)) (i : ℕ) (v : Option ℕ)
    → get_elem? xs i ≡ some none
    → set (set xs i v) i none ≡ xs
set_back [] i v h = refl
set_back (x ∷ xs) zero v h = ap (λ y. y ∷ xs) (sym (the_value x none h))
set_back (x ∷ xs) (suc i) v h = ap (λ ys. x ∷ ys) (set_back xs i v h)

pub plugged_in :
    (d : Doubles) (a : AdapterContext) (info : AdapterMonitorInfo) (h luid code code' : ℕ)
    → empty_slot a.connected_monitors < max_monitor_count
    → (r : Connected) × (connect_monitor d a info (record {
      created = some h;
      create_status = code;
      arrived = some luid;
      arrival_status = code';
    })
        ≡ some r)
      × (r.status ≡ Status.success)
      × (r.adapter ≡ with_monitor a (empty_slot a.connected_monitors) h info)
      × (r.info.connector_index ≡ empty_slot a.connected_monitors)
unfolding connect_monitor plug_in
plugged_in d a info h luid code code' l =
    elim (Bool-cases (empty_slot a.connected_monitors == max_monitor_count)) [
      | inl e ↦
          absurd (omega (arith, (==_iff (empty_slot a.connected_monitors) max_monitor_count).0 e))
      | inr e ↦ (
        plug_in a info (empty_slot a.connected_monitors) h
            (record {
              created = some h;
              create_status = code;
              arrived = some luid;
              arrival_status = code';
            })
            (raw (commit (set_default_mode d custom_edid info.width info.height info.hertz))),
        rw (connect_monitor, e) refl,
        refl,
        refl,
        refl,
      )
    ]

unplugged :
    (a : AdapterContext) (h i : ℕ) (departure : Status)
    → get_elem? a.connected_monitors i ≡ some (some h)
    → disconnect_monitor a i departure
      ≡ some (record a { connected_monitors = set a.connected_monitors i none }, departure)
unfolding disconnect_monitor
unplugged a h i departure e = rw (e, disconnect_monitor) refl

-- A monitor that the OS accepts gets the lowest empty slot, which the server is told; all slots below it are
-- taken; and the disconnection of that slot makes the slots what they were.
pub connect_monitor-disconnect_monitor :
    (d : Doubles) (a : AdapterContext) (info : AdapterMonitorInfo) (h luid code code' : ℕ)
    (departure : Status)
    → length a.connected_monitors ≡ max_monitor_count
    → empty_slot a.connected_monitors < max_monitor_count
    → (r : Connected) × (connect_monitor d a info (record {
      created = some h;
      create_status = code;
      arrived = some luid;
      arrival_status = code';
    })
        ≡ some r)
      × (r.status ≡ Status.success)
      × (get_elem? a.connected_monitors r.info.connector_index ≡ some none)
      × (get_elem? r.adapter.connected_monitors r.info.connector_index ≡ some (some h))
      × ((j : ℕ)
          → j < r.info.connector_index
          → (k : ℕ) × (get_elem? a.connected_monitors j ≡ some (some k)))
      × (disconnect_monitor r.adapter r.info.connector_index departure
          ≡ some (record r.adapter { connected_monitors = a.connected_monitors }, departure))
connect_monitor-disconnect_monitor d a info h luid code code' departure len l =
    let (r, er, es, ea, ei) = plugged_in d a info h luid code code' l in
    let i = empty_slot a.connected_monitors in
    let (below, empty, taken) = empty_slot_lem a.connected_monitors in
    let held = held_lem i l in
    (
      r,
      er,
      es,
      rw ei (empty (omega arith)),
      rw (ea, ei) held,
      rw ei taken,
      rw (ea, ei)
          (unplugged (with_monitor a i h info) h i departure held ∙ back i (empty (omega arith))),
    )
  where
    held_lem :
        (i : ℕ)
        → i < max_monitor_count
        → get_elem? (with_monitor a i h info).connected_monitors i ≡ some (some h)
    held_lem i l =
        unfold with_monitor in get_elem?-set_self a.connected_monitors i (some h) (omega arith)

    freed :
        (i : ℕ)
        → get_elem? a.connected_monitors i ≡ some none
        → set (with_monitor a i h info).connected_monitors i none ≡ a.connected_monitors
    freed i e = unfold with_monitor in set_back a.connected_monitors i (some h) e

    back :
        (i : ℕ)
        → get_elem? a.connected_monitors i ≡ some none
        → ◌≡◌ {A = Option (AdapterContext × Status)}
            (some (
              record (with_monitor a i h info) {
                connected_monitors = set (with_monitor a i h info).connected_monitors i none;
              },
              departure,
            ))
            (some (
              record (with_monitor a i h info) { connected_monitors = a.connected_monitors },
              departure,
            ))
    back i e =
        ap (λ xs. some (record (with_monitor a i h info) { connected_monitors = xs }, departure))
          (freed i e)
