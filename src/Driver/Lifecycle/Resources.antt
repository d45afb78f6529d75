-- ===== src/Driver/Lifecycle/Resources.antt =====
-- What the callbacks leave in the system.
use monidroid.Base.{
  ℕ, ◌≡◌, refl, subst, Bool, true, false, Option, none, some, List, [], ◌∷◌, Bool-cases,
  Option-cases, inl, inr,
}
use monidroid.Driver.Lifecycle.{
  Processor, Lifecycle, new_lifecycle, init, StartCalls, new_processor, start, end_thread, stop,
  count, free, free_processor, stop_current, install, Callback, assign, unassign, thread_ends,
  callback, callbacks, cleanup,
}

-- A processor that has started, whose thread runs or has ended.
abbrev pub started : Bool → Processor
started b = record {
  has_stop_event = true;
  has_frame_ready_event = true;
  has_thread = true;
  runs = b;
  has_swap_chain = b;
}

-- A context with no processor, and one with a processor.
abbrev pub idle : Lifecycle
idle = record { processor = none; handles = 0; swap_chains = 0; orphans = 0 }

abbrev pub busy : Bool → Lifecycle
busy b = record { processor = some (started b); handles = 4; swap_chains = count b; orphans = 0 }

-- There are no others.
pub data IsClean : Lifecycle → Type 0 where
  is_idle : IsClean idle
  is_busy : (b : Bool) → IsClean (busy b)

abbrev AllClean : Option Lifecycle → Type 0
AllClean none = Unit {0}
AllClean (some l) = IsClean l

-- A new processor in place of none, or of one whose thread has ended.
installed : (c : StartCalls) → IsClean (install c idle) × IsClean (install c (busy false))
unfolding install start new_processor free_processor free
installed c = elim (Bool-cases (init c.init_calls)) [
  | inl i ↦ rw i (elim (Bool-cases c.stop_event_made) [
    | inl s ↦ rw s (elim (Bool-cases c.frame_ready_event_made) [
      | inl f ↦ rw f (elim (Bool-cases c.thread_made) [
        | inl t ↦ rw t (is_busy true, is_busy true)
        | inr t ↦ rw t (is_idle, is_idle)
      ])
      | inr f ↦ rw f (is_idle, is_idle)
    ])
    | inr s ↦ rw s (is_idle, is_idle)
  ])
  | inr i ↦ rw i (is_idle, is_idle)
]

callback-AllClean : (c : Callback) (l : Lifecycle) → IsClean l → AllClean (callback c l)
unfolding callback stop_current free_processor free end_thread
callback-AllClean (assign c) _ is_idle = (installed c).0
callback-AllClean (assign c) _ (is_busy true) = (installed c).1
callback-AllClean (assign c) _ (is_busy false) = (installed c).1
callback-AllClean unassign _ is_idle = tt
callback-AllClean unassign _ (is_busy true) = is_idle
callback-AllClean unassign _ (is_busy false) = is_idle
callback-AllClean thread_ends _ is_idle = is_idle
callback-AllClean thread_ends _ (is_busy true) = is_busy false
callback-AllClean thread_ends _ (is_busy false) = is_busy false

callbacks-AllClean : (cs : List Callback) (l : Lifecycle) → IsClean l → AllClean (callbacks cs l)
unfolding callbacks
callbacks-AllClean [] l h = h
callbacks-AllClean (c ∷ cs) l h = elim (Option-cases (callback c l)) [
  | inl e ↦ rw (callbacks, e) tt
  | inr (l', e) ↦
      rw (callbacks, e) (callbacks-AllClean cs l' (subst AllClean e (callback-AllClean c l h)))
]

-- What the two ends of a monitor leave: the removal of its swap chain, and its clean-up.
abbrev pub unassigned : Option Processor → Option Lifecycle
unassigned none = none
unassigned (some p) = some idle

abbrev pub runs_on : Option Processor → ℕ
runs_on none = 0
runs_on (some p) = count p.runs

ends :
    (l : Lifecycle)
    → IsClean l
    → (callback unassign l ≡ unassigned l.processor)
      × (cleanup l ≡ record idle { orphans = runs_on l.processor })
unfolding callback cleanup stop_current stop free_processor free end_thread
ends _ is_idle = (refl, refl)
ends _ (is_busy true) = (refl, refl)
ends _ (is_busy false) = (refl, refl)

-- Whatever callbacks a monitor has met, however its processors failed to start, and whenever their threads ended
-- by themselves: no thread runs on a processor that has been freed; the open handles are the four of the
-- processor, if there is one, and a swap chain is left only while its thread runs. If the framework then takes
-- the swap chain away, nothing is left, where there is a processor. If the monitor is cleaned up without that,
-- a thread that runs goes on with the processor that was freed.
pub callbacks-IsClean :
    (cs : List Callback) (l : Lifecycle)
    → callbacks cs new_lifecycle ≡ some l
    → IsClean l
      × (callback unassign l ≡ unassigned l.processor)
      × (cleanup l ≡ record idle { orphans = runs_on l.processor })
unfolding new_lifecycle
callbacks-IsClean cs l e =
    let clean : IsClean l = subst AllClean e (callbacks-AllClean cs idle is_idle) in
    (clean, (ends l clean).0, (ends l clean).1)
