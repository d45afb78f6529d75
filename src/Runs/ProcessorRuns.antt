-- ===== src/Runs/ProcessorRuns.antt =====
-- Runs of a monitor's processors.
use monidroid.Base.{◌≡◌, refl, true, false, some, List, [], ◌∷◌}
use monidroid.Driver.Lifecycle.{
  InitCalls, init, new_lifecycle, new_processor, start, end_thread, stop, free, free_processor,
  stop_current, install, Callback, assign, unassign, thread_ends, callback, callbacks, cleanup,
}
use monidroid.Driver.Lifecycle.Resources.{
  IsClean, idle, busy, unassigned, runs_on, callbacks-IsClean,
}

abbrev all_made : InitCalls
all_made = record {
  factory_made = true;
  adapter_found = true;
  device_made = true;
  device_is_3 = true;
  context_is_3 = true;
}

-- A processor that starts, one that takes its place but has no thread, and one that starts again.
abbrev history : List Callback
history =
    assign (record {
      init_calls = all_made;
      stop_event_made = true;
      frame_ready_event_made = true;
      thread_made = true;
    })
    ∷ thread_ends
    ∷ assign (record {
      init_calls = all_made;
      stop_event_made = true;
      frame_ready_event_made = true;
      thread_made = false;
    })
    ∷ assign (record {
      init_calls = all_made;
      stop_event_made = true;
      frame_ready_event_made = true;
      thread_made = true;
    })
    ∷ []

history_lem : callbacks history new_lifecycle ≡ some (busy true)
unfolding callbacks callback new_lifecycle install init start new_processor free_processor free
    end_thread stop_current stop
history_lem = refl

callbacks-IsClean_example :
    IsClean (busy true)
    × (callback unassign (busy true) ≡ unassigned (busy true).processor)
    × (cleanup (busy true) ≡ record idle { orphans = runs_on (busy true).processor })
callbacks-IsClean_example = callbacks-IsClean history (busy true) history_lem
