-- ===== src/Driver/Lifecycle.antt =====
-- iddcx-driver/Monitor.cpp: the processors of a monitor, with their threads, handles and swap chains, over the
-- callbacks of the framework.
pub mod Resources
use monidroid.Base.{
  ℕ, ◌+◌, ◌-◌, Bool, true, false, Option, none, some, List, [], ◌∷◌, if◌then◌else◌,
}

-- A processor: which of its handles it has made, whether its thread runs, and whether its swap chain is there.
pub record Processor : Type 0 where
  pub has_stop_event : Bool
  pub has_frame_ready_event : Bool
  pub has_thread : Bool
  pub runs : Bool
  pub has_swap_chain : Bool

-- A monitor's context, with what there is in the system: the handles that are open, the swap chains that are
-- not deleted, and the threads that run on a processor that has been freed.
pub record Lifecycle : Type 0 where
  pub processor : Option Processor
  pub handles : ℕ
  pub swap_chains : ℕ
  pub orphans : ℕ

-- The context is new.
unfoldable pub new_lifecycle : Lifecycle
new_lifecycle = record { processor = none; handles = 0; swap_chains = 0; orphans = 0 }

-- Which calls of `Init` succeed, if it comes to them, in their order.
pub record InitCalls : Type 0 where
  pub factory_made : Bool
  pub adapter_found : Bool
  pub device_made : Bool
  pub device_is_3 : Bool
  pub context_is_3 : Bool

-- `Init`: whether it succeeds.
unfoldable pub init : InitCalls → Bool
init c =
    if c.factory_made
    then (if c.adapter_found
        then (if c.device_made then (if c.device_is_3 then c.context_is_3 else false) else false)
        else false)
    else false

-- What a new processor meets: the calls of `Init`, and which calls of `Start` succeed.
pub record StartCalls : Type 0 where
  pub init_calls : InitCalls
  pub stop_event_made : Bool
  pub frame_ready_event_made : Bool
  pub thread_made : Bool

-- The constructor. The framework hands over the swap chain and the event for new surfaces.
unfoldable pub new_processor : Processor
new_processor = record {
  has_stop_event = false;
  has_frame_ready_event = false;
  has_thread = false;
  runs = false;
  has_swap_chain = true;
}

-- `Init` and `Start`: the processor, how many handles were made, and whether all succeeded.
unfoldable pub start : StartCalls → Processor → Processor × ℕ × Bool
unfolding init
start c p =
    if init c.init_calls
    then (if c.stop_event_made
        then (if c.frame_ready_event_made
            then (if c.thread_made
                then (
                  record p {
                    has_stop_event = true;
                    has_frame_ready_event = true;
                    has_thread = true;
                    runs = true;
                  },
                  3,
                  true,
                )
                else (record p { has_stop_event = true; has_frame_ready_event = true }, 2, false))
            else (record p { has_stop_event = true }, 1, false))
        else (p, 0, false))
    else (p, 0, false)

-- The end of `ThreadProc`, which deletes the swap chain; by itself, or because it was told to stop.
unfoldable pub end_thread : Processor → Processor
end_thread p = record p { runs = false; has_swap_chain = false }

-- `Stop`, which waits for the thread: the processor, and how many swap chains it deleted.
unfoldable pub stop : Processor → Processor × ℕ
unfolding end_thread
stop p = if p.runs then (end_thread p, 1) else (p, 0)

abbrev pub count : Bool → ℕ
count b = if b then 1 else 0

-- `~MonitorProcessor`. A thread that still runs is not stopped.
unfoldable pub free : Processor → Lifecycle → Lifecycle
free p l = record l {
  handles =
      l.handles - (1 + count p.has_thread + count p.has_stop_event + count p.has_frame_ready_event);
  swap_chains = l.swap_chains - count p.has_swap_chain;
  orphans = l.orphans + count p.runs;
}

unfoldable pub free_processor : Option Processor → Lifecycle → Lifecycle
unfolding free
free_processor none l = l
free_processor (some p) l = free p l

-- The first line of `AssignSwapChain`.
unfoldable pub stop_current : Lifecycle → Lifecycle
unfolding stop
stop_current l = elim l.processor [
  | none ↦ l
  | some p ↦ record l { processor = some (stop p).0; swap_chains = l.swap_chains - (stop p).1 }
]

-- The rest, on the new processor: the old one is freed by `reset`, and the new one where it fails.
unfoldable pub install : StartCalls → Lifecycle → Lifecycle
unfolding free_processor new_processor start
install c l =
    let l1 =
      free_processor l.processor
        (record l { handles = l.handles + 1; swap_chains = l.swap_chains + 1 }) in
    let r = start c new_processor in
    let l2 : Lifecycle = record l1 { processor = some r.0; handles = l1.handles + r.1 } in
    if r.2 then l2 else record (free_processor (some r.0) l2) { processor = none }

-- The callbacks of the framework, and a thread that ends by itself.
pub data Callback : Type 0 where
  assign : StartCalls → Callback
  unassign : Callback
  thread_ends : Callback

-- `none` is the call of a processor that is not there.
unfoldable pub callback : Callback → Lifecycle → Option Lifecycle
unfolding stop_current install free_processor end_thread
callback (assign c) l = some (install c (stop_current l))
callback unassign l = elim l.processor [
  | none ↦ none
  | some p ↦
      let l' = stop_current l in some (record (free_processor l'.processor l') { processor = none })
]
callback thread_ends l = elim l.processor [
  | none ↦ some l
  | some p ↦
      if p.runs
      then some (record l { processor = some (end_thread p); swap_chains = l.swap_chains - 1 })
      else some l
]

unfoldable pub callbacks : List Callback → Lifecycle → Option Lifecycle
unfolding callback
callbacks [] l = some l
callbacks (c ∷ cs) l = elim (callback c l) [ none ↦ none | some l' ↦ callbacks cs l' ]

-- `MonitorContextWrapper::Cleanup`: the context and its processor are freed.
unfoldable pub cleanup : Lifecycle → Lifecycle
unfolding free_processor
cleanup l = record (free_processor l.processor l) { processor = none }
