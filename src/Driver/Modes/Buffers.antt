-- ===== src/Driver/Modes/Buffers.antt =====
-- What the mode callbacks leave in the OS's buffer.
use native.Mathlib.Decide.{dec_lt}
use monidroid.Base.{
  ℕ, zero, suc, ◌+◌, ◌≤◌, ◌<◌, ◌≡◌, refl, ◌∙◌, arith, List, some, length, set, get_elem?,
  length-set, get_elem?-set_self, get_elem?-set_ne, ltb, le→ltb, lt→ltb, if◌then◌else◌,
}
use monidroid.Edid.Data.{MonitorMode}
use monidroid.Driver.Status.{success, buffer_too_small}
use monidroid.Driver.Modes.{
  ModeEntry, monitor_mode, target_mode, monitor_descriptor, driver, ModesOut, make_signal_info,
  mode_at, fill, modes_count, timing_at, preferred_mode, parse_monitor_description,
  get_default_description_modes, query_target_modes,
}

module _ (entry : ℕ → ModeEntry) where
  pub length-fill :
      (n i : ℕ) (buffer : List ModeEntry) → length (fill entry n i buffer) ≡ length buffer
  unfolding fill
  length-fill zero i buffer = refl
  length-fill (suc n) i buffer =
      omega (arith, length-fill n (i + 1) (set buffer i (entry i)), length-set buffer i (entry i))

  fill_before :
      (n i j : ℕ) (buffer : List ModeEntry)
      → j < i
      → get_elem? (fill entry n i buffer) j ≡ get_elem? buffer j
  unfolding fill
  fill_before zero i j buffer h = refl
  fill_before (suc n) i j buffer h =
      fill_before n (i + 1) j _ (omega arith) ∙ get_elem?-set_ne buffer (entry i) (omega arith)

  fill_inside :
      (n i j : ℕ) (buffer : List ModeEntry)
      → i ≤ j
      → j < i + n
      → j < length buffer
      → get_elem? (fill entry n i buffer) j ≡ some (entry j)
  unfolding fill
  fill_inside zero i j buffer h k l = absurd (omega arith)
  fill_inside (suc n) i j buffer h k l = elim (dec_lt i j) [
    | yes more ↦
        fill_inside n (i + 1) j _ (omega arith) (omega arith)
          (omega (arith, length-set buffer i (entry i)))
    | no last ↦
        let e : i ≡ j = omega arith in
        fill_before n (i + 1) j _ (omega arith) ∙ rw e (get_elem?-set_self buffer j (entry j) l)
  ]

  fill_behind :
      (n i j : ℕ) (buffer : List ModeEntry)
      → i + n ≤ j
      → get_elem? (fill entry n i buffer) j ≡ get_elem? buffer j
  unfolding fill
  fill_behind zero i j buffer h = refl
  fill_behind (suc n) i j buffer h =
      fill_behind n (i + 1) j _ (omega arith) ∙ get_elem?-set_ne buffer (entry i) (omega arith)

-- `out` holds the entries for all modes in front, and what `before` held behind them.
pub record IsFilled (entry : ℕ → ModeEntry) (before after : List ModeEntry) : Type 0 where
  pub same_length : length after ≡ length before
  pub written : (j : ℕ) → j < modes_count → get_elem? after j ≡ some (entry j)
  pub kept : (j : ℕ) → modes_count ≤ j → get_elem? after j ≡ get_elem? before j

fill-IsFilled :
    (entry : ℕ → ModeEntry) (buffer : List ModeEntry)
    → modes_count ≤ length buffer
    → IsFilled entry buffer (fill entry modes_count 0 buffer)
fill-IsFilled entry buffer h = record {
  same_length = length-fill entry modes_count 0 buffer;
  written =
      λ j lt. fill_inside entry modes_count 0 j buffer (omega arith) (omega arith) (omega arith);
  kept = λ j le. fill_behind entry modes_count 0 j buffer (omega arith);
}

-- With a long enough buffer the two callbacks for a monitor that is known succeed, answer the number of
-- modes and fill the buffer: the monitor's preferred mode first, then the modes of `CUSTOM_EDID_MODES`.
monitor_modes-IsFilled :
    (preferred : MonitorMode) (out : ModesOut)
    → modes_count ≤ length out.buffer
    → let (status, out') = get_default_description_modes preferred out in
      let (status', out'') = query_target_modes preferred out in
      (status ≡ success)
      × (out'.output_count ≡ modes_count)
      × (out'.preferred_idx ≡ 0)
      × IsFilled
          (λ i. monitor_mode driver (make_signal_info (mode_at preferred i) 0))
          out.buffer
          out'.buffer
      × (status' ≡ success)
      × (out''.output_count ≡ modes_count)
      × IsFilled
          (λ i. target_mode (make_signal_info (mode_at preferred i) 1))
          out.buffer
          out''.buffer
unfolding get_default_description_modes query_target_modes
monitor_modes-IsFilled preferred out h =
    rw (le→ltb _ _ h)
      (refl, refl, refl, fill-IsFilled _ out.buffer h, refl, refl, fill-IsFilled _ out.buffer h)

-- With a long enough buffer, `MdEvtParseMonitorDescription` fills it from the preferred mode of the
-- block, and leaves the output count as it was.
pub parse_monitor_description-IsFilled :
    (pdata : List ℕ) (preferred : MonitorMode) (out : ModesOut)
    → modes_count ≤ length out.buffer
    → preferred_mode (timing_at pdata) ≡ some preferred
    → (out' : ModesOut) × (parse_monitor_description pdata out ≡ some (success, out'))
      × IsFilled
          (λ i. monitor_mode monitor_descriptor (make_signal_info (mode_at preferred i) 0))
          out.buffer
          out'.buffer
      × (out'.preferred_idx ≡ 0)
      × (out'.output_count ≡ out.output_count)
unfolding parse_monitor_description
parse_monitor_description-IsFilled pdata preferred out h e = (
  record out {
    buffer =
        fill (λ i. monitor_mode monitor_descriptor (make_signal_info (mode_at preferred i) 0))
          modes_count 0 out.buffer;
    preferred_idx = 0;
  },
  rw (le→ltb _ _ h, e),
  fill-IsFilled _ out.buffer h,
  refl,
  refl,
)

-- A buffer that is too short is not written: every callback answers how long it has to be, with success
-- if the OS only asked for the length.
pub modes_too_short :
    (pdata : List ℕ) (preferred : MonitorMode) (out : ModesOut)
    → length out.buffer < modes_count
    → let answer = (if ltb 0 (length out.buffer) then buffer_too_small else success) in
      let out' = record out { output_count = modes_count } in
      (parse_monitor_description pdata out ≡ some (answer, out'))
      × (get_default_description_modes preferred out ≡ (answer, out'))
      × (query_target_modes preferred out ≡ (answer, out'))
unfolding parse_monitor_description get_default_description_modes query_target_modes
modes_too_short pdata preferred out h = rw (lt→ltb _ _ h) (refl, refl, refl)
