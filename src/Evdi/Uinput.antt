-- ===== src/Evdi/Uinput.antt =====
-- server/linux/evdi.cpp: the input device of a monitor, and what the input of a client (server/client.cpp)
-- writes to it. And the arguments that a monitor is connected with.
use monidroid.Base.{
  ℕ, u32, ◌*◌, ◌≡◌, refl, Bool, true, false, ◌||◌, Option, none, some, List, [], ◌∷◌, if◌then◌else◌,
}
use monidroid.Edid.Data.{MonitorMode, Edid, timing, desc, raw}
use monidroid.Edid.Custom.{custom_edid}
use monidroid.Edid.Mode.{Doubles, set_default_mode}
use monidroid.Edid.Commit.{commit}
use monidroid.Client.Input.{InputEvent, mouse_move, mouse_buttons, mouse_scroll}
use monidroid.Evdi.Data.{
  MonitorContext, Report, rel_x, rel_y, rel_wheel, btn_left, btn_right, btn_middle, syn,
}
use monidroid.Evdi.Monitor.{
  monitor_send_input_move, monitor_send_input_buttons, monitor_send_input_scroll,
}

-- The arguments of `evdi_connect2`: the block, the limit of the area, and the rate of pixels in hertz.
pub record Connect : Type 0 where
  pub description : List ℕ
  pub area_limit : ℕ
  pub pixel_rate : ℕ

-- The clock of the first block; `none` where that is none of a timing.
unfoldable pub pixel_clock_of : Edid → Option ℕ
pixel_clock_of e = elim e.data_blocks [
  | [] ↦ none
  | b ∷ bs ↦ elim b [ timing t ↦ some t.pixel_clock | desc d ↦ none ]
]

unfoldable pub connect_arguments : Doubles → MonitorMode → Option Connect
unfolding pixel_clock_of
connect_arguments d info =
    let edid = commit (set_default_mode d custom_edid info.width info.height info.refresh_rate) in
    elim (pixel_clock_of edid) [
      | none ↦ none
      | some clock ↦ some (record {
        description = raw edid;
        area_limit = u32 (info.width * info.height);
        pixel_rate = clock * 10_000;
      })
    ]

-- The codes of events.
pub data Code : Type 0 where
  code_x code_y code_wheel code_left code_right code_middle code_syn : Code

abbrev pub same_code : Code → Code → Bool
same_code code_x code_x = true
same_code code_y code_y = true
same_code code_wheel code_wheel = true
same_code code_left code_left = true
same_code code_right code_right = true
same_code code_middle code_middle = true
same_code code_syn code_syn = true
same_code _ _ = false

-- The codes that the device is made with.
abbrev pub enabled_codes : List Code
enabled_codes = code_syn ∷ code_x ∷ code_y ∷ code_left ∷ code_middle ∷ code_right ∷ []

unfoldable pub has_code : Code → List Code → Bool
has_code c [] = false
has_code c (k ∷ ks) = same_code c k || has_code c ks

unfoldable pub code_of : Report → Code
code_of (rel_x _) = code_x
code_of (rel_y _) = code_y
code_of (rel_wheel _) = code_wheel
code_of (btn_left _) = code_left
code_of (btn_right _) = code_right
code_of (btn_middle _) = code_middle
code_of syn = code_syn

unfoldable pub is_enabled : Report → Bool
unfolding has_code code_of
is_enabled r = has_code (code_of r) enabled_codes

-- `handleInput` calls the operation for the kind of the event.
unfoldable pub send_input : InputEvent → MonitorContext → MonitorContext
unfolding monitor_send_input_move monitor_send_input_buttons monitor_send_input_scroll
send_input (mouse_move dx dy) m = monitor_send_input_move m dx dy
send_input (mouse_buttons flags) m = monitor_send_input_buttons m flags
send_input (mouse_scroll n) m = monitor_send_input_scroll m n

unfoldable pub send_inputs : List InputEvent → MonitorContext → MonitorContext
unfolding send_input
send_inputs [] m = m
send_inputs (e ∷ es) m = send_inputs es (send_input e m)

-- The reports of codes that the device does not have, newest first.
abbrev pub refused : List Report → List Report
refused [] = []
refused (r ∷ rs) = if is_enabled r then refused rs else r ∷ refused rs

-- The reports of the wheel for the scrolls among some events, newest first.
abbrev pub scrolled : List InputEvent → List Report → List Report
scrolled [] rs = rs
scrolled (mouse_scroll n ∷ es) rs = scrolled es (rel_wheel n ∷ rs)
scrolled (_ ∷ es) rs = scrolled es rs

-- Whatever a phone sends, all reports of its movements and buttons are of codes that the device is made with, and
-- the report of the wheel is not, for every one of its scrolls.
pub send_inputs-scrolled :
    (es : List InputEvent) (m : MonitorContext)
    → refused (send_inputs es m).reports ≡ scrolled es (refused m.reports)
unfolding send_inputs send_input monitor_send_input_move monitor_send_input_buttons
    monitor_send_input_scroll is_enabled has_code code_of
send_inputs-scrolled [] m = refl
send_inputs-scrolled (mouse_move dx dy ∷ es) m = send_inputs-scrolled es _
send_inputs-scrolled (mouse_buttons flags ∷ es) m = send_inputs-scrolled es _
send_inputs-scrolled (mouse_scroll n ∷ es) m = send_inputs-scrolled es _
