-- ===== src/Client/Identify.antt =====
-- server/client.cpp: `Client::identifyClient`, and `connectMonitor`.
pub mod Stages
pub mod Sound
pub mod Handshake
pub mod Complete
use monidroid.Base.{
  ℕ, ◌+◌, ◌*◌, ◌/◌, List, [], ◌∷◌, ◌++◌, Bool, true, false, Option, none, some, ltb, if◌then◌else◌,
  length, take, drop, int_at, int_pos,
}
use monidroid.Protocol.{protocol_word_len, cl_welcome_word, cl_usb_welcome_word, bytes_eq}
use monidroid.Edid.Data.{MonitorMode}
use monidroid.Client.Data.{Client, ClientState, identified, connected, error}

-- What one call of `read_some` gave: some bytes, or an error.
pub data Read : Type 0 where
  received : List ℕ → Read
  failed : Read

-- `WelcomeStates`
pub data WelcomeState : Type 0 where
  welcome model modes : WelcomeState

-- The locals of the loop; `bytes_needed` is the bit pattern of an `int`.
pub record Identify : Type 0 where
  pub client : Client
  pub bytes_needed : ℕ
  pub state : WelcomeState

-- How a round of the loop ends: with the next one, or with `return false`.
pub data Turn : Type 0 where
  next : Identify → Turn
  reject : Client → Turn

-- The width and the height without their lowest bit, the longer side first.
unfoldable pub mode_of : List ℕ → MonitorMode
mode_of settings =
    let width = int_at settings 0 / 2 * 2 in
    let height = int_at settings 4 / 2 * 2 in
    if ltb width height
    then record { width = height; height = width; refresh_rate = int_at settings 8 }
    else record { width = width; height = height; refresh_rate = int_at settings 8 }

-- The case `Welcome`, once its bytes are there.
unfoldable pub on_welcome : Identify → Turn
on_welcome s =
    let c = s.client in
    let word = take protocol_word_len c.net_buffer in
    let accept = λ (usb : Bool). next (record {
      client = record c { is_usb = usb; net_buffer = drop s.bytes_needed c.net_buffer };
      bytes_needed = int_at c.net_buffer protocol_word_len;
      state = model;
    }) in
    if bytes_eq word cl_welcome_word
    then accept false
    else if bytes_eq word cl_usb_welcome_word
    then accept true
    else reject c

-- The case `Model`.
unfoldable pub on_model : Identify → Turn
on_model s =
    let c = s.client in
    next (record {
      client = record c {
        model_name = take s.bytes_needed c.net_buffer;
        net_buffer = drop s.bytes_needed c.net_buffer;
      };
      bytes_needed = 12;
      state = modes;
    })

-- The case `Modes`.
unfoldable pub on_modes : Identify → Turn
unfolding mode_of
on_modes s =
    let c = s.client in
    next (record {
      client = record c {
        preffered = mode_of c.net_buffer;
        state = identified;
        net_buffer = drop s.bytes_needed c.net_buffer;
      };
      bytes_needed = 0;
      state = modes;
    })

unfoldable pub on_state : WelcomeState → Identify → Turn
unfolding on_welcome on_model on_modes
on_state welcome s = on_welcome s
on_state model s = on_model s
on_state modes s = on_modes s

-- A round of the loop that has read `bytes`.
unfoldable pub identify_round : List ℕ → Identify → Turn
unfolding on_state
identify_round bytes s =
    let c = record (s.client) { net_buffer = s.client.net_buffer ++ bytes } in
    let s' = record s { client = c } in
    if ltb (length c.net_buffer) s.bytes_needed then next s' else on_state s.state s'

-- How the loop stands after some reads: it has returned, with the reads that it did not make, or it
-- waits in `read_some`.
pub data IdentifyRun : Type 0 where
  returned : Bool → Client → List Read → IdentifyRun
  waiting : Identify → IdentifyRun

unfoldable pub identify_loop : List Read → Identify → IdentifyRun
identify_loop [] s = if int_pos s.bytes_needed then waiting s else returned true s.client []
identify_loop (failed ∷ reads) s =
    if int_pos s.bytes_needed
    then returned false s.client reads
    else returned true s.client (failed ∷ reads)
identify_loop (received bytes ∷ reads) s =
    let more : IdentifyRun = elim (identify_round bytes s) [
      | next s' ↦ identify_loop reads s'
      | reject c ↦ returned false c reads
    ] in
    if int_pos s.bytes_needed then more else returned true s.client (received bytes ∷ reads)

unfoldable pub identify_client : List Read → Client → IdentifyRun
identify_client reads c =
    identify_loop reads
      (record { client = c; bytes_needed = protocol_word_len + 4; state = welcome })

-- `connectMonitor`, given what `adapterConnectMonitor` returned.
unfoldable pub connect_monitor : Client → Option ℕ → Client × Bool
connect_monitor c none = (record c { monitor = none; state = error }, false)
connect_monitor c (some m) = (record c { monitor = some m; state = connected }, true)
