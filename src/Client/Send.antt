-- ===== src/Client/Send.antt =====
-- server/client.cpp: the constructor, and the messages that a client is sent. The result of
-- `asio::write` is an argument: `true` if it failed.
pub mod Wire
use monidroid.Base.{
  ℕ, List, [], ◌∷◌, ◌++◌, Bool, true, false, none, if◌then◌else◌, length, int_bytes,
}
use monidroid.Protocol.{
  ErrorCode, message_encoded, disconnected_by_server, error_value, sv_frame_word, sv_error_word,
}
use monidroid.Client.Data.{Client, new, connection_closed}

-- `Client::Client`
unfoldable pub new_client : Client
new_client = record {
  state = new;
  net_buffer = [];
  preffered = record { width = 0; height = 0; refresh_rate = 0 };
  model_name = [];
  is_usb = false;
  monitor = none;
  sent = [];
  shut = false;
}

unfoldable pub write : Client → List ℕ → Client
write c message = record c { sent = message ∷ c.sent }

-- The part of `sendFullFrame` after the compression, and `sendMonitorOff` with no data: a failed write
-- closes the connection.
unfoldable pub send_frame_message : Client → List ℕ → Bool → Client
unfolding write
send_frame_message c jpeg failed =
    let c' = write c (sv_frame_word ++ (int_bytes (length jpeg) ++ jpeg)) in
    if failed then record c' { state = connection_closed } else c'

unfoldable pub send_monitor_off : Client → Bool → Client
unfolding send_frame_message
send_monitor_off c failed = send_frame_message c [] failed

-- `sendError(ErrorCode)`
unfoldable pub send_error : Client → ErrorCode → Client
unfolding write
send_error c code = record (write c (sv_error_word ++ int_bytes (error_value code))) { shut = true }

-- `sendError(std::string_view)`
unfoldable pub send_error_message : Client → List ℕ → Client
unfolding write
send_error_message c msg =
    record (write c (
      sv_error_word
      ++ (int_bytes (error_value message_encoded) ++ (int_bytes (length msg) ++ msg)))) {
        shut = true;
      }

-- `forceDisconnect`
unfoldable pub force_disconnect : Client → Bool → Client
unfolding send_error
force_disconnect c with_error =
    let c' =
      (if with_error then send_error c disconnected_by_server else record c { shut = true }) in
    record c' { state = connection_closed }
