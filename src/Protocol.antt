-- ===== src/Protocol.antt =====
-- common/monidroid/protocol.h: the words and codes of the protocol.
use monidroid.Base.{ℕ, List, [], ◌∷◌, Bool, true, false, ◌&&◌, ◌==◌}

abbrev pub protocol_word_len : ℕ
protocol_word_len = 5

abbrev pub protocol_port : ℕ
protocol_port = 14770

pub data ErrorCode : Type 0 where
  message_encoded not_identified incorrect_monitor_options invalid_client : ErrorCode
  disconnected_by_server monitor_connect_fail too_many_fails unspecified : ErrorCode

unfoldable pub error_value : ErrorCode → ℕ
error_value ErrorCode.message_encoded = 0
error_value ErrorCode.not_identified = 1
error_value ErrorCode.incorrect_monitor_options = 2
error_value ErrorCode.invalid_client = 3
error_value ErrorCode.disconnected_by_server = 10
error_value ErrorCode.monitor_connect_fail = 11
error_value ErrorCode.too_many_fails = 12
error_value ErrorCode.unspecified = 100

abbrev pub cl_echo_word : List ℕ
cl_echo_word = b'C' ∷ b'E' ∷ b'C' ∷ b'H' ∷ b'O' ∷ []

abbrev pub sv_echo_word : List ℕ
sv_echo_word = b'S' ∷ b'E' ∷ b'C' ∷ b'H' ∷ b'O' ∷ []

abbrev pub cl_welcome_word : List ℕ
cl_welcome_word = b'C' ∷ b'W' ∷ b'L' ∷ b'C' ∷ b'M' ∷ []

abbrev pub cl_usb_welcome_word : List ℕ
cl_usb_welcome_word = b'C' ∷ b'U' ∷ b'S' ∷ b'B' ∷ b'W' ∷ []

abbrev pub cl_input_word : List ℕ
cl_input_word = b'C' ∷ b'I' ∷ b'N' ∷ b'P' ∷ b'T' ∷ []

abbrev pub sv_frame_word : List ℕ
sv_frame_word = b'S' ∷ b'F' ∷ b'R' ∷ b'M' ∷ b'E' ∷ []

abbrev pub sv_error_word : List ℕ
sv_error_word = b'S' ∷ b'E' ∷ b'R' ∷ b'R' ∷ b'C' ∷ []

-- `ADB_IF_CLASS` and `ADB_MTP_IF_CLASS`
abbrev pub adb_if_class : ℕ
adb_if_class = 0xFF4201

abbrev pub adb_mtp_if_class : ℕ
adb_mtp_if_class = 0x060101

-- Equality of words and of other strings of bytes.
unfoldable pub bytes_eq : List ℕ → List ℕ → Bool
bytes_eq [] [] = true
bytes_eq [] (y ∷ ys) = false
bytes_eq (x ∷ xs) [] = false
bytes_eq (x ∷ xs) (y ∷ ys) = x == y && bytes_eq xs ys
