-- ===== src/Client/Send/Wire.antt =====
-- What a client reads of the messages that the server writes.
use monidroid.Base.{
  ℕ, ◌^◌, ◌<◌, ◌≡◌, ◌≢◌, refl, arith, Bool, Option, none, some, List, [], ◌∷◌, ◌++◌, append_assoc,
  length, take, drop, ◌==◌, if◌then◌else◌, take-append, drop-append, int_bytes, int_at,
  int_at-int_bytes, length-int_bytes,
}
use monidroid.Protocol.{
  ErrorCode, message_encoded, error_value, sv_frame_word, sv_error_word, bytes_eq,
}
use monidroid.Client.Data.{Client}
use monidroid.Client.Send.{
  write, send_frame_message, send_monitor_off, send_error, send_error_message,
}

-- The messages of the protocol; a frame with no data says that the monitor is off.
pub data Message : Type 0 where
  frame : List ℕ → Message
  code : ℕ → Message
  text : List ℕ → Message

-- `<length(int)><bytes>` at the front.
counted : List ℕ → List ℕ × List ℕ
counted bytes = (take (int_at bytes 0) (drop 4 bytes), drop (int_at bytes 0) (drop 4 bytes))

-- A reader of the protocol: the word, then what belongs to it, and the bytes that follow.
pub read_message : List ℕ → Option (Message × List ℕ)
read_message bytes =
    let rest = drop 5 bytes in
    if bytes_eq (take 5 bytes) sv_frame_word
    then (let (jpeg, more) = counted rest in some (frame jpeg, more))
    else if bytes_eq (take 5 bytes) sv_error_word
    then if int_at rest 0 == 0
      then (let (msg, more) = counted (drop 4 rest) in some (text msg, more))
      else some (code (int_at rest 0), drop 4 rest)
    else none

counted_lem :
    (bs more : List ℕ)
    → length bs < 2 ^ 32
    → counted (int_bytes (length bs) ++ (bs ++ more)) ≡ (bs, more)
unfolding counted
counted_lem bs more h = rw (int_at-int_bytes (length bs) (bs ++ more) h) (
    unfold int_bytes in
    rw (take-append (length bs) bs more refl, drop-append (length bs) bs more refl))

-- What `write` put in front of the messages already sent.
abbrev pub Writes : Client → Client → Message → Type 0
Writes c c' m =
    (bytes : List ℕ) × (c'.sent ≡ bytes ∷ c.sent)
    × ((more : List ℕ) → read_message (bytes ++ more) ≡ some (m, more))

read_frame :
    (jpeg more : List ℕ)
    → length jpeg < 2 ^ 31
    → read_message ((sv_frame_word ++ (int_bytes (length jpeg) ++ jpeg)) ++ more)
      ≡ some (frame jpeg, more)
unfolding read_message bytes_eq
read_frame jpeg more h =
    rw (append_assoc (int_bytes (length jpeg)) jpeg more, counted_lem jpeg more (omega arith))

error_value_bounds :
    (e : ErrorCode) → e ≢ message_encoded → (0 < error_value e) × (error_value e < 2 ^ 31)
unfolding error_value
error_value_bounds message_encoded h = absurd (h refl)
error_value_bounds ErrorCode.not_identified h = omega arith
error_value_bounds _ h = omega arith

read_code :
    (v : ℕ) (more : List ℕ)
    → 0 < v
    → v < 2 ^ 31
    → read_message ((sv_error_word ++ int_bytes v) ++ more) ≡ some (code v, more)
unfolding read_message bytes_eq
read_code v more pos h =
    rw
      (int_at-int_bytes v more (omega arith), drop-append 4 (int_bytes v) more (length-int_bytes v))
      (ground arith)

read_text :
    (msg more : List ℕ)
    → length msg < 2 ^ 31
    → read_message ((sv_error_word ++ (int_bytes 0 ++ (int_bytes (length msg) ++ msg))) ++ more)
      ≡ some (text msg, more)
unfolding read_message bytes_eq
read_text msg more h = rw (
  append_assoc (int_bytes 0) (int_bytes (length msg) ++ msg) more,
  int_at-int_bytes 0 ((int_bytes (length msg) ++ msg) ++ more) (omega arith),
  drop-append 4 (int_bytes 0) ((int_bytes (length msg) ++ msg) ++ more) (length-int_bytes 0),
  append_assoc (int_bytes (length msg)) msg more,
  counted_lem msg more (omega arith),
)

-- Each message that the server writes is read back by a client, with whatever follows it: a frame with its
-- data, the notice that the monitor is off as a frame with no data, an error with its code, and an error
-- with its text.
pub read_message-sent :
    (c : Client) (jpeg msg : List ℕ) (e : ErrorCode) (failed : Bool)
    → length jpeg < 2 ^ 31
    → length msg < 2 ^ 31
    → e ≢ message_encoded
    → Writes c (send_frame_message c jpeg failed) (frame jpeg)
      × Writes c (send_monitor_off c failed) (frame [])
      × Writes c (send_error c e) (code (error_value e))
      × Writes c (send_error_message c msg) (text msg)
unfolding send_frame_message send_monitor_off send_error send_error_message write error_value
read_message-sent c jpeg msg e failed hj hm he = (
  (
    sv_frame_word ++ (int_bytes (length jpeg) ++ jpeg),
    ground arith,
    λ more. read_frame jpeg more hj,
  ),
  (sv_frame_word ++ (int_bytes 0 ++ []), ground arith, λ more. read_frame [] more (omega arith)),
  (
    sv_error_word ++ int_bytes (error_value e),
    refl,
    λ more. read_code (error_value e) more (error_value_bounds e he).0 (error_value_bounds e he).1,
  ),
  (
    sv_error_word ++ (int_bytes 0 ++ (int_bytes (length msg) ++ msg)),
    refl,
    λ more. read_text msg more hm,
  ),
)
