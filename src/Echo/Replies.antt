-- ===== src/Echo/Replies.antt =====
-- Which datagrams are answered, and what a phone reads in the answer.
use monidroid.Base.{
  ℕ, ◌^◌, ◌≡◌, ◌<◌, refl, ◌∙◌, arith, true, List, [], ◌∷◌, ◌++◌, length, take, drop, int_bytes,
  int_at, int_at-int_bytes, length-int_bytes, drop-append, take-append, if◌then◌else◌,
}
use monidroid.Protocol.{bytes_eq, cl_echo_word, sv_echo_word}
use monidroid.Echo.{EchoServer, make_echo_message, Received, datagram}

-- A phone that reads the answer: after the word and the three letters of the system, the length says how
-- many bytes the host's name has, and they are the rest.
make_echo_message_parts :
    (os_id hostname : List ℕ)
    → length os_id ≡ 3
    → length hostname < 2 ^ 32
    → let message = make_echo_message os_id hostname in
      (take 5 message ≡ sv_echo_word)
      × (take 3 (drop 5 message) ≡ os_id)
      × (int_at (drop 8 message) 0 ≡ length hostname)
      × (drop 12 message ≡ hostname)
unfolding make_echo_message
make_echo_message_parts os_id hostname h l = (
  refl,
  take-append 3 os_id _ h,
  rw (drop-append 3 os_id (int_bytes (length hostname) ++ hostname) h)
      (int_at-int_bytes (length hostname) hostname l),
  seven os_id h
      ∙ drop-append 4 (int_bytes (length hostname)) hostname (length-int_bytes (length hostname)),
)
  where
    seven :
        (os : List ℕ)
        → length os ≡ 3
        → drop 7 (os ++ (int_bytes (length hostname) ++ hostname))
          ≡ drop 4 (int_bytes (length hostname) ++ hostname)
    seven (a ∷ b ∷ c ∷ []) e = refl
    seven [] e = absurd (omega arith)
    seven (a ∷ []) e = absurd (omega arith)
    seven (a ∷ b ∷ []) e = absurd (omega arith)
    seven (a ∷ b ∷ c ∷ d ∷ os) e = absurd (omega arith)

-- The answers to some datagrams, newest first.
abbrev pub answers : List ℕ → List (List ℕ × ℕ) → List (ℕ × List ℕ) → List (ℕ × List ℕ)
answers message [] sent = sent
answers message ((bytes, from) ∷ ds) sent =
    answers message ds (if bytes_eq bytes cl_echo_word then (from, message) ∷ sent else sent)

abbrev pub received : List (List ℕ × ℕ) → List Received
received [] = []
received ((bytes, from) ∷ ds) = datagram bytes from true ∷ received ds

-- The server with other bytes in its buffer, and more answers.
abbrev after : EchoServer → List ℕ → List (ℕ × List ℕ) → EchoServer
after s buf sent = record s { recvbuf = buf; sent = sent }
