-- ===== src/Client/Identify/Sound.antt =====
-- What `identifyClient` has read when it returns, however the bytes were cut into reads.
use monidroid.Base.{
  ℕ, ◌+◌, ◌≤◌, ◌≡◌, refl, sym, ◌∙◌, ◌⊎◌, inl, inr, arith, List, [], ◌∷◌, ◌++◌, Bool, true, false,
  length, drop, int_pos, ltb, if◌then◌else◌, Bool-cases, length-append, length-drop, append-nil,
  append_assoc, ltb→le, le→ltb, ap,
}
use monidroid.Client.Data.{Client}
use monidroid.Client.Identify.{
  Identify, Read, received, failed, next, reject, IdentifyRun, returned, identify_round,
  identify_loop, identify_client,
}
use monidroid.Client.Identify.Stages.{
  name_length, Welcomes, Welcomes-append, name_length-append, after_hello, welcomed, at_welcome,
  at_model, at_modes, at_end, round_welcome, round_model, round_modes, on_welcome_cases,
}

-- All bytes of a list of reads.
abbrev pub bytes_of : List Read → List ℕ
bytes_of [] = []
bytes_of (received bytes ∷ reads) = bytes ++ bytes_of reads
bytes_of (failed ∷ reads) = bytes_of reads

-- `c'` is the client after a handshake with a name and a mode.
pub record Whole (c : Client) (bytes : List ℕ) (c' : Client) : Type 0 where
  pub usb : Bool
  pub word : Welcomes bytes usb
  pub named : int_pos (name_length bytes) ≡ true
  pub enough : 21 + name_length bytes ≤ length bytes
  pub client : c' ≡ after_hello c bytes usb

-- `c'` is the client after a word of welcome that announces no name: nothing else is read.
pub record Nameless (c : Client) (bytes : List ℕ) (c' : Client) : Type 0 where
  pub usb : Bool
  pub word : Welcomes bytes usb
  pub unnamed : int_pos (name_length bytes) ≡ false
  pub client : c' ≡ welcomed c bytes usb

-- One step of the loop while it needs bytes.
pub loop_step :
    (more : List ℕ) (reads : List Read) (s s' : Identify)
    → int_pos s.bytes_needed ≡ true
    → identify_round more s ≡ next s'
    → identify_loop (received more ∷ reads) s ≡ identify_loop reads s'
unfolding identify_loop
loop_step more reads s s' e r = rw (e, r)

-- A refused word of welcome ends it.
loop_reject :
    (more : List ℕ) (reads : List Read) (s : Identify) (refused : Client)
    → int_pos s.bytes_needed ≡ true
    → identify_round more s ≡ reject refused
    → identify_loop (received more ∷ reads) s ≡ returned false refused reads
unfolding identify_loop
loop_reject more reads s refused e r = rw (e, r)

-- How the loop goes on after a round that reads `more`.
module _ (more : List ℕ) (reads : List Read) (s s' : Identify) {r : IdentifyRun} where
  follow :
      int_pos s.bytes_needed ≡ true
      → identify_round more s ≡ next s'
      → identify_loop (received more ∷ reads) s ≡ r
      → identify_loop reads s' ≡ r
  follow e n h = sym (loop_step more reads s s' e n) ∙ h

-- A loop that needs no more bytes has returned at once, so there were no more reads.
loop_over :
    (reads : List Read) (s : Identify) {c' : Client}
    → int_pos s.bytes_needed ≡ false
    → identify_loop reads s ≡ returned true c' []
    → (reads ≡ []) × (c' ≡ s.client)
unfolding identify_loop
loop_over [] s e h = ground arith
loop_over (failed ∷ reads) s e h = absurd (ground arith)
loop_over (received more ∷ reads) s e h = absurd (ground arith)

-- A loop that needs bytes does not return at the end of the reads, nor by a failed read.
loop_reads :
    (reads : List Read) (s : Identify) {c' : Client}
    → int_pos s.bytes_needed ≡ true
    → identify_loop reads s ≡ returned true c' []
    → (more : List ℕ) × (rest : List Read) × (reads ≡ received more ∷ rest)
unfolding identify_loop
loop_reads [] s e h = absurd (ground arith)
loop_reads (failed ∷ reads) s e h = absurd (ground arith)
loop_reads (received more ∷ reads) s e h = (more, reads, refl)

module _ (c : Client) (c' : Client) where
  sound_end :
      (reads : List Read) (bytes : List ℕ) (usb : Bool)
      → Welcomes bytes usb
      → int_pos (name_length bytes) ≡ true
      → 21 + name_length bytes ≤ length bytes
      → identify_loop reads (at_end c bytes usb) ≡ returned true c' []
      → Whole c (bytes ++ bytes_of reads) c'
  sound_end reads bytes usb w n h e =
      let (over, same) = loop_over reads _ refl e in
      rw (over, append-nil bytes)
        (record { usb = usb; word = w; named = n; enough = h; client = same })

  sound_modes :
      (reads : List Read) (bytes : List ℕ) (usb : Bool)
      → Welcomes bytes usb
      → int_pos (name_length bytes) ≡ true
      → 9 + name_length bytes ≤ length bytes
      → identify_loop reads (at_modes c bytes usb) ≡ returned true c' []
      → Whole c (bytes ++ bytes_of reads) c'
  sound_modes [] bytes usb w n h e = cc (loop_reads [] _ refl e).2
  sound_modes (failed ∷ reads) bytes usb w n h e = cc (loop_reads (failed ∷ reads) _ refl e).2
  sound_modes (received more ∷ reads) bytes usb w n h e = elim (Bool-cases short) [
    | inl yet ↦ rw (← append_assoc bytes more (bytes_of reads)) (
        sound_modes reads all usb w' n' (omega (arith, same, longer))
          (follow more reads _ (at_modes c all usb) refl (turn ∙ rw yet) e))
    | inr full ↦ rw (← append_assoc bytes more (bytes_of reads)) (
        sound_end reads all usb w' n'
          (omega (
            arith,
            same,
            longer,
            ltb→le _ _ full,
            length-drop (name_length all) (drop 9 all),
            length-drop 9 all,
          ))
          (follow more reads _ (at_end c all usb) refl (turn ∙ rw full) e))
  ]
    where
      all : List ℕ
      all = bytes ++ more

      short : Bool
      short = ltb (length (drop (name_length all) (drop 9 all))) 12

      longer : length all ≡ length bytes + length more
      longer = length-append bytes more

      same : name_length all ≡ name_length bytes
      same = name_length-append bytes more (omega arith)

      w' : Welcomes all usb
      w' = Welcomes-append bytes more (omega arith) usb w

      n' : int_pos (name_length all) ≡ true
      n' = rw same n

      turn :
          identify_round more (at_modes c bytes usb)
          ≡ (if short then next (at_modes c all usb) else next (at_end c all usb))
      turn = round_modes c bytes more usb h

  -- The outcome that a name which is not announced gives.
  nameless :
      (reads : List Read) (bytes : List ℕ) (usb : Bool)
      → Welcomes bytes usb
      → int_pos (name_length bytes) ≡ false
      → identify_loop reads (at_model c bytes usb) ≡ returned true c' []
      → Nameless c (bytes ++ bytes_of reads) c'
  nameless reads bytes usb w n e =
      let (over, same) = loop_over reads _ n e in
      rw (over, append-nil bytes) (record { usb = usb; word = w; unnamed = n; client = same })

  sound_model :
      (reads : List Read) (bytes : List ℕ) (usb : Bool)
      → Welcomes bytes usb
      → 9 ≤ length bytes
      → identify_loop reads (at_model c bytes usb) ≡ returned true c' []
      → Whole c (bytes ++ bytes_of reads) c' ⊎ Nameless c (bytes ++ bytes_of reads) c'
  sound_model [] bytes usb w h e = elim (Bool-cases (int_pos (name_length bytes))) [
    | inl n ↦ cc (loop_reads [] _ n e).2
    | inr n ↦ inr (nameless [] bytes usb w n e)
  ]
  sound_model (failed ∷ reads) bytes usb w h e = elim (Bool-cases (int_pos (name_length bytes))) [
    | inl n ↦ cc (loop_reads (failed ∷ reads) _ n e).2
    | inr n ↦ inr (nameless (failed ∷ reads) bytes usb w n e)
  ]
  sound_model (received more ∷ reads) bytes usb w h e =
      elim (Bool-cases (int_pos (name_length bytes))) [
        | inr n ↦ inr (nameless (received more ∷ reads) bytes usb w n e)
        | inl n ↦ elim (Bool-cases short) [
          | inl yet ↦ rw (← append_assoc bytes more (bytes_of reads)) (
              sound_model reads all usb w' (omega (arith, longer))
                (follow more reads _ (at_model c all usb) n (turn ∙ rw yet) e))
          | inr full ↦ rw (← append_assoc bytes more (bytes_of reads)) (
              inl (
                sound_modes reads all usb w' (rw same n)
                  (omega (arith, longer, ltb→le _ _ full, length-drop 9 all))
                  (follow more reads _ (at_modes c all usb) n (turn ∙ rw full) e)))
        ]
      ]
    where
      all : List ℕ
      all = bytes ++ more

      short : Bool
      short = ltb (length (drop 9 all)) (name_length all)

      longer : length all ≡ length bytes + length more
      longer = length-append bytes more

      same : name_length all ≡ name_length bytes
      same = name_length-append bytes more h

      w' : Welcomes all usb
      w' = Welcomes-append bytes more h usb w

      turn :
          identify_round more (at_model c bytes usb)
          ≡ (if short then next (at_model c all usb) else next (at_modes c all usb))
      turn = round_model c bytes more usb h

  -- A read that completes the word of welcome is refused, or the loop goes on to the name.
  sound_word :
      (more : List ℕ) (reads : List Read) (bytes : List ℕ)
      → 9 ≤ length (bytes ++ more)
      → identify_loop (received more ∷ reads) (at_welcome c bytes) ≡ returned true c' []
      → Whole c ((bytes ++ more) ++ bytes_of reads) c'
        ⊎ Nameless c ((bytes ++ more) ++ bytes_of reads) c'
  sound_word more reads bytes h e = elim (on_welcome_cases c (bytes ++ more) h) [
    | inl (usb, w, t) ↦ sound_model reads (bytes ++ more) usb w h (
        follow more reads _ (at_model c (bytes ++ more) usb) refl
          (round_welcome c bytes more ∙ rw (le→ltb _ _ h) t) e)
    | inr (_, _, t) ↦ cc (
      loop_reject more reads _ (record c { net_buffer = bytes ++ more }) refl
          (round_welcome c bytes more ∙ rw (le→ltb _ _ h) t),
      e,
    )
  ]

  sound_welcome :
      (reads : List Read) (bytes : List ℕ)
      → identify_loop reads (at_welcome c bytes) ≡ returned true c' []
      → Whole c (bytes ++ bytes_of reads) c' ⊎ Nameless c (bytes ++ bytes_of reads) c'
  sound_welcome [] bytes e = cc (loop_reads [] _ refl e).2
  sound_welcome (failed ∷ reads) bytes e = cc (loop_reads (failed ∷ reads) _ refl e).2
  sound_welcome (received more ∷ reads) bytes e =
      rw (← append_assoc bytes more (bytes_of reads))
        (elim (Bool-cases (ltb (length (bytes ++ more)) 9)) [
          | inl yet ↦ sound_welcome reads (bytes ++ more) (
              follow more reads _ (at_welcome c (bytes ++ more)) refl
                (round_welcome c bytes more ∙ rw yet) e)
          | inr full ↦ sound_word more reads bytes (ltb→le _ _ full) e
        ])

-- When `identifyClient` returns `true` after a number of reads, none of them more than it made, the client
-- is the one that the bytes describe, however they were cut: a known word of welcome, and then either the
-- whole handshake (its name, its mode with even sides, the longer one first, the state `Identified`, and
-- what was read behind it left in the buffer), or a name length that is not positive, after which nothing
-- else was read and the state and the mode are as they were.
pub identify_client_sound :
    (reads : List Read) (c c' : Client)
    → c.net_buffer ≡ []
    → identify_client reads c ≡ returned true c' []
    → Whole c (bytes_of reads) c' ⊎ Nameless c (bytes_of reads) c'
unfolding identify_client
identify_client_sound reads c c' empty e = sound_welcome c c' reads [] (sym (ap start empty) ∙ e)
  where
    start : List ℕ → IdentifyRun
    start b = identify_loop reads (at_welcome c b)
