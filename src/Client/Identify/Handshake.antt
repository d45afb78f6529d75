-- ===== src/Client/Identify/Handshake.antt =====
-- The parts of a handshake that a client sends, and the rounds of the loop of `identifyClient` on them.
use monidroid.Base.{
  ℕ, ◌+◌, ◌*◌, ◌/◌, ◌^◌, ◌≤◌, ◌<◌, ◌≡◌, refl, sym, ◌∙◌, ap, arith, List, [], ◌∷◌, ◌++◌, Bool, true,
  false, length, drop, int_pos, int_at, int_bytes, ltb, lt→ltb, le→ltb, length-append,
  int_at-append, take-append, drop-append, append_assoc, append-nil,
}
use Prim.Native.Nat.{max, min}
use monidroid.Protocol.{cl_welcome_word, cl_usb_welcome_word, bytes_eq}
use monidroid.Client.Data.{Client, ClientState}
use monidroid.Client.Identify.{
  Identify, Read, received, failed, next, returned, mode_of, identify_loop, on_welcome,
}
use monidroid.Client.Identify.Stages.{
  name_length, after_hello, at_welcome, at_model, at_modes, at_end, round_welcome, round_model,
  round_modes,
}
use monidroid.Client.Identify.Sound.{loop_step}

-- The first message of a client: the word for its kind of connection, and the length of its name.
unfoldable pub greeting : Bool → List ℕ → List ℕ
greeting false name = cl_welcome_word ++ int_bytes (length name)
greeting true name = cl_usb_welcome_word ++ int_bytes (length name)

-- The last one: its screen.
unfoldable pub settings : ℕ → ℕ → ℕ → List ℕ
settings width height rate = int_bytes width ++ (int_bytes height ++ int_bytes rate)

pub length-settings : (w h r : ℕ) → length (settings w h r) ≡ 12
unfolding settings int_bytes
length-settings w h r = refl

settings_fields :
    (w h r : ℕ)
    → w < 2 ^ 32
    → h < 2 ^ 32
    → r < 2 ^ 32
    → (int_at (settings w h r) 0 ≡ w)
      × (int_at (settings w h r) 4 ≡ h)
      × (int_at (settings w h r) 8 ≡ r)
unfolding settings int_bytes int_at
settings_fields w h r hw hh hr = omega arith

-- A loop that needs nothing returns.
pub loop_ended :
    (reads : List Read) (s : Identify)
    → int_pos s.bytes_needed ≡ false
    → identify_loop reads s ≡ returned true s.client reads
unfolding identify_loop
loop_ended [] s e = rw e
loop_ended (failed ∷ reads) s e = rw e
loop_ended (received more ∷ reads) s e = rw e

-- The mode that the server keeps: even sides, the longer one as the width.
pub mode_of-settings :
    (w h r : ℕ)
    → w < 2 ^ 32
    → h < 2 ^ 32
    → r < 2 ^ 32
    → mode_of (settings w h r) ≡ record {
      width = max (w / 2 * 2) (h / 2 * 2);
      height = min (w / 2 * 2) (h / 2 * 2);
      refresh_rate = r;
    }
unfolding mode_of
mode_of-settings w h r hw hh hr =
    let (width, height, rate) = settings_fields w h r hw hh hr in
    rw (width, height, rate) (ground arith)

module _ (name : List ℕ) (fits : length name < 2 ^ 31) where
  length-greeting : (usb : Bool) → length (greeting usb name) ≡ 9
  unfolding greeting int_bytes
  length-greeting false = refl
  length-greeting true = refl

  name_length-greeting : (usb : Bool) → name_length (greeting usb name) ≡ length name
  unfolding greeting int_bytes int_at
  name_length-greeting false = omega arith
  name_length-greeting true = omega arith

  on_welcome-greeting :
      (c : Client) (usb : Bool)
      → on_welcome (at_welcome c (greeting usb name)) ≡ next (at_model c (greeting usb name) usb)
  unfolding on_welcome greeting int_bytes bytes_eq
  on_welcome-greeting c false = refl
  on_welcome-greeting c true = refl

  -- The loop after the greeting, in one read.
  pub greeted :
      (c : Client) (usb : Bool) (reads : List Read)
      → identify_loop (received (greeting usb name) ∷ reads) (at_welcome c [])
        ≡ identify_loop reads (at_model c (greeting usb name) usb)
  greeted c usb reads =
      loop_step (greeting usb name) reads (at_welcome c []) (at_model c (greeting usb name) usb)
        refl
        (round_welcome c [] (greeting usb name) ∙ rw (le→ltb _ _ nine) (on_welcome-greeting c usb))
    where
      nine : 9 ≤ length (greeting usb name)
      nine = omega (arith, length-greeting usb)

  pub drop-greeting : (usb : Bool) (rest : List ℕ) → drop 9 (greeting usb name ++ rest) ≡ rest
  drop-greeting usb rest = drop-append 9 (greeting usb name) rest (length-greeting usb)

  pub name_length-whole :
      (usb : Bool) (rest : List ℕ) → name_length (greeting usb name ++ rest) ≡ length name
  name_length-whole usb rest =
      int_at-append (greeting usb name) rest 5 (omega (arith, length-greeting usb))
      ∙ name_length-greeting usb

  -- How much of the name is there, and how much is announced.
  held :
      (usb : Bool) (front part : List ℕ)
      → (length (drop 9 ((greeting usb name ++ front) ++ part)) ≡ length front + length part)
        × (name_length ((greeting usb name ++ front) ++ part) ≡ length name)
        × (9 ≤ length (greeting usb name ++ front))
  held usb front part = rw (append_assoc (greeting usb name) front part) (
    rw (drop-greeting usb (front ++ part)) (length-append front part),
    name_length-whole usb (front ++ part),
    omega (arith, length-append (greeting usb name) front, length-greeting usb),
  )

  name_test :
      (usb : Bool) (front part : List ℕ)
      → ltb
          (length (drop 9 ((greeting usb name ++ front) ++ part)))
          (name_length ((greeting usb name ++ front) ++ part))
        ≡ ltb (length front + length part) (length name)
  name_test usb front part = let (there, wanted, nine) = held usb front part in rw (there, wanted)

  -- The loop after a part of the name, and after the rest of it and more.
  module _ (pos : 0 < length name) (c : Client) (usb : Bool) (reads : List Read) where
    needs_name : (front : List ℕ) → int_pos (name_length (greeting usb name ++ front)) ≡ true
    needs_name front = rw (name_length-whole usb front) (ground arith)

    pub part_named :
        (front part : List ℕ)
        → length front + length part < length name
        → identify_loop (received part ∷ reads) (at_model c (greeting usb name ++ front) usb)
          ≡ identify_loop reads (at_model c (greeting usb name ++ (front ++ part)) usb)
    part_named front part h =
        let nine : 9 ≤ length (greeting usb name ++ front) = (held usb front part).2 in
        rw (← append_assoc (greeting usb name) front part) (
          loop_step part reads _ (at_model c ((greeting usb name ++ front) ++ part) usb)
            (needs_name front)
            (round_model c (greeting usb name ++ front) part usb nine
              ∙ rw (name_test usb front part, lt→ltb _ _ h)))

    pub all_named :
        (front part : List ℕ)
        → length name ≤ length front + length part
        → identify_loop (received part ∷ reads) (at_model c (greeting usb name ++ front) usb)
          ≡ identify_loop reads (at_modes c (greeting usb name ++ (front ++ part)) usb)
    all_named front part h =
        let nine : 9 ≤ length (greeting usb name ++ front) = (held usb front part).2 in
        rw (← append_assoc (greeting usb name) front part) (
          loop_step part reads _ (at_modes c ((greeting usb name ++ front) ++ part) usb)
            (needs_name front)
            (round_model c (greeting usb name ++ front) part usb nine
              ∙ rw (name_test usb front part, le→ltb _ _ h)))

  module _ (c : Client) (usb : Bool) (mode : List ℕ) (reads : List Read)
      (twelve : length mode ≡ 12) where
    -- The loop once name and mode are there.
    abbrev whole : List ℕ
    whole = greeting usb name ++ (name ++ mode)

    abbrev done : Client
    done = record c {
      is_usb = usb;
      model_name = name;
      preffered = mode_of mode;
      state = ClientState.identified;
      net_buffer = [];
    }

    after_hello-whole : after_hello c whole usb ≡ done
    after_hello-whole =
        rw
          (
            name_length-whole usb (name ++ mode),
            drop-greeting usb (name ++ mode),
            take-append (length name) name mode refl,
            drop-append (length name) name mode refl,
          )
          (ap (λ b. record done { net_buffer = b })
            (ap (drop 12) (sym (append-nil mode)) ∙ drop-append 12 mode [] twelve))

    end_reached : identify_loop reads (at_end c whole usb) ≡ returned true done reads
    end_reached =
        loop_ended reads (at_end c whole usb) refl
        ∙ ap (λ (k : Client). returned true k reads) after_hello-whole

    -- All of the handshake in a read after the greeting and the name.
    pub mode_read :
        identify_loop (received mode ∷ reads) (at_modes c (greeting usb name ++ name) usb)
        ≡ returned true done reads
    mode_read =
        loop_step mode reads (at_modes c (greeting usb name ++ name) usb) (at_end c whole usb) refl
          (rw (← append_assoc (greeting usb name) name mode)
            (round_modes c (greeting usb name ++ name) mode usb enough ∙ rw full))
        ∙ end_reached
      where
        enough : 9 + name_length (greeting usb name ++ name) ≤ length (greeting usb name ++ name)
        enough = omega (
          arith,
          name_length-whole usb name,
          length-append (greeting usb name) name,
          length-greeting usb,
        )

        full :
            ltb
              (length (
                drop
                  (name_length ((greeting usb name ++ name) ++ mode))
                  (drop 9 ((greeting usb name ++ name) ++ mode))))
              12
            ≡ false
        full = rw (
          append_assoc (greeting usb name) name mode,
          name_length-whole usb (name ++ mode),
          drop-greeting usb (name ++ mode),
          drop-append (length name) name mode refl,
          twelve,
        )
