-- ===== src/Client/Identify/Stages.antt =====
-- Where the loop of `identifyClient` stands after a number of bytes, and what it makes of all of them.
use monidroid.Base.{
  ℕ, ◌+◌, ◌≤◌, ◌≡◌, refl, ◌⊎◌, inl, inr, arith, List, ◌++◌, Bool, true, false, length, take, drop,
  int_at, ltb, if◌then◌else◌, Bool-cases, drop-append_of_le, take-append_of_le, int_at-append,
  length-drop,
}
use monidroid.Protocol.{protocol_word_len, cl_welcome_word, cl_usb_welcome_word, bytes_eq}
use monidroid.Client.Data.{Client, ClientState}
use monidroid.Client.Identify.{
  Identify, welcome, model, modes, mode_of, next, reject, identify_round, on_state, on_welcome,
  on_model, on_modes,
}

-- The length of the name, as announced after the word of welcome.
abbrev pub name_length : List ℕ → ℕ
name_length bytes = int_at bytes protocol_word_len

-- The word of welcome, and what it says of the connection.
abbrev pub Welcomes : List ℕ → Bool → Type 0
Welcomes bytes false = bytes_eq (take 5 bytes) cl_welcome_word ≡ true
Welcomes bytes true =
    (bytes_eq (take 5 bytes) cl_welcome_word ≡ false)
    × (bytes_eq (take 5 bytes) cl_usb_welcome_word ≡ true)

-- The client `c` after a whole handshake that `bytes` begin with.
abbrev pub after_hello : Client → List ℕ → Bool → Client
after_hello c bytes usb = record c {
  is_usb = usb;
  model_name = take (name_length bytes) (drop 9 bytes);
  preffered = mode_of (drop (name_length bytes) (drop 9 bytes));
  state = ClientState.identified;
  net_buffer = drop 12 (drop (name_length bytes) (drop 9 bytes));
}

-- The loop's state where `bytes` are all that has been received: before the word is there, before the
-- name is, before the mode is, and at the end.
abbrev pub at_welcome : Client → List ℕ → Identify
at_welcome c bytes = record {
  client = record c { net_buffer = bytes };
  bytes_needed = 9;
  state = welcome;
}

-- The client whose word of welcome has been read, and no more.
abbrev pub welcomed : Client → List ℕ → Bool → Client
welcomed c bytes usb = record c { is_usb = usb; net_buffer = drop 9 bytes }

abbrev pub at_model : Client → List ℕ → Bool → Identify
at_model c bytes usb = record {
  client = welcomed c bytes usb;
  bytes_needed = name_length bytes;
  state = model;
}

abbrev pub at_modes : Client → List ℕ → Bool → Identify
at_modes c bytes usb = record {
  client = record c {
    is_usb = usb;
    model_name = take (name_length bytes) (drop 9 bytes);
    net_buffer = drop (name_length bytes) (drop 9 bytes);
  };
  bytes_needed = 12;
  state = modes;
}

abbrev pub at_end : Client → List ℕ → Bool → Identify
at_end c bytes usb = record { client = after_hello c bytes usb; bytes_needed = 0; state = modes }

-- A round from each of them, with `all` for the bytes received after it.
module _ (c : Client) (bytes more : List ℕ) where
  abbrev all : List ℕ
  all = bytes ++ more

  pub round_welcome :
      identify_round more (at_welcome c bytes)
      ≡ (if ltb (length all) 9 then next (at_welcome c all) else on_welcome (at_welcome c all))
  unfolding identify_round on_state
  round_welcome = refl

  pub round_model :
      (usb : Bool)
      → 9 ≤ length bytes
      → identify_round more (at_model c bytes usb) ≡ (
          if ltb (length (drop 9 all)) (name_length all)
          then next (at_model c all usb)
          else next (at_modes c all usb))
  unfolding identify_round on_state on_model
  round_model usb h =
      rw (drop-append_of_le 9 bytes more h, int_at-append bytes more 5 (omega arith))

  pub round_modes :
      (usb : Bool)
      → 9 + name_length bytes ≤ length bytes
      → identify_round more (at_modes c bytes usb) ≡ (
          if ltb (length (drop (name_length all) (drop 9 all))) 12
          then next (at_modes c all usb)
          else next (at_end c all usb))
  unfolding identify_round on_state on_modes
  round_modes usb h = rw (
    drop-append_of_le 9 bytes more (omega arith),
    int_at-append bytes more 5 (omega arith),
    drop-append_of_le (name_length bytes) (drop 9 bytes) more (omega (arith, length-drop 9 bytes)),
    take-append_of_le (name_length bytes) (drop 9 bytes) more (omega (arith, length-drop 9 bytes)),
  )

-- With the first nine bytes there, the word decides.
module _ (c : Client) (bytes : List ℕ) where
  pub on_welcome_cases :
      (9 ≤ length bytes)
      → ((usb : Bool) × Welcomes bytes usb
          × (on_welcome (at_welcome c bytes) ≡ next (at_model c bytes usb)))
        ⊎ ((bytes_eq (take 5 bytes) cl_welcome_word ≡ false)
            × (bytes_eq (take 5 bytes) cl_usb_welcome_word ≡ false)
            × (on_welcome (at_welcome c bytes) ≡ reject (record c { net_buffer = bytes })))
  unfolding on_welcome
  on_welcome_cases h = elim (Bool-cases (bytes_eq (take 5 bytes) cl_welcome_word)) [
    | inl wifi ↦ inl (false, wifi, rw wifi)
    | inr other ↦ elim (Bool-cases (bytes_eq (take 5 bytes) cl_usb_welcome_word)) [
      | inl cable ↦ inl (true, (other, cable), rw (other, cable))
      | inr unknown ↦ inr (other, unknown, rw (other, unknown))
    ]
  ]

module _ (bytes more : List ℕ) (h : 9 ≤ length bytes) where
  pub Welcomes-append : (usb : Bool) → Welcomes bytes usb → Welcomes (bytes ++ more) usb
  Welcomes-append false w = rw (take-append_of_le 5 bytes more (omega arith)) w
  Welcomes-append true w = rw (take-append_of_le 5 bytes more (omega arith)) w

  pub name_length-append : name_length (bytes ++ more) ≡ name_length bytes
  name_length-append = int_at-append bytes more 5 (omega arith)
