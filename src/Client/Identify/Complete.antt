-- ===== src/Client/Identify/Complete.antt =====
-- Handshakes that a client sends, and what `identifyClient` makes of them.
use monidroid.Base.{
  ℕ, ◌+◌, ◌*◌, ◌/◌, ◌^◌, ◌<◌, ◌≡◌, refl, sym, ◌∙◌, ap, arith, List, [], ◌∷◌, ◌++◌, Bool, true,
  length, take, drop, length-append, take-append, drop-append, append_assoc, append-nil,
}
use Prim.Native.Nat.{max, min}
use monidroid.Edid.Data.{MonitorMode}
use monidroid.Client.Data.{Client, ClientState}
use monidroid.Client.Identify.{
  Identify, Read, received, IdentifyRun, returned, waiting, identify_loop, identify_client,
}
use monidroid.Client.Identify.Stages.{name_length, at_welcome, at_model, at_modes}
use monidroid.Client.Identify.Handshake.{
  greeting, settings, length-settings, mode_of-settings, greeted, name_length-whole, drop-greeting,
  part_named, all_named, mode_read,
}

-- A client that greets with its connection, the length of its name (not empty), the name and its screen,
-- each in one read, is identified: the server keeps the name and a mode with even sides, the longer one
-- as the width, leaves nothing in the buffer, and makes no further read.
pub identify_client_hello :
    (c : Client) (usb : Bool) (name : List ℕ) (w h r : ℕ) (reads : List Read)
    → c.net_buffer ≡ []
    → 0 < length name
    → length name < 2 ^ 31
    → w < 2 ^ 32
    → h < 2 ^ 32
    → r < 2 ^ 32
    → identify_client
        (received (greeting usb name) ∷ received name ∷ received (settings w h r) ∷ reads)
        c
      ≡ returned true
          (record c {
            is_usb = usb;
            model_name = name;
            preffered = record {
              width = max (w / 2 * 2) (h / 2 * 2);
              height = min (w / 2 * 2) (h / 2 * 2);
              refresh_rate = r;
            };
            state = ClientState.identified;
            net_buffer = [];
          })
          reads
unfolding identify_client
identify_client_hello c usb name w h r reads empty pos fits hw hh hr =
    ap start empty
    ∙ greeted name fits c usb (received name ∷ received (settings w h r) ∷ reads)
    ∙ ap (λ g. identify_loop (received name ∷ received (settings w h r) ∷ reads) (at_model c g usb))
        (sym (append-nil (greeting usb name)))
    ∙ all_named name fits pos c usb (received (settings w h r) ∷ reads) [] name (omega arith)
    ∙ mode_read name fits c usb (settings w h r) reads (length-settings w h r)
    ∙ ap (λ m. returned true (kept m) reads) (mode_of-settings w h r hw hh hr)
  where
    start : List ℕ → IdentifyRun
    start b =
        identify_loop
          (received (greeting usb name) ∷ received name ∷ received (settings w h r) ∷ reads)
          (at_welcome c b)

    kept : MonitorMode → Client
    kept m = record c {
      is_usb = usb;
      model_name = name;
      preffered = m;
      state = ClientState.identified;
      net_buffer = [];
    }

-- The loop reads before it looks at its buffer. If the name comes in two reads, and the second brings the
-- rest of it with the whole mode, the loop waits for another read although the handshake is complete: the
-- twelve bytes that it needs are in its buffer. The second read asks for as many bytes as the name has,
-- so this can happen for names of more than twelve bytes.
pub identify_client_waits :
    (c : Client) (usb : Bool) (front back : List ℕ) (w h r : ℕ)
    → c.net_buffer ≡ []
    → 0 < length back
    → length front + length back < 2 ^ 31
    → (s : Identify) × (identify_client
          (received (greeting usb (front ++ back))
            ∷ received front
            ∷ received (back ++ settings w h r)
            ∷ [])
          c
        ≡ waiting s)
      × (s.client.net_buffer ≡ settings w h r)
      × (s.client.model_name ≡ front ++ back)
      × (s.client.state ≡ c.state)
      × (s.bytes_needed ≡ length (settings w h r))
unfolding identify_client
identify_client_waits c usb front back w h r empty pos fits = (
  at_modes c bytes usb,
  ap start empty
      ∙ greeted name fits' c usb (received front ∷ last ∷ [])
      ∙ ap (λ g. identify_loop (received front ∷ last ∷ []) (at_model c g usb))
          (sym (append-nil (greeting usb name)))
      ∙ part_named name fits' pos' c usb (last ∷ []) [] front (omega (arith, longer))
      ∙ all_named name fits' pos' c usb [] front (back ++ mode) (omega (arith, longer, longer'))
      ∙ (unfold identify_loop in refl),
  dropped,
  taken,
  refl,
  sym (length-settings w h r),
)
  where
    name : List ℕ
    name = front ++ back

    mode : List ℕ
    mode = settings w h r

    last : Read
    last = received (back ++ mode)

    bytes : List ℕ
    bytes = greeting usb name ++ (front ++ (back ++ mode))

    longer : length name ≡ length front + length back
    longer = length-append front back

    longer' : length (back ++ mode) ≡ length back + length mode
    longer' = length-append back mode

    pos' : 0 < length name
    pos' = omega (arith, longer)

    fits' : length name < 2 ^ 31
    fits' = omega (arith, longer)

    start : List ℕ → IdentifyRun
    start b =
        identify_loop (received (greeting usb name) ∷ received front ∷ last ∷ []) (at_welcome c b)

    dropped : drop (name_length bytes) (drop 9 bytes) ≡ mode
    dropped =
        rw
          (
            name_length-whole name fits' usb (front ++ (back ++ mode)),
            drop-greeting name fits' usb (front ++ (back ++ mode)),
            ← append_assoc front back mode,
          )
          (drop-append (length name) name mode refl)

    taken : take (name_length bytes) (drop 9 bytes) ≡ name
    taken =
        rw
          (
            name_length-whole name fits' usb (front ++ (back ++ mode)),
            drop-greeting name fits' usb (front ++ (back ++ mode)),
            ← append_assoc front back mode,
          )
          (take-append (length name) name mode refl)
