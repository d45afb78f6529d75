-- ===== src/Client/Input/Laws.antt =====
-- What reaches the monitor of the input that a client sends.
use monidroid.Base.{
  ℕ, suc, ◌^◌, ◌<◌, ◌≡◌, ◌≢◌, refl, sym, ap, ◌∙◌, arith, Bool, true, false, Option, none, some,
  List, [], ◌∷◌, ◌++◌, append-nil, length, replicate, ltb, le→ltb, length-append, take-append,
  drop-append, IsByte, int_bytes, int_at, int_at-int_bytes, length-int_bytes,
}
use monidroid.Protocol.{cl_input_word, bytes_eq}
use monidroid.Client.Input.{
  InputEvent, mouse_move, mouse_buttons, mouse_scroll, Reading, got, eof, uncaught, read,
  input_of_type, handle_input, ended, terminated, receive_round, receive_main, on_word, ◌>>=◌,
  with_event,
}

-- What a client sends: inputs, and words of five bytes that the server does not know.
pub data Packet : Type 0 where
  input : InputEvent → Packet
  unknown : List ℕ → Packet

unfoldable pub event_bytes : InputEvent → List ℕ
event_bytes (mouse_move dx dy) = 1 ∷ (int_bytes dx ++ int_bytes dy)
event_bytes (mouse_buttons flags) = 2 ∷ flags ∷ []
event_bytes (mouse_scroll delta) = 3 ∷ int_bytes delta

unfoldable pub packets_bytes : List Packet → List ℕ
packets_bytes [] = []
packets_bytes (input e ∷ ps) = cl_input_word ++ (event_bytes e ++ packets_bytes ps)
packets_bytes (unknown w ∷ ps) = w ++ packets_bytes ps

-- The numbers fit their fields, and an unknown word is five bytes and not `CINPT`.
abbrev pub IsSendable : List Packet → Type 0
IsSendable [] = Unit {0}
IsSendable (input (mouse_move dx dy) ∷ ps) = (dx < 2 ^ 32) × (dy < 2 ^ 32) × IsSendable ps
IsSendable (input (mouse_buttons flags) ∷ ps) = IsByte flags × IsSendable ps
IsSendable (input (mouse_scroll delta) ∷ ps) = (delta < 2 ^ 32) × IsSendable ps
IsSendable (unknown w ∷ ps) = (length w ≡ 5) × (bytes_eq w cl_input_word ≡ false) × IsSendable ps

-- The inputs among the packets.
abbrev pub events_of : List Packet → List InputEvent
events_of [] = []
events_of (input e ∷ ps) = e ∷ events_of ps
events_of (unknown w ∷ ps) = events_of ps

read_lem : (n : ℕ) (xs ys : List ℕ) → length xs ≡ n → read n (xs ++ ys) ≡ got xs ys
unfolding read
read_lem n xs ys h = rw (enough, take-append n xs ys h, drop-append n xs ys h)
  where
    enough : ltb (length (xs ++ ys)) n ≡ false
    enough = le→ltb (length (xs ++ ys)) n (omega (arith, length-append xs ys))

int_back : (w : ℕ) → w < 2 ^ 32 → int_at (int_bytes w) 0 ≡ w
int_back w h = ap (λ b. int_at b 0) (sym (append-nil (int_bytes w))) ∙ int_at-int_bytes w [] h

second_int_back : (v w : ℕ) → w < 2 ^ 32 → int_at (int_bytes v ++ int_bytes w) 4 ≡ w
unfolding int_at int_bytes
second_int_back v w h = omega arith

-- A read that gives something goes on with it.
bind_got {ℓ κ} :
    {A : Type ℓ} {B : Type κ} (m : List ℕ → Reading A) (f : A → List ℕ → Reading B) {bytes : List ℕ}
    {a : A} {rest : List ℕ}
    → m bytes ≡ got a rest
    → (m >>= f) bytes ≡ f a rest
bind_got m f e = rw (e, ◌>>=◌)

handle_input-event_bytes :
    (e : InputEvent) (rest : List ℕ)
    → IsSendable (input e ∷ [])
    → handle_input (event_bytes e ++ rest) ≡ got e rest
unfolding handle_input input_of_type event_bytes
handle_input-event_bytes (mouse_move dx dy) rest (hx, hy, _) =
    bind_got (read 1) _ (read_lem 1 (1 ∷ []) ((int_bytes dx ++ int_bytes dy) ++ rest) refl)
    ∙ bind_got (read 8) _
        (read_lem 8 (int_bytes dx ++ int_bytes dy) rest (unfold int_bytes in refl))
    ∙ rw (int_at-int_bytes dx (int_bytes dy) hx, second_int_back dx dy hy)
handle_input-event_bytes (mouse_buttons flags) rest h =
    bind_got (read 1) _ (read_lem 1 (2 ∷ []) ((flags ∷ []) ++ rest) refl)
    ∙ bind_got (read 1) _ (read_lem 1 (flags ∷ []) rest refl)
handle_input-event_bytes (mouse_scroll delta) rest (h, _) =
    bind_got (read 1) _ (read_lem 1 (3 ∷ []) (int_bytes delta ++ rest) refl)
    ∙ bind_got (read 4) _ (read_lem 4 (int_bytes delta) rest (length-int_bytes delta))
    ∙ rw (int_back delta h)

round_input :
    (e : InputEvent) (rest : List ℕ)
    → IsSendable (input e ∷ [])
    → receive_round (cl_input_word ++ (event_bytes e ++ rest)) ≡ got (some e) rest
unfolding receive_round on_word bytes_eq
round_input e rest h =
    bind_got (read 5) _ (read_lem 5 cl_input_word (event_bytes e ++ rest) refl)
    ∙ bind_got handle_input _ (handle_input-event_bytes e rest h)

round_unknown :
    (w rest : List ℕ)
    → length w ≡ 5
    → bytes_eq w cl_input_word ≡ false
    → receive_round (w ++ rest) ≡ got none rest
unfolding receive_round on_word
round_unknown w rest h u = bind_got (read 5) _ (read_lem 5 w rest h) ∙ rw u

-- The end of the stream, met where a word is due.
round_eof : receive_round [] ≡ eof
unfolding receive_round read
round_eof = refl

main_got :
    (tests : List Bool) (bytes rest : List ℕ) (e : Option InputEvent)
    → receive_round bytes ≡ got e rest
    → receive_main (true ∷ tests) bytes ≡ with_event e (receive_main tests rest)
unfolding receive_main
main_got tests bytes rest e h = rw (h, receive_main)

first_IsSendable :
    (e : InputEvent) (ps : List Packet)
    → IsSendable (input e ∷ ps)
    → IsSendable (input e ∷ []) × IsSendable ps
first_IsSendable (mouse_move dx dy) ps (hx, hy, h) = ((hx, hy, tt), h)
first_IsSendable (mouse_buttons flags) ps (hf, h) = ((hf, tt), h)
first_IsSendable (mouse_scroll delta) ps (hd, h) = ((hd, tt), h)

-- While the client streams, every movement, every state of the buttons and every scroll that it sends, and it
-- sends no input of another type, reaches the monitor, in order; words that the server
-- does not know are skipped; and the loop ends with the stream.
pub receive_main-packets_bytes :
    (ps : List Packet)
    → IsSendable ps
    → receive_main (true ∷ replicate (length ps) true) (packets_bytes ps) ≡ (events_of ps, ended)
unfolding packets_bytes
receive_main-packets_bytes [] h = unfold receive_main in rw (round_eof, receive_main)
receive_main-packets_bytes (input e ∷ ps) h =
    let (first, others) = first_IsSendable e ps h in
    main_got (replicate (suc (length ps)) true) _ _ (some e)
      (round_input e (packets_bytes ps) first)
    ∙ ap (with_event (some e)) (receive_main-packets_bytes ps others)
receive_main-packets_bytes (unknown w ∷ ps) (five, other, others) =
    main_got (replicate (suc (length ps)) true) _ _ none
      (round_unknown w (packets_bytes ps) five other)
    ∙ receive_main-packets_bytes ps others

-- An input of any other type than those three, such as the protocol's `Mouse` (4) or `Touch` (5), makes
-- `handleInput` throw a pointer, which no handler of the thread catches: the process is terminated.
pub receive_main_terminates :
    (type : ℕ) (rest : List ℕ) (tests : List Bool)
    → type ≢ 1
    → type ≢ 2
    → type ≢ 3
    → receive_main (true ∷ tests) (cl_input_word ++ (type ∷ rest)) ≡ ([], terminated)
unfolding receive_main
receive_main_terminates type rest tests h1 h2 h3 = rw (thrown, receive_main)
  where
    unhandled : handle_input (type ∷ rest) ≡ uncaught
    unhandled =
        unfold handle_input input_of_type in
        bind_got (read 1) _ (read_lem 1 (type ∷ []) rest refl) ∙ ground arith

    thrown : receive_round (cl_input_word ++ (type ∷ rest)) ≡ uncaught
    thrown =
        unfold receive_round on_word bytes_eq in
        bind_got (read 5) _ (read_lem 5 cl_input_word (type ∷ rest) refl) ∙ rw (unhandled, ◌>>=◌)
