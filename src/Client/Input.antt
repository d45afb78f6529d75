-- ===== src/Client/Input.antt =====
-- server/client.cpp: `Client::receiveMain` and `handleInput`, over the bytes that the client sends until
-- it closes the connection.
pub mod Laws
use monidroid.Base.{
  ℕ, zero, suc, ◌+◌, ◌-◌, ◌*◌, ◌/◌, ◌%◌, ◌^◌, ◌≤◌, ◌<◌, ◌≡◌, ◌≢◌, ◌↔◌, ◌⊎◌, inl, inr, refl, sym, ap,
  ◌∙◌, subst, arith, Bool, true, false, not, ◌&&◌, ◌||◌, Option, none, some, List, [], ◌∷◌, ◌++◌,
  map, append-nil, append_assoc, length, take, drop, get_elem?, get_or, set, replicate, All, ltb,
  leb, ◌==◌, if◌then◌else◌, ==_iff, ltb→lt, lt→ltb, ltb→le, le→ltb, Bool-cases, Option-cases,
  length-append, take-append, drop-append, length-set, get_elem?-set_self, get_elem?-set_ne,
  drop-append_of_le, take-append_of_le, length-drop, take-append-drop, length-take_of_le, u8, u16,
  u32, IsByte, int_pos, int_bytes, int_at, int_at-int_bytes, length-int_bytes, int_at-append,
  bit_or,
}
use monidroid.Protocol.{cl_input_word, bytes_eq}

-- What a message asks of the monitor: the three `monitorSendInput`.
pub data InputEvent : Type 0 where
  mouse_move : ℕ → ℕ → InputEvent
  mouse_buttons : ℕ → InputEvent
  mouse_scroll : ℕ → InputEvent

-- How a read of an exact number of bytes, or a handler that makes such reads, ends: with a value and the
-- bytes left, with the `system_error` at the end of the stream, or with the pointer that
-- `throw new std::runtime_error` throws and nothing catches.
pub data Reading {ℓ} (A : Type ℓ) : Type ℓ where
  got : A → List ℕ → Reading A
  eof : Reading A
  uncaught : Reading A

infixl 5 ◌>>=◌
abbrev pub ◌>>=◌ {ℓ κ} :
    {A : Type ℓ} {B : Type κ} → (List ℕ → Reading A) → (A → List ℕ → Reading B) → List ℕ → Reading B
◌>>=◌ m f bytes = elim (m bytes) [ got a rest ↦ f a rest | eof ↦ eof | uncaught ↦ uncaught ]

-- `asio::read` of `n` bytes.
unfoldable pub read : ℕ → List ℕ → Reading (List ℕ)
read n bytes = if ltb (length bytes) n then eof else got (take n bytes) (drop n bytes)

abbrev give {ℓ} : {A : Type ℓ} → A → List ℕ → Reading A
give a bytes = got a bytes

-- The switch over the type of the input.
unfoldable pub input_of_type : ℕ → List ℕ → Reading InputEvent
input_of_type type bytes =
    if type == 1
    then (do buf ← read 8; give (mouse_move (int_at buf 0) (int_at buf 4))) bytes
    else if type == 2
    then (do buf ← read 1; give (mouse_buttons (get_or buf 0 0))) bytes
    else if type == 3
    then (do buf ← read 4; give (mouse_scroll (int_at buf 0))) bytes
    else uncaught

unfoldable pub handle_input : List ℕ → Reading InputEvent
handle_input = do buf ← read 1; input_of_type (get_or buf 0 0)

-- How `receiveMain` stands: it found the client in another state, or the stream ended, or the exception
-- left the thread's function, which ends the process; or it still runs.
pub data Ending : Type 0 where
  stopped ended terminated running : Ending

-- What a round does with the word that it has read.
unfoldable pub on_word : List ℕ → List ℕ → Reading (Option InputEvent)
on_word word bytes =
    if bytes_eq word cl_input_word
    then (do e ← handle_input; give (some e)) bytes
    else got none bytes

-- One round of the loop: an input, or a word that is ignored.
unfoldable pub receive_round : List ℕ → Reading (Option InputEvent)
receive_round = do word ← read 5; on_word word

abbrev pub with_event : Option InputEvent → List InputEvent × Ending → List InputEvent × Ending
with_event none r = r
with_event (some e) (es, end) = (e ∷ es, end)

-- The list holds what the loop's test `m_state == Streaming` gives each time.
unfoldable pub receive_main : List Bool → List ℕ → List InputEvent × Ending
receive_main [] bytes = ([], running)
receive_main (false ∷ tests) bytes = ([], stopped)
receive_main (true ∷ tests) bytes = elim (receive_round bytes) [
  | got e rest ↦ with_event e (receive_main tests rest)
  | eof ↦ ([], ended)
  | uncaught ↦ ([], terminated)
]
