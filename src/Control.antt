-- ===== src/Control.antt =====
-- server/control.h: the control interface, the class `MDApp`.
pub mod Json
pub mod Dispatch
use monidroid.Base.{
  ◌≡◌, ap, ℕ, ◌&&◌, Bool, true, false, Option, none, some, List, [], ◌∷◌, if◌then◌else◌,
}
use monidroid.Protocol.{bytes_eq}
use monidroid.Control.Json.{JsonLibrary}

abbrev pub msg_key : List ℕ
msg_key = b'm' ∷ b'e' ∷ b's' ∷ b's' ∷ b'a' ∷ b'g' ∷ b'e' ∷ []

abbrev pub req_id_key : List ℕ
req_id_key = b'r' ∷ b'e' ∷ b'q' ∷ b'u' ∷ b'e' ∷ b's' ∷ b't' ∷ b'I' ∷ b'd' ∷ []

abbrev pub data_key : List ℕ
data_key = b'd' ∷ b'a' ∷ b't' ∷ b'a' ∷ []

abbrev pub error_key : List ℕ
error_key = b'e' ∷ b'r' ∷ b'r' ∷ b'o' ∷ b'r' ∷ []

-- How a call ends: it returns, throws, or does what the language leaves undefined. The state is the one after
-- it.
pub data Outcome (S A : Type 0) : Type 0 where
  returned : S → A → Outcome S A
  thrown : S → Outcome S A
  undefined : Outcome S A

-- A step of the program on its state, and what follows it where it returns.
abbrev pub Step : Type 0 → Type 0 → Type 0
Step S A = S → Outcome S A

abbrev pub pure : {S A : Type 0} → A → Step S A
pure a s = returned s a

abbrev pub bind : {S A B : Type 0} → Outcome S A → (A → Step S B) → Outcome S B
bind (returned s a) f = f a s
bind (thrown s) f = thrown s
bind undefined f = undefined

infixl 5 ◌>>=◌ ◌>>◌
abbrev pub ◌>>=◌ : {S A B : Type 0} → Step S A → (A → Step S B) → Step S B
(m >>= f) s = bind (m s) f

abbrev pub ◌>>◌ : {S A B : Type 0} → Step S A → Step S B → Step S B
m >> k = m >>= λ _. k

-- What is run after a step that returned, or threw.
pub >>-returned :
    {S A B : Type 0} (m : Step S A) (k : Step S B) (s : S) {s' : S} {a : A}
    → m s ≡ returned s' a
    → (m >> k) s ≡ k s'
>>-returned m k s e = ap (λ o. bind o (λ _. k)) e

pub >>-thrown :
    {S A B : Type 0} (m : Step S A) (k : Step S B) (s : S) {s' : S}
    → m s ≡ thrown s'
    → (m >> k) s ≡ thrown s'
>>-thrown m k s e = ap (λ o. bind o (λ _. k)) e

-- `MessageHandler` and `RequestHandler`, which changes the state `S` of the program; a request handler gives
-- the data and the text of the error, which is empty where there is none.
abbrev pub MessageHandler : Type 0 → Type 0 → Type 0
MessageHandler S J = S → J → Outcome S (Unit {0})

abbrev pub RequestHandler : Type 0 → Type 0 → Type 0
RequestHandler S J = S → J → Outcome S (J × List ℕ)

-- The two maps of an `MDApp`.
pub record MdApp (S J : Type 0) : Type 0 where
  pub handlers : List (List ℕ × MessageHandler S J)
  pub request_handlers : List (List ℕ × RequestHandler S J)

-- A look-up in a map by names, and a write to it.
unfoldable pub find {ℓ} : {A : Type ℓ} → List ℕ → List (List ℕ × A) → Option A
find k [] = none
find k ((k', a) ∷ xs) = if bytes_eq k' k then some a else find k xs

unfoldable pub assign {ℓ} : {A : Type ℓ} → List ℕ → A → List (List ℕ × A) → List (List ℕ × A)
assign k a [] = (k, a) ∷ []
assign k a ((k', b) ∷ xs) = if bytes_eq k' k then (k', a) ∷ xs else (k', b) ∷ assign k a xs

unfoldable pub new_app : {S J : Type 0} → MdApp S J
new_app = record { handlers = []; request_handlers = [] }

unfoldable pub on_event : {S J : Type 0} → List ℕ → MessageHandler S J → MdApp S J → MdApp S J
on_event message handler app = record app { handlers = assign message handler app.handlers }

unfoldable pub on_request : {S J : Type 0} → List ℕ → RequestHandler S J → MdApp S J → MdApp S J
on_request message handler app = record app {
  request_handlers = assign message handler app.request_handlers;
}

-- What the message handler does with the outcome of a request handler: the reply has the id of the request,
-- and the data or the error.
module _ {J : Type 0} (json : JsonLibrary J) where
  unfoldable pub reply_of : J → J → List ℕ → J
  reply_of id res [] = json.object ((req_id_key, id) ∷ (data_key, res) ∷ [])
  reply_of id res (x ∷ xs) = json.object ((req_id_key, id) ∷ (error_key, json.string (x ∷ xs)) ∷ [])

  -- The two ways that the handler of a message takes: to a handler of requests, with the id of the request and
  -- its data, and to one of events, with the message. The replies are those sent to the sender.
  unfoldable pub run_request : {S : Type 0} → RequestHandler S J → S → J → J → Outcome S (List J)
  unfolding reply_of
  run_request handler s id obj =
      bind (handler s (json.value obj data_key json.null))
        (λ r s'. returned s' (reply_of id r.0 r.1 ∷ []))

  unfoldable pub run_event : {S : Type 0} → Option (MessageHandler S J) → S → J → Outcome S (List J)
  run_event none s obj = returned s []
  run_event (some handler) s obj = bind (handler s obj) (λ _ s'. returned s' [])

  unfoldable pub dispatch :
      {S : Type 0}
      → Option J
      → Option (RequestHandler S J)
      → Option (MessageHandler S J)
      → S
      → J
      → Outcome S (List J)
  unfolding run_request run_event
  dispatch (some id) (some handler) on_ev s obj = run_request handler s id obj
  dispatch (some id) none on_ev s obj = run_event on_ev s obj
  dispatch none on_req on_ev s obj = run_event on_ev s obj

  -- The handler of a message, for what `json::parse` made of it: `none` where that is discarded.
  unfoldable pub on_message : {S : Type 0} → MdApp S J → S → Option J → Outcome S (List J)
  unfolding dispatch find
  on_message app s none = returned s []
  on_message app s (some obj) = elim (json.at obj msg_key) [
    | none ↦ returned s []
    | some m ↦ elim (json.get_string m) [
      | none ↦ thrown s
      | some msg ↦
          dispatch (json.at obj req_id_key) (find msg app.request_handlers) (find msg app.handlers)
            s obj
    ]
  ]

  -- `emit`: what is published to the control panels.
  unfoldable pub emit : List ℕ → List ℕ → J → J
  emit message [] obj = json.object ((msg_key, json.string message) ∷ [])
  emit message (k ∷ ks) obj = json.object ((msg_key, json.string message) ∷ ((k ∷ ks), obj) ∷ [])
