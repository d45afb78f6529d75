-- ===== src/Entry/Closing/Messages.antt =====
-- Every message of a control panel keeps what is stopped and what closes together.
use monidroid.Base.{
  ℕ, ◌≡◌, subst, refl, Bool, true, false, Option, none, some, List, [], ◌∷◌, All, Bool-cases,
  Option-cases, inl, inr,
}
use monidroid.Protocol.{bytes_eq}
use monidroid.Control.{
  RequestHandler, MessageHandler, new_app, find, assign, on_event, on_request, on_message, dispatch,
  run_request, run_event, msg_key, req_id_key, data_key,
}
use monidroid.Control.Json.{JsonLibrary}
use monidroid.Entry.{Program, start_servers}
use monidroid.Entry.Handlers.{
  Host, handle_config, handle_clients, handle_state, set_enabled, handle_shutdown,
  handle_disconnect, setup_control,
}
use monidroid.Entry.Names.{enable_key, id_key}
use monidroid.Entry.Closing.{
  Holds, Holds-bind, IsSound, start_servers-Keeps, stop_servers-IsSound, shutdown-IsSound,
}

-- The handler of a name keeps what all the handlers keep.
find-All {ℓ κ} :
    {A : Type ℓ} (P : A → Type κ) (k : List ℕ) (xs : List (List ℕ × A)) {a : A}
    → All (λ x. P x.1) xs
    → find k xs ≡ some a
    → P a
unfolding find
find-All P k [] h e = absurd (cc)
find-All P k ((k', b) ∷ xs) {a = a} h e = elim (Bool-cases (bytes_eq k' k)) [
  | inl t ↦ subst P (cc) h.0
  | inr f ↦ find-All P k xs h.1 (cc)
]

module _ {J : Type 0} (json : JsonLibrary J) (host : Host) where
  -- A handler keeps it, whatever it is called with.
  RequestKeeps : RequestHandler Program J → Type 0
  RequestKeeps h = (g : Program) (arg : J) → IsSound g → Holds IsSound (h g arg)

  MessageKeeps : MessageHandler Program J → Type 0
  MessageKeeps h = (g : Program) (msg : J) → IsSound g → Holds IsSound (h g msg)

  handle_config-Keeps : RequestKeeps (handle_config json host)
  unfolding handle_config RequestKeeps
  handle_config-Keeps g arg h = elim (Option-cases host.resolved) [
    | inl n ↦ rw (handle_config, n) tt
    | inr (xs, n) ↦ rw (handle_config, n) h
  ]

  handle_clients-Keeps : RequestKeeps (handle_clients json)
  unfolding handle_clients RequestKeeps
  handle_clients-Keeps g arg h = h

  set_enabled-Keeps :
      (b : Bool) (g : Program) → IsSound g → Holds IsSound (set_enabled json host b g)
  unfolding set_enabled
  set_enabled-Keeps true g h =
      Holds-bind IsSound (start_servers host.starts g) _ (start_servers-Keeps host.starts g h)
        (λ g' _ h'. h')
  set_enabled-Keeps false g h = stop_servers-IsSound g h

  handle_state-Keeps : RequestKeeps (handle_state json host)
  unfolding handle_state RequestKeeps
  handle_state-Keeps g arg h = elim (Option-cases (json.at arg enable_key)) [
    | inl n ↦ rw (handle_state, n) h
    | inr (v, n) ↦ elim (Option-cases (json.get_bool v)) [
      | inl n' ↦ rw (handle_state, n, n') tt
      | inr (b, n') ↦ rw (handle_state, n, n') (set_enabled-Keeps b g h)
    ]
  ]

  handle_shutdown-Keeps : MessageKeeps (handle_shutdown json)
  unfolding handle_shutdown MessageKeeps
  handle_shutdown-Keeps g msg h = shutdown-IsSound g

  handle_disconnect-Keeps : MessageKeeps (handle_disconnect json)
  unfolding handle_disconnect MessageKeeps
  handle_disconnect-Keeps g msg h = elim (Option-cases g.server) [
    | inl n ↦ rw (handle_disconnect, n) h
    | inr (s, n) ↦ elim (Option-cases (json.at msg id_key)) [
      | inl n1 ↦ rw (handle_disconnect, n, n1) tt
      | inr (v, n1) ↦ elim (Option-cases (json.get_string v)) [
        | inl n2 ↦ rw (handle_disconnect, n, n1, n2) tt
        | inr (t, n2) ↦ rw (handle_disconnect, n, n1, n2) h
      ]
    ]
  ]

  request_handlers-Keep :
      (msg : List ℕ) {h : RequestHandler Program J}
      → find msg (setup_control json host new_app).request_handlers ≡ some h
      → RequestKeeps h
  unfolding setup_control new_app on_event on_request assign bytes_eq
  request_handlers-Keep msg e =
      find-All RequestKeeps msg _
        (handle_config-Keeps, (handle_clients-Keeps, (handle_state-Keeps, tt))) e

  handlers-Keep :
      (msg : List ℕ) {h : MessageHandler Program J}
      → find msg (setup_control json host new_app).handlers ≡ some h
      → MessageKeeps h
  unfolding setup_control new_app on_event on_request assign bytes_eq
  handlers-Keep msg e =
      find-All MessageKeeps msg _ (handle_shutdown-Keeps, (handle_disconnect-Keeps, tt)) e

  run_request-Keeps :
      (h : RequestHandler Program J) (g : Program) (id obj : J)
      → RequestKeeps h
      → IsSound g
      → Holds IsSound (run_request json h g id obj)
  unfolding run_request RequestKeeps
  run_request-Keeps h g id obj k s =
      Holds-bind IsSound (h g (json.value obj data_key json.null)) _ (k g _ s) (λ g' r s'. s')

  run_event-Keeps :
      (o : Option (MessageHandler Program J)) (g : Program) (obj : J)
      → ((h : MessageHandler Program J) → o ≡ some h → MessageKeeps h)
      → IsSound g
      → Holds IsSound (run_event json o g obj)
  unfolding run_event MessageKeeps
  run_event-Keeps none g obj k s = s
  run_event-Keeps (some h) g obj k s =
      Holds-bind IsSound (h g obj) _ (k h refl g obj s) (λ g' _ s'. s')

  dispatch-Keeps :
      (id : Option J) (r : Option (RequestHandler Program J))
      (o : Option (MessageHandler Program J)) (g : Program) (obj : J)
      → ((h : RequestHandler Program J) → r ≡ some h → RequestKeeps h)
      → ((h : MessageHandler Program J) → o ≡ some h → MessageKeeps h)
      → IsSound g
      → Holds IsSound (dispatch json id r o g obj)
  unfolding dispatch
  dispatch-Keeps (some id) (some h) o g obj kr ke s = run_request-Keeps h g id obj (kr h refl) s
  dispatch-Keeps (some id) none o g obj kr ke s = run_event-Keeps o g obj ke s
  dispatch-Keeps none r o g obj kr ke s = run_event-Keeps o g obj ke s

  -- Every message keeps it.
  pub on_message-Keeps :
      (msg : Option J) (g : Program)
      → IsSound g
      → Holds IsSound (on_message json (setup_control json host new_app) g msg)
  unfolding on_message
  on_message-Keeps none g s = s
  on_message-Keeps (some obj) g s = elim (Option-cases (json.at obj msg_key)) [
    | inl n ↦ rw (on_message, n) s
    | inr (m, n) ↦ elim (Option-cases (json.get_string m)) [
      | inl n' ↦ rw (on_message, n, n') tt
      | inr (text, n') ↦
          rw (on_message, n, n')
            (dispatch-Keeps (json.at obj req_id_key) _ _ g obj (λ h e. request_handlers-Keep text e)
              (λ h e. handlers-Keep text e) s)
    ]
  ]
