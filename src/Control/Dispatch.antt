-- ===== src/Control/Dispatch.antt =====
-- How the control interface answers a request.
use monidroid.Base.{ℕ, ◌≡◌, ◌≢◌, refl, none, some, List, [], ◌∷◌}
use monidroid.Protocol.{bytes_eq}
use monidroid.Control.{
  returned, MdApp, RequestHandler, find, dispatch, on_message, reply_of, run_request, msg_key,
  req_id_key, data_key, error_key,
}
use monidroid.Control.Json.{JsonLibrary, IsJsonLibrary}

module _ {J : Type 0} (json : JsonLibrary J) (lib : IsJsonLibrary J json) where
  -- What a reply to the request `id` says: the data, or else the text of the error, and never both.
  pub record Answers (id res : J) (error : List ℕ) (reply : J) : Type 0 where
    pub to : json.at reply req_id_key ≡ some id
    pub data_of : error ≡ [] → json.at reply data_key ≡ some res
    pub no_error : error ≡ [] → json.at reply error_key ≡ none
    pub error_of : error ≢ [] → json.at reply error_key ≡ some (json.string error)
    pub no_data : error ≢ [] → json.at reply data_key ≡ none

  reply_of-Answers :
      (id res : J) (error : List ℕ) → Answers id res error (reply_of json id res error)
  unfolding reply_of bytes_eq
  reply_of-Answers id res [] = record {
    to = lib.at-object _ _ refl;
    data_of = λ _. lib.at-object _ _ refl;
    no_error = λ _. lib.at-object _ _ refl;
    error_of = λ h. absurd (h refl);
    no_data = λ h. absurd (h refl);
  }
  reply_of-Answers id res (x ∷ xs) = record {
    to = lib.at-object _ _ refl;
    data_of = λ e. absurd (cc);
    no_error = λ e. absurd (cc);
    error_of = λ _. lib.at-object _ _ refl;
    no_data = λ _. lib.at-object _ _ refl;
  }

  -- A message that names a handler of requests and has an id is answered once, where the handler returns: the
  -- reply has the id of the request, and either the data of the handler or the text of its error. The state is
  -- the one that the handler left.
  pub on_message-Answers :
      {S : Type 0} (app : MdApp S J) (s s' : S) (obj m id res : J) (msg error : List ℕ)
      (handler : RequestHandler S J)
      → json.at obj msg_key ≡ some m
      → json.get_string m ≡ some msg
      → json.at obj req_id_key ≡ some id
      → find msg app.request_handlers ≡ some handler
      → handler s (json.value obj data_key json.null) ≡ returned s' (res, error)
      → (reply : J) × (on_message json app s (some obj) ≡ returned s' (reply ∷ []))
        × Answers id res error reply
  unfolding on_message reply_of dispatch run_request
  on_message-Answers app s s' obj m id res msg error handler e1 e2 e3 e4 e5 = (
    reply_of json id res error,
    rw (on_message, e1, e2, e3, e4, dispatch, run_request, e5) refl,
    reply_of-Answers id res error,
  )
