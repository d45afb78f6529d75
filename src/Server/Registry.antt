-- ===== src/Server/Registry.antt =====
-- Which client an id names.
use monidroid.Base.{
  ℕ, ◌≡◌, ◌≢◌, refl, sym, ap, ◌∙◌, arith, Bool, true, false, ◌&&◌, none, some, List, [], ◌∷◌, ◌==◌,
  ==_iff, if◌then◌else◌, Bool-cases, inl, inr,
}
use monidroid.Protocol.{bytes_eq}
use monidroid.Client.Send.{force_disconnect}
use monidroid.Server.Decimal.{to_string, to_string-injective}
use monidroid.Server.Data.{ClientContext, Server, context, update, contains}
use monidroid.Server.Main.{find_id, on_client, force_disconnect_id}
use monidroid.Server.Sessions.{context-update}

bytes_eq_refl : (xs : List ℕ) → bytes_eq xs xs ≡ true
unfolding bytes_eq
bytes_eq_refl [] = refl
bytes_eq_refl (x ∷ xs) = rw (bytes_eq_refl xs) (ground arith)

bytes_eq→≡ : (xs ys : List ℕ) → bytes_eq xs ys ≡ true → xs ≡ ys
unfolding bytes_eq
bytes_eq→≡ [] [] h = refl
bytes_eq→≡ [] (y ∷ ys) h = cc
bytes_eq→≡ (x ∷ xs) [] h = cc
bytes_eq→≡ (x ∷ xs) (y ∷ ys) h =
    let (e, es) = both (x == y) (bytes_eq xs ys) h in
    ap (λ z. z ∷ xs) ((==_iff x y).0 e) ∙ ap (λ zs. y ∷ zs) (bytes_eq→≡ xs ys es)
  where
    both : (a b : Bool) → a && b ≡ true → (a ≡ true) × (b ≡ true)
    both true b e = (refl, e)
    both false b e = cc

-- The texts of two ids are equal when the ids are.
same_text : (j i : ℕ) → bytes_eq (to_string j) (to_string i) ≡ (j == i)
same_text j i = elim (Bool-cases (j == i)) [
  | inl e ↦ rw (e, (==_iff j i).0 e) (bytes_eq_refl (to_string i))
  | inr e ↦ elim (Bool-cases (bytes_eq (to_string j) (to_string i))) [
    | inl t ↦ ground (arith, to_string-injective j i (bytes_eq→≡ (to_string j) (to_string i) t))
    | inr f ↦ f ∙ sym e
  ]
]

pub find_id_lem :
    (i : ℕ) (is : List ℕ) → find_id (to_string i) is ≡ (if contains i is then some i else none)
unfolding find_id contains
find_id_lem i [] = refl
find_id_lem i (j ∷ js) = rw (same_text j i) (ground (arith, find_id_lem i js))

found :
    (s : Server) (i : ℕ) → contains i s.clients ≡ true → find_id (to_string i) s.clients ≡ some i
found s i e = find_id_lem i s.clients ∙ (rw e refl)

missed :
    (s : Server) (i : ℕ) → contains i s.clients ≡ false → find_id (to_string i) s.clients ≡ none
missed s i e = find_id_lem i s.clients ∙ (rw e refl)

pub hit :
    (s : Server) (i : ℕ)
    → contains i s.clients ≡ true
    → force_disconnect_id s (to_string i) ≡ (on_client (λ c. force_disconnect c true) s i, true)
unfolding force_disconnect_id
hit s i e = rw (found s i e, force_disconnect_id) refl

pub miss :
    (s : Server) (i : ℕ)
    → contains i s.clients ≡ false
    → force_disconnect_id s (to_string i) ≡ (s, false)
unfolding force_disconnect_id
miss s i e = rw (missed s i e, force_disconnect_id) refl

-- The text of an id names the registered client with that id, and no other: that client is disconnected with
-- the error and nothing else changes; the text of another id changes nothing and is answered by `false`.
pub force_disconnect_id_lem :
    (s : Server) (i : ℕ)
    → (contains i s.clients ≡ true
        → let (s', found) = force_disconnect_id s (to_string i) in
          (found ≡ true)
          × (s'.clients ≡ s.clients)
          × (s'.notices ≡ s.notices)
          × (s'.running ≡ s.running)
          × (s'.accepting ≡ s.accepting)
          × (s'.current_id ≡ s.current_id)
          × ((j : ℕ) → i ≢ j → context j s'.contexts ≡ context j s.contexts)
          × ((x : ClientContext)
              → context i s.contexts ≡ some x
              → context i s'.contexts
                ≡ some (record x { client = force_disconnect x.client true })))
      × (contains i s.clients ≡ false → force_disconnect_id s (to_string i) ≡ (s, false))
force_disconnect_id_lem s i = (
  λ e. rw (hit s i e) (
    refl,
    unfold on_client in refl,
    unfold on_client in refl,
    unfold on_client in refl,
    unfold on_client in refl,
    unfold on_client in refl,
    unfold on_client in others,
    unfold on_client in itself,
  ),
  miss s i,
)
  where
    cut : ClientContext → ClientContext
    cut x = record x { client = force_disconnect x.client true }

    others : (j : ℕ) → i ≢ j → context j (update cut i s.contexts) ≡ context j s.contexts
    others j n = ground (arith, context-update cut i j s.contexts (λ _. refl))

    itself :
        (x : ClientContext)
        → context i s.contexts ≡ some x
        → context i (update cut i s.contexts)
          ≡ some (record x { client = force_disconnect x.client true })
    itself x e = ground (arith, e, context-update cut i i s.contexts (λ _. refl))
