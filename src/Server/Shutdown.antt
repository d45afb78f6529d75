-- ===== src/Server/Shutdown.antt =====
-- What the destructor of the server leaves.
use mathlib.Core.Option
use monidroid.Base.{
  ℕ, ◌≡◌, refl, ap, ◌∙◌, Bool, true, false, ◌||◌, Option, none, some, List, [], ◌∷◌, ◌==◌,
  if◌then◌else◌, Bool-cases, inl, inr,
}
use monidroid.Client.Send.{force_disconnect}
use monidroid.Server.Data.{ClientContext, Server, context, update, contains}
use monidroid.Server.Main.{on_client, close_all}
use monidroid.Server.Sessions.{context-update}

-- A context whose client is disconnected without an error and whose thread is joined.
abbrev pub closed : ClientContext → ClientContext
closed x = record x { client = force_disconnect x.client false; joinable = false }

abbrev cut : ClientContext → ClientContext
cut x = record x { client = force_disconnect x.client false }

abbrev joined : ClientContext → ClientContext
joined x = record x { joinable = false }

closed_twice :
    (o : Option ClientContext) → Option.map closed (Option.map closed o) ≡ Option.map closed o
unfolding force_disconnect
closed_twice none = refl
closed_twice (some x) = refl

joined-cut : (o : Option ClientContext) → Option.map joined (Option.map cut o) ≡ Option.map closed o
joined-cut none = refl
joined-cut (some x) = refl

-- One round of the loop.
round_lem :
    (i j : ℕ) (xs : List ClientContext)
    → context j (update joined i (update cut i xs))
      ≡ (if i == j then Option.map closed (context j xs) else context j xs)
round_lem i j xs = elim (Bool-cases (i == j)) [
  | inl e ↦
      context-update joined i j (update cut i xs) (λ _. refl)
      ∙ rw (e, context-update cut i j xs (λ _. refl), e) (joined-cut (context j xs))
  | inr e ↦
      context-update joined i j (update cut i xs) (λ _. refl)
      ∙ rw (e, context-update cut i j xs (λ _. refl), e) refl
]

pub close_all-context :
    (is : List ℕ) (s : Server) (j : ℕ)
    → context j (close_all is s).contexts
      ≡ (if contains j is then Option.map closed (context j s.contexts) else context j s.contexts)
unfolding close_all on_client contains
close_all-context [] s j = refl
close_all-context (i ∷ is) s j =
    close_all-context is (record s { contexts = update joined i (update cut i s.contexts) }) j
    ∙ ap (λ o. if contains j is then Option.map closed o else o) (round_lem i j s.contexts)
    ∙ twice (i == j) (contains j is) (context j s.contexts)
  where
    twice :
        (a b : Bool) (o : Option ClientContext)
        → (if b
            then Option.map closed (if a then Option.map closed o else o)
            else (if a then Option.map closed o else o))
          ≡ (if a || b then Option.map closed o else o)
    twice true true o = closed_twice o
    twice true false o = refl
    twice false true o = refl
    twice false false o = refl
