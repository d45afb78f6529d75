-- ===== src/Server/Threads/Views.antt =====
-- What an id shows of a state, and what the point of a thread says of it.
use mathlib.Core.Option
use monidroid.Base.{
  ℕ, ◌≡◌, refl, ap, ◌∙◌, arith, Bool, true, false, not, ◌&&◌, ◌||◌, Option, none, some, List, [],
  ◌∷◌, ◌==◌, if◌then◌else◌, Bool-cases, inl, inr,
}
use monidroid.Server.Data.{
  ClientContext, Server, Notice, client_connected, client_disconnected, context, update, contains,
  insert, erase,
}
use monidroid.Server.Sessions.{context-update}
use monidroid.Server.Threads.{
  Stage, unborn, accepted, registered, told, leaving, removed, rejected, turned_away, ended,
  Closing, serving, cancelled, closing, joining, closed,
}

-- The contexts that the loop of the destructor has still to take, and the one it waits for.
unfoldable pub left_of : Closing → List ℕ
left_of serving = []
left_of cancelled = []
left_of (closing is) = is
left_of (joining i is) = is
left_of closed = []

-- Before the copy of the set is made.
unfoldable pub before_copy : Closing → Bool
before_copy serving = true
before_copy cancelled = true
before_copy (closing is) = false
before_copy (joining i is) = false
before_copy closed = false

unfoldable pub is_storing : ℕ → Option ℕ → Bool
is_storing j none = false
is_storing j (some i) = i == j

-- The notices of one client, newest first.
unfoldable pub names : ℕ → Notice → Bool
names j (client_connected i) = i == j
names j (client_disconnected i) = i == j

unfoldable pub about : ℕ → List Notice → List Notice
unfolding names
about j [] = []
about j (n ∷ ns) = if names j n then n ∷ about j ns else about j ns

abbrev pub is_joinable : ClientContext → Bool
is_joinable x = x.joinable

-- The set is a list without duplicates.
abbrev pub Unique : List ℕ → Type 0
Unique [] = Unit
Unique (i ∷ is) = (contains i is ≡ false) × Unique is

pub contains-insert :
    (i j : ℕ) (is : List ℕ) → contains j (insert i is) ≡ ((i == j) || contains j is)
unfolding contains insert
contains-insert i j is = elim (Bool-cases (contains i is)) [
  | inl e ↦ rw e (elim (Bool-cases (i == j)) [ inl h ↦ ground (arith, e) | inr h ↦ ground arith ])
  | inr e ↦ rw e refl
]

pub insert-Unique : (i : ℕ) (is : List ℕ) → Unique is → Unique (insert i is)
unfolding insert
insert-Unique i is u = elim (Bool-cases (contains i is)) [ inl e ↦ rw e u | inr e ↦ rw e (e, u) ]

pub contains-erase :
    (i j : ℕ) (is : List ℕ) → Unique is → contains j (erase i is) ≡ (not (i == j) && contains j is)
unfolding contains erase
contains-erase i j [] u = ground arith
contains-erase i j (k ∷ is) u = ground (arith, contains-erase i j is u.1, u.0)

pub erase-Unique : (i : ℕ) (is : List ℕ) → Unique is → Unique (erase i is)
unfolding erase
erase-Unique i [] u = u
erase-Unique i (k ∷ is) u = elim (Bool-cases (k == i)) [
  | inl e ↦ rw e u.1
  | inr e ↦ rw e (ground (arith, contains-erase i k is u.1, u.0), erase-Unique i is u.1)
]

-- A change to the context `i`, as the handle of `j` shows it.
pub handle-update :
    (f : ClientContext → ClientContext) (g : Bool → Bool) (i j : ℕ) (xs : List ClientContext)
    → ((x : ClientContext) → (f x).id ≡ x.id)
    → ((x : ClientContext) → (f x).joinable ≡ g x.joinable)
    → Option.map is_joinable (context j (update f i xs)) ≡ (
        if i == j
        then Option.map g (Option.map is_joinable (context j xs))
        else Option.map is_joinable (context j xs))
handle-update f g i j xs h k =
    ap (Option.map is_joinable) (context-update f i j xs h) ∙ go (i == j) (context j xs)
  where
    go :
        (b : Bool) (o : Option ClientContext)
        → Option.map is_joinable (if b then Option.map f o else o)
          ≡ (if b then Option.map g (Option.map is_joinable o) else Option.map is_joinable o)
    go true none = refl
    go true (some x) = ap some (k x)
    go false o = refl

pub handle-update_same :
    (f : ClientContext → ClientContext) (i j : ℕ) (xs : List ClientContext)
    → ((x : ClientContext) → (f x).id ≡ x.id)
    → ((x : ClientContext) → (f x).joinable ≡ x.joinable)
    → Option.map is_joinable (context j (update f i xs)) ≡ Option.map is_joinable (context j xs)
handle-update_same f i j xs h k =
    handle-update f (λ b. b) i j xs h k ∙ go (i == j) (Option.map is_joinable (context j xs))
  where
    go : (b : Bool) (o : Option Bool) → (if b then Option.map (λ z. z) o else o) ≡ o
    go true none = refl
    go true (some x) = refl
    go false o = refl

-- The handle that a context shows.
abbrev pub handle : ℕ → Server → Option Bool
handle j s = Option.map is_joinable (context j s.contexts)

-- The thread has been started and has not come to its last lock.
unfoldable pub is_attached : Stage → Bool
is_attached unborn = false
is_attached accepted = true
is_attached registered = true
is_attached told = true
is_attached leaving = true
is_attached removed = false
is_attached rejected = true
is_attached turned_away = true
is_attached ended = false

-- What the control panel has heard of a client, newest first.
unfoldable pub story : ℕ → Stage → List Notice
story j unborn = []
story j accepted = []
story j registered = []
story j told = client_connected j ∷ []
story j leaving = client_connected j ∷ []
story j removed = client_connected j ∷ []
story j rejected = []
story j turned_away = client_connected j ∷ []
story j ended = client_disconnected j ∷ client_connected j ∷ []
