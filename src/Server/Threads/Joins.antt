-- ===== src/Server/Threads/Joins.antt =====
-- What the control panel hears of the clients, and the handles that the destructor leaves.
use mathlib.Core.Option
use monidroid.Base.{ℕ, ◌==◌, ◌≡◌, ◌≢◌, refl, ap, arith, ◌∙◌, Bool, true, false, Option, none, some}
use monidroid.Server.Data.{ClientContext, context, contains}
use monidroid.Server.Threads.{
  Stage, unborn, accepted, registered, told, leaving, removed, rejected, turned_away, ended, closed,
  Threads, HasHandle, is_over, Reach,
}
use monidroid.Server.Threads.Views.{about, is_joinable, is_storing, is_attached, story}
use monidroid.Server.Threads.Invariant.{Reach-Inv}

-- In every state that the server comes to, whatever the order of the threads, the control panel has heard of
-- a client exactly what the point of its thread says: nothing before the identification and after a failed
-- one, `onClientConnected` once from then on, and `onClientDisconnected` once after it when the thread has
-- returned at its end.
pub Reach-notices :
    (i : ℕ) (t : Threads) → Reach i t → (j : ℕ) → about j t.server.notices ≡ story j (t.stage j)
Reach-notices i t r j = ((Reach-Inv i t r).each j).notices

-- The context and its handle, from what an id shows.
shown :
    (t : Threads) (j : ℕ) (b : Bool)
    → Option.map is_joinable (context j t.server.contexts) ≡ some b
    → HasHandle t j b
shown t j b = go (context j t.server.contexts)
  where
    go :
        (o : Option ClientContext)
        → Option.map is_joinable o ≡ some b
        → (x : ClientContext) × (o ≡ some x) × (x.joinable ≡ b)
    go none e = cc e
    go (some x) e = (x, refl, cc e)

running : (p : Stage) → is_over p ≡ false → p ≢ unborn → p ≢ removed → is_attached p ≡ true
unfolding is_over is_attached
running unborn o m k = absurd (m refl)
running accepted o m k = refl
running registered o m k = refl
running told o m k = refl
running leaving o m k = refl
running removed o m k = absurd (k refl)
running rejected o m k = refl
running turned_away o m k = refl
running ended o m k = cc o

unequal : (i j : ℕ) → i ≢ j → (i == j) ≡ false
unequal i j n = ground arith

not_stored : (o : Option ℕ) (j : ℕ) → o ≢ some j → is_storing j o ≡ false
unfolding is_storing
not_stored none j n = refl
not_stored (some i) j n = unequal i j (λ k. n (ap some k))

-- The destructor does not wait for all threads. When it has returned, the thread of a client that was not in
-- the set when it was copied, having been accepted but not yet registered, is joined by nobody: as long as it
-- has not come to its last lock its handle is still joinable, once the handler of the accept has stored it.
pub Reach-late :
    (i : ℕ) (t : Threads)
    → Reach i t
    → t.phase ≡ closed
    → (j : ℕ) → contains j t.copied ≡ false
    → is_over (t.stage j) ≡ false
    → t.stage j ≢ unborn
    → t.stage j ≢ removed
    → t.storing ≢ some j
    → HasHandle t j true
Reach-late i t r e j c o m k s = shown t j true (
    ((Reach-Inv i t r).each j).handle c (running (t.stage j) o m k)
    ∙ rw (not_stored t.storing j s) refl)
