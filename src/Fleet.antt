-- ===== src/Fleet.antt =====
-- Several instances of the program over one database, one provider and one Redis: the batches that
-- `processBatch` of internal/scheduler/scheduler.go runs under the lock, one call at a time.
pub mod Shared
pub mod Invariant
pub mod Attempts
pub mod Once
pub mod Batches
pub mod Program
pub mod Beside
pub mod Worker
pub mod Failover
use go_message_dispatcher.Base.{
  ℕ, ◌≡◌, ◌≢◌, Bool, true, false, Option, none, some, List, [], ◌∷◌, Elem, Text, Result, ok, err,
  is_ok,
}
use go_message_dispatcher.Domain.{Message}
use go_message_dispatcher.Redis.{RedisClient, IsRedis}
use go_message_dispatcher.Lock.{acquire, release, extend}
use go_message_dispatcher.Lock.Cluster.{Cluster, view, put, died, update}
use go_message_dispatcher.Service.{Service, batch_size, send, process_single_message}
use go_message_dispatcher.Service.Ledger.{Outgoing, IsLedger}
use go_message_dispatcher.Service.Batch.{after_send, marking}

-- The messages that all instances have handed to the provider, the last one first, each with whether
-- `MarkAsSent` has then returned no error: so does `processSingleMessage` then, unless the process
-- dies before.
abbrev pub History : Type 0
History = List (Message × Bool)

-- Beside the locks: what the batch of each instance has left to do, once it has read its messages.
pub record Fleet (W : Type 0) : Type 0 where
  pub cluster : Cluster W
  pub todo : ℕ → Option (List Message)
  pub history : History

-- A batch that cannot be read has no messages.
abbrev pub batch_of : Result (List Message) → List Message
batch_of (ok ms) = ms
batch_of (err _) = []

abbrev pub moved : {W : Type 0} → Cluster W → W → Cluster W
moved s w = record s { world = w }

module _ {W : Type 0} (c : RedisClient W) (s : Service W) (f : Fleet W) (i : ℕ) where
  -- `Acquire` of instance `i`, in front of its batch.
  abbrev pub taken : Fleet W
  taken =
      let a = acquire c (view f.cluster i) in
      record f { cluster = put f.cluster i a.1 (is_ok a.0); todo = update f.todo i none }

  -- `GetUnsentMessages`
  abbrev pub fetched : Fleet W
  fetched =
      let r = s.message_repo.get_unsent_messages batch_size f.cluster.world in
      record f { cluster = moved f.cluster r.1; todo = update f.todo i (some (batch_of r.0)) }

  -- A round of the loop over the batch, with what is left behind it.
  abbrev pub handled : Message → List Message → Fleet W
  handled m ms =
      let r = process_single_message s m f.cluster.world in
      record f {
        cluster = moved f.cluster r.1;
        todo = update f.todo i (some ms);
        history = (m, is_ok r.0) ∷ f.history;
      }

  -- `Release`, behind the batch.
  abbrev pub freed : Fleet W
  freed = record f {
    cluster = put f.cluster i (release c (view f.cluster i)).1 false;
    todo = update f.todo i none;
  }

  -- `Extend`, between two batches.
  abbrev pub renewed : Fleet W
  renewed = record f { cluster = put f.cluster i (extend c (view f.cluster i)).1 false }

module _ {W : Type 0} (s : Service W) (f : Fleet W) (i : ℕ) where
  -- The process of instance `i` dies, and leaves the world as `w`.
  abbrev stopped : W → Fleet W
  stopped w = record f { cluster = died (moved f.cluster w) i; todo = update f.todo i none }

  -- It dies between two calls.
  abbrev pub crashed : Fleet W
  crashed = stopped f.cluster.world

  -- It dies when the provider has been called for a message and the row has not been marked.
  abbrev pub cut_unmarked : Message → Fleet W
  cut_unmarked m = record (stopped (after_send s m f.cluster.world)) {
    history = (m, false) ∷ f.history;
  }

  -- It dies when the row has been marked, or has failed to be, and nothing has been cached.
  abbrev pub cut_uncached : Message → Fleet W
  cut_uncached m =
      let r = marking s m f.cluster.world in
      record (stopped r.1) { history = (m, is_ok r.0) ∷ f.history }

module _ {W : Type 0} (c : RedisClient W) (h : IsRedis c) (key : Text) (s : Service W)
    (l : IsLedger s) (Good : W → Type 0) where
  -- What the rest of the world may do: it hands nothing to the provider, which forgets no text, and
  -- unmarks no row.
  pub record Outer (w w' : W) : Type 0 where
    pub attempts : l.attempts w' ≡ l.attempts w
    pub accepted : (o : Outgoing) → Elem o (l.accepted w) → Elem o (l.accepted w')
    pub kept : (k : ℕ) → l.sent w k ≡ true → l.sent w' k ≡ true
    pub good : Good w → Good w'

  -- One call of one instance, the death of one, or a step of the rest of the world. As in `Lock.Cluster`, the key does
  -- not lapse while it holds the value of an instance that runs a batch.
  pub data Step (f : Fleet W) : Fleet W → Type 0 where
    takes : (i : ℕ) → f.cluster.busy i ≡ false → Step f (taken c s f i)
    reads : (i : ℕ) → f.cluster.busy i ≡ true → f.todo i ≡ none → Step f (fetched c s f i)
    sends :
        (i : ℕ) (m : Message) (ms : List Message)
        → f.cluster.busy i ≡ true
        → f.todo i ≡ some (m ∷ ms)
        → Step f (handled c s f i m ms)
    frees : (i : ℕ) → f.cluster.busy i ≡ true → f.todo i ≡ some [] → Step f (freed c s f i)
    renews : (i : ℕ) → f.cluster.busy i ≡ false → Step f (renewed c s f i)
    crashes : (i : ℕ) → Step f (crashed s f i)
    cuts_unmarked :
        (i : ℕ) (m : Message) (ms : List Message)
        → f.cluster.busy i ≡ true
        → f.todo i ≡ some (m ∷ ms)
        → Step f (cut_unmarked s f i m)
    cuts_uncached :
        (i : ℕ) (m : Message) (ms : List Message)
        → f.cluster.busy i ≡ true
        → f.todo i ≡ some (m ∷ ms)
        → is_ok (send s m f.cluster.world).0 ≡ true
        → Step f (cut_uncached s f i m)
    outside :
        (w : W)
        → h.value_at w key ≡ h.value_at f.cluster.world key
        → Outer f.cluster.world w
        → Step f (record f { cluster = moved f.cluster w })
    lapses :
        (w : W)
        → h.value_at w key ≡ none
        → ((i : ℕ)
            → f.cluster.busy i ≡ true
            → h.value_at f.cluster.world key ≢ some (f.cluster.locks i).value)
        → Outer f.cluster.world w
        → Step f (record f { cluster = moved f.cluster w })

  pub data Reach (f : Fleet W) : Fleet W → Type 0 where
    here : Reach f f
    next : {g k : Fleet W} → Reach f g → Step g k → Reach f k

  pub Reach-append : {f g k : Fleet W} → Reach f g → Reach g k → Reach f k
  Reach-append r here = r
  Reach-append r (next q st) = next (Reach-append r q) st
