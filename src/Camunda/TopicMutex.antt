-- ===== src/Camunda/TopicMutex.antt =====
-- lib/camunda/topicmutex.go: a mutex for each topic, made on demand and dropped when no one uses it.
-- The mutexes are objects: a goroutine that waits keeps its pointer after the map has dropped it.
-- Each part between `global.Lock()` and `global.Unlock()` is one step, and so is the end of a wait.
pub mod Exclusion
use external_task_worker.Base.{
  ℕ, zero, suc, ◌+◌, ◌-◌, String, ◌≡◌, Bool, true, false, Option, none, some, List, [], ◌∷◌, ◌==◌,
  eqb, if◌then◌else◌, get_elem?, set,
}

-- `count`, `mux` (pointers to mutexes), and which mutexes are locked; `fresh` is the next new object.
-- A count is never below zero here: `Unlock` follows a `Lock` (see `Step`).
-- A topic without an entry in the map of counts has the count 0, as a lookup in Go gives.
pub record TopicMutex : Type 0 where
  pub count : String → ℕ
  pub mux : String → Option ℕ
  pub locked : ℕ → Bool
  pub fresh : ℕ

abbrev pub update {ℓ} : {A : Type ℓ} → (String → A) → String → A → String → A
update f k a j = if k == j then a else f j

abbrev pub set_lock : (ℕ → Bool) → ℕ → Bool → ℕ → Bool
set_lock f m b n = if eqb m n then b else f n

-- What a goroutine does: nothing with a mutex, waiting for a mutex, or holding the topic.
pub data Goroutine : Type 0 where
  outside : Goroutine
  waiting : String → ℕ → Goroutine
  holding : String → Goroutine

-- `Lock` up to `global.Unlock()`: a new mutex is locked at once, an old one is waited for
abbrev lock_with : String → TopicMutex → Option ℕ → TopicMutex × Goroutine
lock_with topic t (some m) =
    (record t { count = update t.count topic (t.count topic + 1) }, waiting topic m)
lock_with topic t none = (
  record {
    count = update t.count topic (t.count topic + 1);
    mux = update t.mux topic (some t.fresh);
    locked = set_lock t.locked t.fresh true;
    fresh = t.fresh + 1;
  },
  holding topic,
)

unfoldable pub lock : String → TopicMutex → TopicMutex × Goroutine
lock topic t = lock_with topic t (t.mux topic)

-- `mux.Lock()` returns: the mutex was free
unfoldable pub acquire : String → ℕ → TopicMutex → TopicMutex × Goroutine
acquire topic m t = (record t { locked = set_lock t.locked m true }, holding topic)

-- the mutex of the topic is unlocked, if there is one
abbrev release : TopicMutex → Option ℕ → ℕ → Bool
release t none = t.locked
release t (some m) = set_lock t.locked m false

-- `Unlock`: the entries go when the count falls below 1
unfoldable pub unlock : String → TopicMutex → TopicMutex
unlock topic t =
    let left = t.count topic - 1 in
    record t {
      count = update t.count topic left;
      mux = if eqb left 0 then update t.mux topic none else t.mux;
      locked = release t (t.mux topic);
    }

pub record System : Type 0 where
  pub topics : TopicMutex
  pub goroutines : List Goroutine

-- One step of goroutine i.
pub data Step (s : System) : System → Type 0 where
  locks :
      (i : ℕ) (topic : String)
      → get_elem? s.goroutines i ≡ some outside
      → Step s (record {
        topics = (lock topic s.topics).0;
        goroutines = set s.goroutines i (lock topic s.topics).1;
      })
  acquires :
      (i : ℕ) (topic : String) (m : ℕ)
      → get_elem? s.goroutines i ≡ some (waiting topic m)
      → s.topics.locked m ≡ false
      → Step s (record {
        topics = (acquire topic m s.topics).0;
        goroutines = set s.goroutines i (acquire topic m s.topics).1;
      })
  unlocks :
      (i : ℕ) (topic : String)
      → get_elem? s.goroutines i ≡ some (holding topic)
      → Step s (record { topics = unlock topic s.topics; goroutines = set s.goroutines i outside })

pub data Reach (s : System) : System → Type 0 where
  here : Reach s s
  next : {t u : System} → Reach s t → Step t u → Reach s u

-- before the first `Lock`
abbrev pub empty : TopicMutex
empty = record { count = λ k. 0; mux = λ k. none; locked = λ m. false; fresh = 0 }
