-- ===== src/Com/Reader.antt =====
-- lib/com/kafka/consumer.go (NewConsumer): the loop that reads a topic. Kafka's reader is a parameter: the
-- answers of FetchMessage, in order, and whether a commit fails. Committing an offset commits the ones
-- below it.
use external_task_worker.Base.{
  ℕ, ◌+◌, ◌≤◌, ◌<◌, String, ◌≡◌, refl, ap, ◌∙◌, Bool, true, false, Option, none, some, List, [],
  ◌∷◌, ◌++◌, ltb, leb, if◌then◌else◌, arith, ◌⊎◌, inl, inr, Bool-cases, All, map, keep,
}
use external_task_worker.Result.{Err, Result, ok, err, Exec}

-- a message of a partition, and its age when the loop reads it, in nanoseconds; 0 where its time is ahead
pub record Message : Type 0 where
  pub offset : ℕ
  pub value : String
  pub age : ℕ

pub data Fetched : Type 0 where
  message : Message → Fetched
  -- io.EOF or context.Canceled, another error
  reader_closed : Fetched
  fetch_fails : Err → Fetched

-- how the loop ended, or that it goes on
pub data End : Type 0 where
  goes_on closed : End
  error_handled : Err → End

abbrev pub one_hour : ℕ
one_hour = 3_600_000_000_000

pub record Reader (S : Type 0) : Type 0 where
  pub listener : String → Exec S (Unit {0})
  -- `r.CommitMessages`, by the offset
  pub commit : ℕ → Option Err

-- The loop keeps the offset at which a new reader of its group starts: what was committed.
module _ {S : Type 0} (reader : Reader S) where
  -- a message that was dealt with is committed; an error of that ends the loop
  abbrev pub commit_message : ℕ → S → ℕ → End × S × ℕ
  commit_message offset s committed = elim (reader.commit offset) [
    | some e ↦ (error_handled e, s, committed)
    | none ↦ (goes_on, s, offset + 1)
  ]

  -- by what the listener gives: its error is logged, and nothing is committed
  abbrev pub listened : ℕ → Result (Unit {0}) × S → ℕ → End × S × ℕ
  listened offset (err e, s) committed = (goes_on, s, committed)
  listened offset (ok _, s) committed = commit_message offset s committed

  -- one message; old ones are not given to the listener
  unfoldable pub read_message : Message → S → ℕ → End × S × ℕ
  read_message m s committed =
      if ltb one_hour m.age
      then commit_message m.offset s committed
      else listened m.offset (reader.listener m.value s) committed

  abbrev pub go_on : (S → ℕ → End × S × ℕ) → End × S × ℕ → End × S × ℕ
  go_on next (goes_on, s, committed) = next s committed
  go_on next (closed, s, committed) = (closed, s, committed)
  go_on next (error_handled e, s, committed) = (error_handled e, s, committed)

  -- the loop, over what FetchMessage answers; it goes on where the answers end
  unfoldable pub consume : List Fetched → S → ℕ → End × S × ℕ
  unfolding read_message
  consume [] s committed = (goes_on, s, committed)
  consume (reader_closed ∷ more) s committed = (closed, s, committed)
  consume (fetch_fails e ∷ more) s committed = (error_handled e, s, committed)
  consume (message m ∷ more) s committed =
      go_on (λ s' committed'. consume more s' committed') (read_message m s committed)

-- what FetchMessage answers where it only gives messages
abbrev pub fetched : List Message → List Fetched
fetched ms = map message ms

-- a message of at most an hour
abbrev pub is_young : Message → Bool
is_young m = leb m.age one_hour

module _ (answer : String → Result (Unit {0})) (commit : ℕ → Option Err) where
  -- A listener that answers by the value alone and notes what it was given, in order.
  abbrev pub recording : Reader (List String)
  recording = record {
    listener = λ value given. (answer value, given ++ value ∷ []);
    commit = commit;
  }

  -- the values of the messages that are young
  abbrev pub young_values : List Message → List String
  young_values ms = map (λ m. m.value) (keep is_young ms)

  -- the listener is given a message and refuses it, or it is old or accepted
  abbrev pub IsRefused : Message → Type 0
  IsRefused m = (m.age ≤ one_hour) × (e : Err) × (answer m.value ≡ err e)

  abbrev pub IsSettled : Message → Type 0
  IsSettled m = (one_hour < m.age) ⊎ (answer m.value ≡ ok tt)

  abbrev pub Commits : Type 0
  Commits = (offset : ℕ) → commit offset ≡ none

  ++-assoc : (xs ys zs : List String) → (xs ++ ys) ++ zs ≡ xs ++ (ys ++ zs)
  ++-assoc [] ys zs = refl
  ++-assoc (x ∷ xs) ys zs = ap (λ l. x ∷ l) (++-assoc xs ys zs)

  ++-nil : (xs : List String) → xs ++ [] ≡ xs
  ++-nil [] = refl
  ++-nil (x ∷ xs) = ap (λ l. x ∷ l) (++-nil xs)

  -- one message: what the listener was given, and that the loop goes on
  read_young :
      Commits
      → (m : Message) (given : List String) (committed : ℕ) → m.age ≤ one_hour
      → (c : ℕ) × (read_message recording m given committed ≡ (goes_on, given ++ m.value ∷ [], c))
  unfolding read_message
  read_young commits m given committed young =
      let test : ltb one_hour m.age ≡ false = ground arith in rw test (of_answer (answer m.value))
    where
      of_answer :
          (a : Result (Unit {0}))
          → (c : ℕ) × (listened recording m.offset (a, given ++ m.value ∷ []) committed
              ≡ (goes_on, given ++ m.value ∷ [], c))
      of_answer (err e) = (committed, refl)
      of_answer (ok _) = (m.offset + 1, rw (commits m.offset) refl)

  read_old :
      Commits
      → (m : Message) (given : List String) (committed : ℕ) → one_hour < m.age
      → read_message recording m given committed ≡ (goes_on, given, m.offset + 1)
  unfolding read_message
  read_old commits m given committed old =
      let test : ltb one_hour m.age ≡ true = ground arith in rw (test, commits m.offset) refl

  read_refused :
      (m : Message) (given : List String) (committed : ℕ)
      → IsRefused m
      → read_message recording m given committed ≡ (goes_on, given ++ m.value ∷ [], committed)
  unfolding read_message
  read_refused m given committed (young, e, refuses) =
      let test : ltb one_hour m.age ≡ false = ground arith in rw (test, refuses) refl

  read_settled :
      Commits
      → (m : Message) (given : List String) (committed : ℕ) → IsSettled m
      → (after : List String) × (read_message recording m given committed
          ≡ (goes_on, after, m.offset + 1))
  unfolding read_message
  read_settled commits m given committed (inl old) = (given, read_old commits m given committed old)
  read_settled commits m given committed (inr accepts) = elim (Bool-cases (ltb one_hour m.age)) [
    | inl e ↦ (given, rw (e, commits m.offset) refl)
    | inr e ↦ (given ++ m.value ∷ [], rw (e, accepts, commits m.offset) refl)
  ]

  consume-given :
      Commits
      → (ms : List Message) (given : List String) (committed : ℕ)
      → (c : ℕ) × (consume recording (fetched ms) given committed
          ≡ (goes_on, given ++ young_values ms, c))
  unfolding consume
  consume-given commits [] given committed = (committed, rw (++-nil given) refl)
  consume-given commits (m ∷ ms) given committed = elim (Bool-cases (is_young m)) [
    | inl e ↦
        let (c, read) = read_young commits m given committed (ground arith) in
        let (d, rest) = consume-given commits ms (given ++ m.value ∷ []) c in
        (d, rw (read, e) (rest ∙ rw (++-assoc given (m.value ∷ []) (young_values ms)) refl))
    | inr e ↦
        let read = read_old commits m given committed (ground arith) in
        let (d, rest) = consume-given commits ms given (m.offset + 1) in (d, rw (read, e) rest)
  ]

  consume_refused :
      (ms : List Message) (given : List String) (committed : ℕ)
      → All IsRefused ms
      → (consume recording (fetched ms) given committed).2 ≡ committed
  unfolding consume
  consume_refused [] given committed h = refl
  consume_refused (m ∷ ms) given committed h =
      rw (read_refused m given committed h.0)
        (consume_refused ms (given ++ m.value ∷ []) committed h.1)

  consume_settled :
      Commits
      → (before : List Message) (m : Message) (behind : List Message) (given : List String)
        (committed : ℕ)
      → IsSettled m
      → All IsRefused behind
      → (consume recording (fetched (before ++ m ∷ behind)) given committed).2 ≡ m.offset + 1
  unfolding consume
  consume_settled commits [] m behind given committed settled refused =
      let (after, read) = read_settled commits m given committed settled in
      rw read (consume_refused behind after (m.offset + 1) refused)
  consume_settled commits (x ∷ xs) m behind given committed settled refused =
      elim (Bool-cases (is_young x)) [
        | inl e ↦
            let (c, read) = read_young commits x given committed (ground arith) in
            rw read (consume_settled commits xs m behind (given ++ x.value ∷ []) c settled refused)
        | inr e ↦
            let read = read_old commits x given committed (ground arith) in
            rw read (consume_settled commits xs m behind given (x.offset + 1) settled refused)
      ]

  -- For a listener whose answers depend on the value alone, and where commits work: the loop goes on through
  -- all messages that it fetches; the listener is given those of at most an hour, each once and in
  -- order; the offset that is committed is the one after the last message that is older than an hour
  -- or that the listener accepts, whatever it refused before that one; and it stays as it was where
  -- there is no such message.
  pub consume_commits :
      Commits
      → (ms : List Message) (given : List String) (committed : ℕ)
      → ((consume recording (fetched ms) given committed).0 ≡ goes_on)
        × ((consume recording (fetched ms) given committed).1 ≡ given ++ young_values ms)
        × ((before : List Message) (m : Message) (behind : List Message)
            → ms ≡ before ++ m ∷ behind
            → IsSettled m
            → All IsRefused behind
            → (consume recording (fetched ms) given committed).2 ≡ m.offset + 1)
        × (All IsRefused ms → (consume recording (fetched ms) given committed).2 ≡ committed)
  consume_commits commits ms given committed =
      let (c, all) = consume-given commits ms given committed in
      (
        ap (λ (p : End × List String × ℕ). p.0) all,
        ap (λ (p : End × List String × ℕ). p.1) all,
        λ before m behind split settled refused.
            rw split (consume_settled commits before m behind given committed settled refused),
        consume_refused ms given committed,
      )
