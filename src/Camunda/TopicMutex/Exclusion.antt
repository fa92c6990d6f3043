-- ===== src/Camunda/TopicMutex/Exclusion.antt =====
-- Mutual exclusion: no two goroutines hold one topic, and no entry outlives its users.
use external_task_worker.Base.{
  ℕ, zero, suc, ◌+◌, ◌-◌, ◌≤◌, ◌<◌, String, ◌≡◌, ◌≢◌, refl, sym, ap, Bool, true, false, none, some,
  List, [], ◌∷◌, ◌==◌, eqb, eq_iff, eq_refl, if◌then◌else◌, get_elem?, set, arith, inl, inr,
  Bool-cases, Option-cases, ◌⊎◌,
}
use external_task_worker.Camunda.TopicMutex.{
  Goroutine, outside, waiting, holding, lock, acquire, unlock, update, set_lock, System, Step,
  locks, acquires, unlocks, Reach, here, next, empty,
}

-- whether a goroutine waits for or holds the topic, and whether it holds it
abbrev pub uses : String → Goroutine → ℕ
uses k outside = 0
uses k (waiting t m) = if t == k then 1 else 0
uses k (holding t) = if t == k then 1 else 0

abbrev pub holds : String → Goroutine → ℕ
holds k outside = 0
holds k (waiting t m) = 0
holds k (holding t) = if t == k then 1 else 0

unfoldable pub sum : (Goroutine → ℕ) → List Goroutine → ℕ
sum f [] = 0
sum f (g ∷ gs) = f g + sum f gs

sum-set :
    (f : Goroutine → ℕ) (gs : List Goroutine) (i : ℕ) (g h : Goroutine)
    → get_elem? gs i ≡ some g
    → sum f (set gs i h) + f g ≡ sum f gs + f h
unfolding sum
sum-set f [] i g h e = cc
sum-set f (x ∷ gs) zero g h e = ground arith
sum-set f (x ∷ gs) (suc i) g h e = omega (arith, sum-set f gs i g h e)

sum-one :
    (f : Goroutine → ℕ) (gs : List Goroutine) (i : ℕ) (g : Goroutine)
    → get_elem? gs i ≡ some g
    → f g ≤ sum f gs
unfolding sum
sum-one f [] i g e = cc
sum-one f (x ∷ gs) zero g e = ground arith
sum-one f (x ∷ gs) (suc i) g e = omega (arith, sum-one f gs i g e)

sum-two :
    (f : Goroutine → ℕ) (gs : List Goroutine) (i j : ℕ) (g h : Goroutine)
    → get_elem? gs i ≡ some g
    → get_elem? gs j ≡ some h
    → i ≢ j
    → f g + f h ≤ sum f gs
unfolding sum
sum-two f [] i j g h e d n = cc
sum-two f (x ∷ gs) zero zero g h e d n = absurd (n refl)
sum-two f (x ∷ gs) zero (suc j) g h e d n = ground (arith, sum-one f gs j h d)
sum-two f (x ∷ gs) (suc i) zero g h e d n = ground (arith, sum-one f gs i g e)
sum-two f (x ∷ gs) (suc i) (suc j) g h e d n =
    omega (arith, sum-two f gs i j g h e d (λ q. n (ap suc q)))

holds-le-uses : (k : String) (gs : List Goroutine) → sum (holds k) gs ≤ sum (uses k) gs
unfolding sum
holds-le-uses k [] = omega arith
holds-le-uses k (outside ∷ gs) = omega (arith, holds-le-uses k gs)
holds-le-uses k (waiting t m ∷ gs) = ground (arith, holds-le-uses k gs)
holds-le-uses k (holding t ∷ gs) = ground (arith, holds-le-uses k gs)

get_elem?-set_cases :
    (gs : List Goroutine) (i j : ℕ) (h g : Goroutine)
    → get_elem? (set gs i h) j ≡ some g
    → (h ≡ g) ⊎ (get_elem? gs j ≡ some g)
get_elem?-set_cases [] i j h g e = inr e
get_elem?-set_cases (x ∷ gs) zero zero h g e = inl (ground arith)
get_elem?-set_cases (x ∷ gs) zero (suc j) h g e = inr e
get_elem?-set_cases (x ∷ gs) (suc i) zero h g e = inr e
get_elem?-set_cases (x ∷ gs) (suc i) (suc j) h g e = get_elem?-set_cases gs i j h g e

abbrev one_if : Bool → ℕ
one_if true = 1
one_if false = 0

pub record Inv (s : System) : Type 0 where
  pub counted : (k : String) → s.topics.count k ≡ sum (uses k) s.goroutines
  pub unowned : (k : String) → s.topics.mux k ≡ none → sum (uses k) s.goroutines ≡ 0
  pub owned :
      (k : String) (m : ℕ)
      → s.topics.mux k ≡ some m
      → (0 < sum (uses k) s.goroutines)
        × (m < s.topics.fresh)
        × (sum (holds k) s.goroutines ≡ one_if (s.topics.locked m))
  pub waits :
      (j : ℕ) (k : String) (m : ℕ)
      → get_elem? s.goroutines j ≡ some (waiting k m)
      → s.topics.mux k ≡ some m
  pub apart : (a b : String) (m : ℕ) → s.topics.mux a ≡ some m → s.topics.mux b ≡ some m → a ≡ b

lock_new :
    (s : System) (i : ℕ) (topic : String)
    → get_elem? s.goroutines i ≡ some outside
    → s.topics.mux topic ≡ none
    → Inv s
    → Inv (record {
      topics = record s.topics {
        count = update s.topics.count topic (s.topics.count topic + 1);
        mux = update s.topics.mux topic (some s.topics.fresh);
        locked = set_lock s.topics.locked s.topics.fresh true;
        fresh = s.topics.fresh + 1;
      };
      goroutines = set s.goroutines i (holding topic);
    })
lock_new s i topic e n v = record {
  counted = λ k.
      let c = sum-set (uses k) s.goroutines i outside (holding topic) e in
      ground (arith, c, v.counted k, v.counted topic, eq_iff topic k);
  unowned = λ k h.
      let c = sum-set (uses k) s.goroutines i outside (holding topic) e in
      ground (arith, c, v.unowned k, eq_iff topic k);
  owned = λ k m h.
      let c = sum-set (uses k) s.goroutines i outside (holding topic) e in
      let d = sum-set (holds k) s.goroutines i outside (holding topic) e in
      ground (
        arith,
        c,
        d,
        v.owned k m,
        v.unowned topic,
        holds-le-uses topic s.goroutines,
        eq_iff topic k,
      );
  waits = λ j k m h. ground (
    arith,
    get_elem?-set_cases s.goroutines i j (holding topic) (waiting k m) h,
    v.waits j k m,
    eq_iff topic k,
  );
  apart = λ a b m h g.
      ground (arith, v.apart a b m, v.owned a m, v.owned b m, eq_iff topic a, eq_iff topic b);
}

lock_old :
    (s : System) (i : ℕ) (topic : String) (p : ℕ)
    → get_elem? s.goroutines i ≡ some outside
    → s.topics.mux topic ≡ some p
    → Inv s
    → Inv (record {
      topics = record s.topics { count = update s.topics.count topic (s.topics.count topic + 1) };
      goroutines = set s.goroutines i (waiting topic p);
    })
lock_old s i topic p e n v = record {
  counted = λ k.
      let c = sum-set (uses k) s.goroutines i outside (waiting topic p) e in
      ground (arith, c, v.counted k, v.counted topic, eq_iff topic k);
  unowned = λ k h.
      let c = sum-set (uses k) s.goroutines i outside (waiting topic p) e in
      ground (arith, c, v.unowned k, eq_iff topic k);
  owned = λ k m h.
      let c = sum-set (uses k) s.goroutines i outside (waiting topic p) e in
      let d = sum-set (holds k) s.goroutines i outside (waiting topic p) e in
      ground (arith, c, d, v.owned k m, eq_iff topic k);
  waits = λ j k m h. ground (
    arith,
    get_elem?-set_cases s.goroutines i j (waiting topic p) (waiting k m) h,
    v.waits j k m,
  );
  apart = v.apart;
}

acquire_free :
    (s : System) (i : ℕ) (topic : String) (p : ℕ)
    → get_elem? s.goroutines i ≡ some (waiting topic p)
    → s.topics.locked p ≡ false
    → Inv s
    → Inv (record {
      topics = record s.topics { locked = set_lock s.topics.locked p true };
      goroutines = set s.goroutines i (holding topic);
    })
acquire_free s i topic p e n v = record {
  counted = λ k.
      let c = sum-set (uses k) s.goroutines i (waiting topic p) (holding topic) e in
      ground (arith, c, v.counted k);
  unowned = λ k h.
      let c = sum-set (uses k) s.goroutines i (waiting topic p) (holding topic) e in
      ground (arith, c, v.unowned k);
  owned = λ k m h.
      let c = sum-set (uses k) s.goroutines i (waiting topic p) (holding topic) e in
      let d = sum-set (holds k) s.goroutines i (waiting topic p) (holding topic) e in
      ground (arith, c, d, v.owned k m h, v.waits i topic p e, v.apart topic k m, eq_iff topic k);
  waits = λ j k m h.
      ground (
        arith,
        get_elem?-set_cases s.goroutines i j (holding topic) (waiting k m) h,
        v.waits j k m,
      );
  apart = v.apart;
}

-- the mutex of a topic that is held
held :
    (s : System) (i : ℕ) (topic : String)
    → get_elem? s.goroutines i ≡ some (holding topic)
    → Inv s
    → (m : ℕ) × (s.topics.mux topic ≡ some m) × (s.topics.locked m ≡ true)
held s i topic e v =
    let u = sum-one (uses topic) s.goroutines i (holding topic) e in
    let d = sum-one (holds topic) s.goroutines i (holding topic) e in
    elim (Option-cases (s.topics.mux topic)) [
      | inl n ↦ absurd (ground (arith, u, v.unowned topic n, eq_refl topic))
      | inr (m, n) ↦ (m, n, ground (arith, d, v.owned topic m n, eq_refl topic))
    ]

unlock_held :
    (s : System) (i : ℕ) (topic : String) (p : ℕ)
    → get_elem? s.goroutines i ≡ some (holding topic)
    → s.topics.mux topic ≡ some p
    → s.topics.locked p ≡ true
    → Inv s
    → Inv (record {
      topics = record s.topics {
        count = update s.topics.count topic (s.topics.count topic - 1);
        mux =
            if eqb (s.topics.count topic - 1) 0
            then update s.topics.mux topic none
            else s.topics.mux;
        locked = set_lock s.topics.locked p false;
      };
      goroutines = set s.goroutines i outside;
    })
unlock_held s i topic p e n l v = record {
  counted = λ k.
      let c = sum-set (uses k) s.goroutines i (holding topic) outside e in
      ground (arith, c, v.counted k, v.counted topic, eq_iff topic k);
  unowned = λ k h.
      let c = sum-set (uses k) s.goroutines i (holding topic) outside e in
      ground (arith, c, v.unowned k, v.counted topic, eq_iff topic k);
  owned = λ k m h.
      let c = sum-set (uses k) s.goroutines i (holding topic) outside e in
      let d = sum-set (holds k) s.goroutines i (holding topic) outside e in
      ground (arith, c, d, v.owned k m, v.counted topic, v.apart topic k m, eq_iff topic k);
  waits = λ j k m h.
      let c = sum-set (uses k) s.goroutines i (holding topic) outside e in
      let u = sum-one (uses k) (set s.goroutines i outside) j (waiting k m) h in
      ground (
        arith,
        c,
        u,
        get_elem?-set_cases s.goroutines i j outside (waiting k m) h,
        v.waits j k m,
        v.counted topic,
        eq_iff topic k,
        eq_refl k,
      );
  apart = λ a b m h g. ground (arith, v.apart a b m);
}

Step-Inv : {s t : System} → Step s t → Inv s → Inv t
unfolding lock acquire unlock
Step-Inv {s} (locks i topic e) v = elim (Option-cases (s.topics.mux topic)) [
  | inl n ↦ rw n (lock_new s i topic e n v)
  | inr (p, n) ↦ rw n (lock_old s i topic p e n v)
]
Step-Inv {s} (acquires i topic m e free) v = acquire_free s i topic m e free v
Step-Inv {s} (unlocks i topic e) v =
    let (p, n, l) = held s i topic e v in rw n (unlock_held s i topic p e n l v)

Reach-Inv : {s t : System} → Inv s → Reach s t → Inv t
Reach-Inv v here = v
Reach-Inv v (next r st) = Step-Inv st (Reach-Inv v r)

-- n goroutines before their first `Lock`
unfoldable pub idle : ℕ → List Goroutine
idle zero = []
idle (suc n) = outside ∷ idle n

abbrev pub start : ℕ → System
start n = record { topics = empty; goroutines = idle n }

sum-idle : (f : Goroutine → ℕ) → f outside ≡ 0 → (n : ℕ) → sum f (idle n) ≡ 0
unfolding sum idle
sum-idle f e zero = refl
sum-idle f e (suc n) = omega (arith, sum-idle f e n)

idle_outside : (n j : ℕ) (k : String) (m : ℕ) → get_elem? (idle n) j ≢ some (waiting k m)
unfolding idle
idle_outside zero j k m e = cc
idle_outside (suc n) zero k m e = cc
idle_outside (suc n) (suc j) k m e = idle_outside n j k m e

start-Inv : (n : ℕ) → Inv (start n)
start-Inv n = record {
  counted = λ k. sym (sum-idle (uses k) refl n);
  unowned = λ k h. sum-idle (uses k) refl n;
  owned = λ k m h. cc;
  waits = λ j k m h. absurd (idle_outside n j k m h);
  apart = λ a b m h g. cc;
}

-- In every state that n goroutines reach by locking, waiting and unlocking topics in any order, two
-- goroutines that hold the same topic are the same goroutine.
pub mutual_exclusion :
    (n : ℕ) (s : System)
    → Reach (start n) s
    → (i j : ℕ) (topic : String) → get_elem? s.goroutines i ≡ some (holding topic)
    → get_elem? s.goroutines j ≡ some (holding topic)
    → i ≡ j
mutual_exclusion n s r i j topic hi hj =
    let v = Reach-Inv (start-Inv n) r in
    let (m, e, l) = held s i topic hi v in
    elim (Bool-cases (eqb i j)) [
      | inl same ↦ ground arith
      | inr other ↦
          let two =
            sum-two (holds topic) s.goroutines i j (holding topic) (holding topic) hi hj
              (ground arith) in
          absurd (ground (arith, two, v.owned topic m e, eq_refl topic))
    ]

-- In every state that is reached, a goroutine that holds a topic finds its mutex in the map, and
-- locked, so that `Unlock` releases it and does not fail.
pub unlock_finds_mutex :
    (n : ℕ) (s : System)
    → Reach (start n) s
    → (i : ℕ) (topic : String) → get_elem? s.goroutines i ≡ some (holding topic)
    → (m : ℕ) × (s.topics.mux topic ≡ some m) × (s.topics.locked m ≡ true)
unlock_finds_mutex n s r i topic h = held s i topic h (Reach-Inv (start-Inv n) r)

-- A topic that some goroutine waits for and none holds can be entered: its mutex is free.
pub waiting_can_enter :
    (n : ℕ) (s : System)
    → Reach (start n) s
    → (i : ℕ) (topic : String) (m : ℕ) → get_elem? s.goroutines i ≡ some (waiting topic m)
    → sum (holds topic) s.goroutines ≡ 0
    → s.topics.locked m ≡ false
waiting_can_enter n s r i topic m h z =
    let v = Reach-Inv (start-Inv n) r in ground (arith, v.owned topic m (v.waits i topic m h))
