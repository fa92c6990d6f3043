-- ===== src/DeviceGroups/Attempts.antt =====
-- How often a read or a write of the database is tried.
use external_task_worker.Base.{
  ℕ, zero, suc, ◌<◌, ◌*◌, String, ◌≡◌, ap, ◌∙◌, Bool, true, false, arith,
}
use external_task_worker.Result.{Result, ok, and_then, Exec}
use external_task_worker.World.{World, sleep, millisecond}
use external_task_worker.DeviceGroups.Db.{Item, value_of}
use external_task_worker.DeviceGroups.Storage.{
  DeviceGroups, Codec, is_settled, is_ok, call, attempts, max_retries, no_round, db_get,
  store_value,
}

module _ {S A : Type 0} (settled : Result A → Bool) (m : Exec (World S) A) where
  -- the world in which the round of a number starts, if all before it failed
  unfoldable pub before_round : ℕ → World S → World S
  before_round zero w = w
  before_round (suc k) w = before_round k (sleep (200 * millisecond) (m w).1)

  -- the rounds before a number all give an answer that does not settle the call
  abbrev pub IsUnsettled : ℕ → World S → Type 0
  IsUnsettled k w = (j : ℕ) → j < k → settled (m (before_round j w)).0 ≡ false

  attempts_find :
      (rounds k : ℕ) (last : Result A) (w : World S)
      → k < rounds
      → IsUnsettled k w
      → settled (m (before_round k w)).0 ≡ true
      → attempts settled m rounds last w ≡ m (before_round k w)
  unfolding attempts before_round
  attempts_find zero k last w l u e = absurd (omega (arith, l))
  attempts_find (suc rounds) zero last w l u e = rw e
  attempts_find (suc rounds) (suc k) last w l u e = rw (u 0 (omega arith)) (
      attempts_find rounds k (m w).0 (sleep (200 * millisecond) (m w).1) (omega (arith, l))
        (λ j h. u (suc j) (omega (arith, h))) e)

  attempts_give_up :
      (k : ℕ) (last : Result A) (w : World S)
      → IsUnsettled (suc k) w
      → attempts settled m (suc k) last w ≡ ((m (before_round k w)).0, before_round (suc k) w)
  unfolding attempts before_round
  attempts_give_up zero last w u = rw (u 0 (omega arith))
  attempts_give_up (suc k) last w u = rw (u 0 (omega arith)) (
      attempts_give_up k (m w).0 (sleep (200 * millisecond) (m w).1)
        (λ j h. u (suc j) (omega (arith, h))))

module _ {S B : Type 0} (this : DeviceGroups S B) where
  -- the calls that dbGet and dbSet repeat
  abbrev pub read : String → Exec (World S) (Item B)
  read key = call (this.db.get key)

  abbrev pub write : String → B → Exec (World S) (Unit {0})
  write key b =
      call (this.db.set (record { key = key; value = b; expiration = this.expiration_in_seconds }))

  module _ {A : Type 0} (c : Codec B A) (key : String) (w : World S) where
    -- the world before a round of this read
    abbrev pub before_read : ℕ → World S
    before_read k = before_round is_settled (read key) k w

    -- Where the first of the ten rounds to give a value or ErrNotFount has number k, dbGet reads
    -- k + 1 times, with a pause of 200 ms after each failure, and its answer is that round's, decoded.
    pub db_get_finds :
        (k : ℕ)
        → k < max_retries
        → IsUnsettled is_settled (read key) k w
        → is_settled (read key (before_read k)).0 ≡ true
        → db_get this c key w ≡ (
          and_then c.unmarshal (value_of (read key (before_read k)).0),
          (read key (before_read k)).1,
        )
    unfolding db_get
    db_get_finds k l u e = rw (attempts_find is_settled (read key) max_retries k no_round w l u e)

    -- Where all ten rounds fail with an error other than ErrNotFount, dbGet returns the tenth's
    -- answer, after ten pauses of 200 ms.
    pub db_get_gives_up :
        IsUnsettled is_settled (read key) max_retries w
        → db_get this c key w
          ≡ (and_then c.unmarshal (value_of (read key (before_read 9)).0), before_read max_retries)
    unfolding db_get
    db_get_gives_up u = rw (attempts_give_up is_settled (read key) 9 no_round w u)

  module _ (key : String) (b : B) (w : World S) where
    abbrev pub before_write : ℕ → World S
    before_write k = before_round is_ok (write key b) k w

    -- Where the first of the ten rounds to succeed has number k, writing an encoded value succeeds, and the
    -- world is as that round left it.
    pub store_value_succeeds :
        (k : ℕ)
        → k < max_retries
        → IsUnsettled is_ok (write key b) k w
        → (write key b (before_write k)).0 ≡ ok tt
        → store_value this key (ok b) w ≡ (ok tt, (write key b (before_write k)).1)
    unfolding store_value
    store_value_succeeds k l u e =
        attempts_find is_ok (write key b) max_retries k no_round w l u (rw e)
        ∙ ap (λ r. (r, (write key b (before_write k)).1)) e

    -- Where all ten rounds fail, writing an encoded value returns the error of the tenth, after ten
    -- pauses of 200 ms.
    pub store_value_gives_up :
        IsUnsettled is_ok (write key b) max_retries w
        → store_value this key (ok b) w
          ≡ ((write key b (before_write 9)).0, before_write max_retries)
    unfolding store_value
    store_value_gives_up u = attempts_give_up is_ok (write key b) 9 no_round w u
