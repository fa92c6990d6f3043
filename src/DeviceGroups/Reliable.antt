-- ===== src/DeviceGroups/Reliable.antt =====
-- Typed access to a database that does not fail: one round of the retry loops is enough.
use external_task_worker.Base.{
  ℕ, suc, String, ◌≡◌, refl, ap, Bool, true, Option, none, some, arith, ◌∙◌,
}
use external_task_worker.Result.{Result, ok, err, and_then, Exec}
use external_task_worker.World.{World}
use external_task_worker.DeviceGroups.Db.{Item, value_of, found, IsReliable}
use external_task_worker.DeviceGroups.Storage.{
  DeviceGroups, Codec, IsCodec, is_settled, is_ok, call, attempts, no_round, db_get, db_set,
}

attempts_first :
    {S A : Type 0} (settled : Result A → Bool) (m : Exec (World S) A) (rounds : ℕ) (last : Result A)
    (w : World S)
    → settled (m w).0 ≡ true
    → attempts settled m (suc rounds) last w ≡ m w
unfolding attempts
attempts_first settled m rounds last w h = rw h

settled_of_found :
    {B : Type 0} (r : Result (Item B)) (o : Option B) → value_of r ≡ found o → is_settled r ≡ true
settled_of_found (ok i) o h = refl
settled_of_found (err e) none h = ground arith
settled_of_found (err e) (some b) h = ground arith

module _ {S B : Type 0} (this : DeviceGroups S B) (view : S → String → Option B)
    (reliable : IsReliable this.db view) where
  pub db_get_lem :
      {A : Type 0} (c : Codec B A) (key : String) (w : World S)
      → db_get this c key w ≡ (and_then c.unmarshal (found (view w.store key)), w)
  unfolding db_get
  db_get_lem c key w =
      let e = attempts_first is_settled (call (this.db.get key)) 9 no_round w (
        settled_of_found (this.db.get key w.store).0 (view w.store key)
          (reliable.get_answer key w.store)) in
      rw (e, reliable.get_answer key w.store) (rw (reliable.get_state key w.store))

  abbrev pub item : String → B → Item B
  item key b = record { key = key; value = b; expiration = this.expiration_in_seconds }

  -- the store after a successful `dbSet`
  abbrev pub stored : String → B → World S → World S
  stored key b w = record w { store = (this.db.set (item key b) w.store).1 }

  pub db_set_lem :
      {A : Type 0} (c : Codec B A) (code : IsCodec c) (key : String) (a : A) (w : World S)
      → db_set this c key a w ≡ (ok tt, stored key (code.encode a) w)
  unfolding db_set
  db_set_lem c code key a w = rw (code.marshal_encode a) (
      attempts_first is_ok (call (this.db.set (item key (code.encode a)))) 9 no_round w
        (rw (reliable.set_answer (item key (code.encode a)) w.store))
      ∙ ap (λ r. (r, stored key (code.encode a) w))
          (reliable.set_answer (item key (code.encode a)) w.store))
