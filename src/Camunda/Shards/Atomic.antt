-- ===== src/Camunda/Shards/Atomic.antt =====
-- lib/camunda/shards/shards.go: what the transactions leave in the tables.
use external_task_worker.Base.{
  ℕ, String, ◌≡◌, refl, sym, subst, ◌∙◌, ap, true, false, ◌≢◌, ◌⊎◌, inl, inr, Option, [], ◌∷◌,
  ◌++◌ as ◌++ᴸ◌, Bool-cases, Option-cases,
}
use external_task_worker.Result.{Err, failure, Result, ok, err, Exec, pure, ◌>>◌, continue}
use external_task_worker.Camunda.Shards.{select_shard, count_users}
use external_task_worker.Camunda.Shards.Tables.{
  Tables, sql_delete_user_shard, sql_create_user_shard, sql_shard_user_count, address_of,
  has_address, without_user, has_user,
}
use external_task_worker.Camunda.Shards.Database.{
  Sql, perform, remove_shard_for_user, add_shard_for_user, get_shard_user_count, select_shard_tx,
  commit, end_tx, set_tx, assign,
}

-- A call fails and leaves the tables, or its statement is carried out.
pub data Performed {A : Type 0} (statement : Tables → Result A × Tables) (t : Tables)
    (p : Result A × Sql) : Type 0 where
  broken : (e : Err) → p.0 ≡ err e → p.1.tables ≡ t → Performed statement t p
  done : p.0 ≡ (statement t).0 → p.1.tables ≡ (statement t).1 → Performed statement t p

pub err_not_ok : {A : Type 0} {a : A} (e : Err) → err e ≢ ok a
err_not_ok e h = cc

module _ (breaks : ℕ → Option Err) where
  pub perform_lem :
      {A : Type 0} (statement : Tables → Result A × Tables) (s : Sql)
      → Performed statement s.tables (perform breaks statement s)
  perform_lem statement s = elim (Option-cases (breaks s.calls)) [
    | inl e ↦ done (rw (perform, e) refl) (rw (perform, e) refl)
    | inr (x, e) ↦ broken x (rw (perform, e) refl) (rw (perform, e) refl)
  ]

  -- A transaction ends as its statements do and leaves their tables, or it fails and leaves the tables
  -- before it.
  pub end_tx_lem :
      {A : Type 0} (before : Tables) (p : Result A × Sql)
      → ((e : Err) × ((end_tx breaks before p).0 ≡ err e)
          × ((end_tx breaks before p).1.tables ≡ before))
        ⊎ ((a : A) × (p.0 ≡ ok a)
            × ((end_tx breaks before p).0 ≡ ok a)
            × ((end_tx breaks before p).1.tables ≡ p.1.tables))
  unfolding commit
  end_tx_lem before (err e, tx) = inl (e, refl, refl)
  end_tx_lem before (ok a, tx) = elim (Option-cases (breaks tx.calls)) [
    | inl e ↦ inr (a, refl, rw (end_tx, commit, e) refl, rw (end_tx, commit, e) refl)
    | inr (x, e) ↦ inl (x, rw (end_tx, commit, e) refl, rw (end_tx, commit, e) refl)
  ]

  create_ok :
      (user_id address : String) (t : Tables)
      → (sql_create_user_shard user_id address t).0 ≡ ok tt
      → (has_address address t.shard ≡ true)
        × (has_user (address_of user_id t.shards_mapping) ≡ false)
        × ((sql_create_user_shard user_id address t).1
            ≡ record t { shards_mapping = t.shards_mapping ++ᴸ (user_id, address) ∷ [] })
  unfolding address_of has_address
  create_ok user_id address t h =
      elim (Bool-cases (has_user (address_of user_id t.shards_mapping))) [
        | inl e ↦
            let h' : err (failure "duplicate key value violates unique constraint") ≡ ok tt =
              rw (sql_create_user_shard, e) at h in
            absurd (err_not_ok _ h')
        | inr e ↦ elim (Bool-cases (has_address address t.shard)) [
          | inl f ↦ (f, e, rw (e, f) refl)
          | inr f ↦
              let h' : err (failure "violates foreign key constraint") ≡ ok tt =
                rw (sql_create_user_shard, e, f) at h in
              absurd (err_not_ok _ h')
        ]
      ]

-- a chain that succeeds went on after its first part
pub continue-eq-ok :
    {S A B : Type 0} (f : A → Exec S B) (p : Result A × S) (b : B)
    → (continue f p).0 ≡ ok b
    → (a : A) × (p.0 ≡ ok a) × (continue f p ≡ f a p.1)
continue-eq-ok f (ok a, s) b h = (a, refl, refl)
continue-eq-ok f (err e, s) b h = absurd (err_not_ok e h)

pure_after :
    {A B : Type 0} (f : A → B) (p : Result A × Sql)
    → (continue (λ a. pure (f a)) p).1.tables ≡ p.1.tables
pure_after f (ok a, s) = refl
pure_after f (err e, s) = refl

pub ok-inj : {A : Type 0} (a b : A) → ok a ≡ ok b → a ≡ b
ok-inj a b h = cc

-- the tables after a user got a shard
abbrev pub added : String → String → Tables → Tables
added user_id address t = record t { shards_mapping = t.shards_mapping ++ᴸ (user_id, address) ∷ [] }

abbrev pub removed : String → Tables → Tables
removed user_id t = record t { shards_mapping = without_user user_id t.shards_mapping }

-- a row that can be added: the user has none, and the shard is one
abbrev pub CanAdd : String → String → Tables → Type 0
CanAdd user_id address t =
    (has_address address t.shard ≡ true) × (has_user (address_of user_id t.shards_mapping) ≡ false)

module _ (breaks : ℕ → Option Err) where
  pub add_lem :
      (user_id address : String) (s : Sql)
      → (add_shard_for_user breaks user_id address s).0 ≡ ok tt
      → CanAdd user_id address s.tables
        × ((add_shard_for_user breaks user_id address s).1.tables ≡ added user_id address s.tables)
  unfolding add_shard_for_user
  add_lem user_id address s h =
      of_performed (perform_lem breaks (sql_create_user_shard user_id address) s)
    where
      of_performed :
          Performed
            (sql_create_user_shard user_id address)
            s.tables
            (add_shard_for_user breaks user_id address s)
          → CanAdd user_id address s.tables
            × ((add_shard_for_user breaks user_id address s).1.tables
                ≡ added user_id address s.tables)
      of_performed (broken e failed same) = absurd (err_not_ok e (sym failed ∙ h))
      of_performed (done given made) =
          let (is_known, is_new, row) = create_ok breaks user_id address s.tables (sym given ∙ h) in
          ((is_known, is_new), made ∙ row)

  remove_lem :
      (user_id : String) (s : Sql)
      → (remove_shard_for_user breaks user_id s).0 ≡ ok tt
      → (remove_shard_for_user breaks user_id s).1.tables ≡ removed user_id s.tables
  unfolding remove_shard_for_user
  remove_lem user_id s h = of_performed (perform_lem breaks (sql_delete_user_shard user_id) s)
    where
      of_performed :
          Performed
            (sql_delete_user_shard user_id)
            s.tables
            (remove_shard_for_user breaks user_id s)
          → (remove_shard_for_user breaks user_id s).1.tables ≡ removed user_id s.tables
      of_performed (broken e failed same) = absurd (err_not_ok e (sym failed ∙ h))
      of_performed (done given made) = made

  pub set_tx_lem :
      (user_id address : String) (s : Sql)
      → ((e : Err) × ((set_tx breaks user_id address s).0 ≡ err e)
          × ((set_tx breaks user_id address s).1.tables ≡ s.tables))
        ⊎ (((set_tx breaks user_id address s).0 ≡ ok tt)
            × CanAdd user_id address (removed user_id s.tables)
            × ((set_tx breaks user_id address s).1.tables
                ≡ added user_id address (removed user_id s.tables)))
  unfolding set_tx
  set_tx_lem user_id address s =
      let remove = remove_shard_for_user breaks user_id s in
      let p = continue (λ _. add_shard_for_user breaks user_id address) remove in
      elim (end_tx_lem breaks s.tables p) [
        | inl failed ↦ inl failed
        | inr (_, good, given, made) ↦
            let (_, cleared, rest) =
              continue-eq-ok (λ _. add_shard_for_user breaks user_id address) remove tt good in
            let (can, row) = add_lem user_id address remove.1 (sym (ap (λ q. q.0) rest) ∙ good) in
            let before = remove_lem user_id s cleared in
            inr (
              given,
              subst (CanAdd user_id address) before can,
              made ∙ ap (λ q. q.1.tables) rest ∙ row ∙ ap (added user_id address) before,
            )
      ]

  -- counting changes nothing
  count-tables : (s : Sql) → (get_shard_user_count breaks s).1.tables ≡ s.tables
  unfolding get_shard_user_count
  count-tables s =
      pure_after (λ rows. count_users rows []) (perform breaks sql_shard_user_count s)
      ∙ of_performed (perform_lem breaks sql_shard_user_count s)
    where
      of_performed :
          Performed sql_shard_user_count s.tables (perform breaks sql_shard_user_count s)
          → (perform breaks sql_shard_user_count s).1.tables ≡ s.tables
      of_performed (broken e failed same) = same
      of_performed (done given made) = made

  -- the statements for a user without a shard
  pub assign_lem :
      (user_id url : String) (s : Sql)
      → (assign breaks user_id s).0 ≡ ok url
      → (select_shard (get_shard_user_count breaks s).0 ≡ ok url)
        × CanAdd user_id url s.tables
        × ((assign breaks user_id s).1.tables ≡ added user_id url s.tables)
  unfolding assign select_shard_tx
  assign_lem user_id url s h =
      let add : String → Exec Sql String = λ a. add_shard_for_user breaks user_id a >> pure a in
      let (a, selected, rest) = continue-eq-ok add (select_shard_tx breaks s) url h in
      let p = add_shard_for_user breaks user_id a (select_shard_tx breaks s).1 in
      let good : (continue (λ _. pure a) p).0 ≡ ok url = sym (ap (λ q. q.0) rest) ∙ h in
      let (_, row, end) = continue-eq-ok (λ _. pure a) p url good in
      let same : a ≡ url = ok-inj _ _ (sym (ap (λ q. q.0) end) ∙ good) in
      let (can, made) = add_lem user_id a (select_shard_tx breaks s).1 row in
      let before = count-tables s in
      (
        subst (λ b. select_shard (get_shard_user_count breaks s).0 ≡ ok b) same selected,
        subst (λ b. CanAdd user_id b s.tables) same (subst (CanAdd user_id a) before can),
        ap (λ q. q.1.tables) rest
            ∙ ap (λ q. q.1.tables) end
            ∙ made
            ∙ ap (added user_id a) before
            ∙ ap (λ b. added user_id b s.tables) same,
      )
