-- ===== src/Camunda/Shards/Assigned.antt =====
-- lib/camunda/shards/shards.go: the shard that a user has after SetShardForUser and EnsureShardForUser.
use Prim.Native.String.{◌++◌}
use external_task_worker.Base.{
  ℕ, String, ◌≡◌, refl, sym, subst, ◌∙◌, ap, false, false≢true, ◌⊎◌, inl, inr, Option, none, some,
  List, [], ◌∷◌, ◌++◌ as ◌++ᴸ◌, ◌==◌, Bool-cases, eq_refl,
}
use external_task_worker.Result.{Err, Result, ok, err, continue}
use external_task_worker.Camunda.Shards.Tables.{Tables, address_of, without_user, has_user}
use external_task_worker.Camunda.Shards.Database.{
  Sql, UserCache, IsUserCache, Shards, cache_prefix, is_shard, perform, get_shard, begin_tx,
  get_shard_for_user, set_tx, set_shard_for_user, forget,
}
use external_task_worker.Camunda.Shards.Atomic.{
  Performed, broken, done, perform_lem, added, removed, CanAdd, set_tx_lem, err_not_ok,
}

address_of-append :
    (user_id address : String) (rows : List (String × String))
    → has_user (address_of user_id rows) ≡ false
    → address_of user_id (rows ++ᴸ (user_id, address) ∷ []) ≡ some address
unfolding address_of
address_of-append user_id address [] h = rw (eq_refl user_id) refl
address_of-append user_id address ((u, a) ∷ rows) h = elim (Bool-cases (u == user_id)) [
  | inl e ↦ absurd (false≢true (sym (rw (address_of, e) at h)))
  | inr e ↦ rw e (address_of-append user_id address rows (rw (address_of, e) at h))
]

-- how a call that begins a transaction leaves the tables
pub begin-tables : (breaks : ℕ → Option Err) (s : Sql) → (begin_tx breaks s).1.tables ≡ s.tables
unfolding begin_tx
begin-tables breaks s = of_performed (perform_lem breaks (λ t. (ok tt, t)) s)
  where
    of_performed :
        Performed (λ t. (ok tt, t)) s.tables (begin_tx breaks s)
        → (begin_tx breaks s).1.tables ≡ s.tables
    of_performed (broken e failed same) = same
    of_performed (done given made) = made

-- a transaction that failed and left the tables, or that gave a user a shard
abbrev SetTx : String → String → Tables → Result (Unit {0}) × Sql → Type 0
SetTx user_id address before p =
    ((e : Err) × (p.0 ≡ err e) × (p.1.tables ≡ before))
    ⊎ ((p.0 ≡ ok tt)
        × CanAdd user_id address (removed user_id before)
        × (p.1.tables ≡ added user_id address (removed user_id before)))

begin_set_tx :
    (breaks : ℕ → Option Err) (user_id address : String) (before : Tables)
    (p : Result (Unit {0}) × Sql)
    → p.1.tables ≡ before
    → SetTx user_id address before (continue (λ _. set_tx breaks user_id address) p)
begin_set_tx breaks user_id address before (err e, s) h = inl (e, refl, h)
begin_set_tx breaks user_id address before (ok _, s) h =
    subst (λ t. SetTx user_id address t (set_tx breaks user_id address s)) h
      (set_tx_lem breaks user_id address s)

module _ {C : Type 0} (breaks : ℕ → Option Err) (cache : UserCache C) where
  pub forget-tables :
      (user_id : String) (w : Shards C) → (forget breaks cache user_id w).1.sql ≡ w.sql
  forget-tables user_id w = elim (Bool-cases cache.is_nil) [ inl e ↦ rw e refl | inr e ↦ rw e refl ]

  forget-err :
      (user_id : String) (w : Shards C) (e : Err)
      → (forget breaks cache user_id w).0 ≡ err e
      → (cache.remove (cache_prefix ++ user_id) w.cache).0 ≡ err e
  forget-err user_id w e h = elim (Bool-cases cache.is_nil) [
    | inl n ↦ absurd (err_not_ok e (sym (rw (forget, n) at h)))
    | inr n ↦ rw (forget, n) at h
  ]

  forget-view :
      (user_id : String) (w : Shards C)
      → IsUserCache cache
      → (forget breaks cache user_id w).0 ≡ ok tt
      → cache.view (forget breaks cache user_id w).1.cache (cache_prefix ++ user_id) ≡ none
  forget-view user_id w is_cache h = elim (Bool-cases cache.is_nil) [
    | inl e ↦ rw (forget, e) (is_cache.nil_view e w.cache (cache_prefix ++ user_id))
    | inr e ↦
        rw (forget, e)
          (is_cache.remove_view (cache_prefix ++ user_id) w.cache (rw (forget, e) at h))
  ]

  -- a user without an entry in the cache is looked up in the tables
  get_shard_miss :
      (user_id address : String) (w : Shards C)
      → IsUserCache cache
      → cache.view w.cache (cache_prefix ++ user_id) ≡ none
      → breaks w.sql.calls ≡ none
      → address_of user_id w.sql.tables.shards_mapping ≡ some address
      → (get_shard_for_user breaks cache user_id w).0 ≡ ok address
  unfolding get_shard_for_user get_shard
  get_shard_miss user_id address w is_cache missing works found =
      let (gives, _) =
        is_cache.use_miss (cache_prefix ++ user_id) (get_shard breaks user_id) is_shard w.cache
          w.sql (inl missing) in
      gives ∙ rw (get_shard, perform, works, found) refl

  -- what SetShardForUser did
  pub set_lem :
      (user_id address : String) (w : Shards C)
      → (((set_shard_for_user breaks cache user_id address w).1.sql.tables ≡ w.sql.tables)
          × ((e : Err) × ((set_shard_for_user breaks cache user_id address w).0 ≡ err e)))
        ⊎ ((s : Sql) × (set_shard_for_user breaks cache user_id address w
              ≡ forget breaks cache user_id (record w { sql = s }))
            × CanAdd user_id address (removed user_id w.sql.tables)
            × (s.tables ≡ added user_id address (removed user_id w.sql.tables)))
  unfolding set_shard_for_user
  set_lem user_id address w =
      let p = continue (λ _. set_tx breaks user_id address) (begin_tx breaks w.sql) in
      elim (begin_set_tx breaks user_id address w.sql.tables (begin_tx breaks w.sql)
        (begin-tables breaks w.sql)) [
          | inl (e, failed, same) ↦
              inl (rw (set_shard_for_user, failed) same, (e, rw (set_shard_for_user, failed) refl))
          | inr (good, can, made) ↦ inr (p.1, rw (set_shard_for_user, good) refl, can, made)
        ]

  -- After a SetShardForUser that succeeds GetShardForUser gives the shard that was set, whatever the cache
  -- held, where the cache drops what is removed and calls the getter for what it has not, and the database
  -- answers the lookup.
  pub set_shard_for_user-get_shard_for_user :
      (user_id address : String) (w : Shards C)
      → IsUserCache cache
      → (set_shard_for_user breaks cache user_id address w).0 ≡ ok tt
      → breaks (set_shard_for_user breaks cache user_id address w).1.sql.calls ≡ none
      → (get_shard_for_user breaks cache user_id
          (set_shard_for_user breaks cache user_id address w).1).0
        ≡ ok address
  set_shard_for_user-get_shard_for_user user_id address w is_cache good works =
      elim (set_lem user_id address w) [
        | inl (_, (e, failed)) ↦ absurd (err_not_ok e (sym failed ∙ good))
        | inr (s, set, (_, is_new), made) ↦
            let w' : Shards C = record w { sql = s } in
            let forgot = forget-view user_id w' is_cache (sym (ap (λ q. q.0) set) ∙ good) in
            let sql = forget-tables user_id w' in
            get_shard_miss user_id address (set_shard_for_user breaks cache user_id address w).1
              is_cache
              (subst (λ q. cache.view q.1.cache (cache_prefix ++ user_id) ≡ none) (sym set) forgot)
              works
              (ap (λ q. address_of user_id q.1.sql.tables.shards_mapping) set
                ∙ ap (λ x. address_of user_id x.tables.shards_mapping) sql
                ∙ ap (λ t. address_of user_id t.shards_mapping) made
                ∙ address_of-append user_id address
                    (without_user user_id w.sql.tables.shards_mapping) is_new)
      ]

  -- A SetShardForUser that fails has left the tables as they were, or it has set the shard and could only
  -- not remove the entry of the cache.
  pub set_shard_for_user-atomic :
      (user_id address : String) (w : Shards C) (e : Err)
      → (set_shard_for_user breaks cache user_id address w).0 ≡ err e
      → ((set_shard_for_user breaks cache user_id address w).1.sql.tables ≡ w.sql.tables)
        ⊎ (((set_shard_for_user breaks cache user_id address w).1.sql.tables
              ≡ added user_id address (removed user_id w.sql.tables))
            × ((cache.remove (cache_prefix ++ user_id) w.cache).0 ≡ err e))
  set_shard_for_user-atomic user_id address w e h = elim (set_lem user_id address w) [
    | inl (same, _) ↦ inl same
    | inr (s, set, _, made) ↦
        let w' : Shards C = record w { sql = s } in
        inr (
          ap (λ q. q.1.sql.tables) set ∙ ap (λ x. x.tables) (forget-tables user_id w') ∙ made,
          forget-err user_id w' e (sym (ap (λ q. q.0) set) ∙ h),
        )
  ]
