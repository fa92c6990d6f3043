-- ===== src/Camunda/Shards/Ensured.antt =====
-- lib/camunda/shards/shards.go: the shard that a user has after EnsureShardForUser.
use Prim.Native.String.{◌++◌}
use external_task_worker.Base.{
  ℕ, String, ◌≡◌, refl, sym, subst, ◌∙◌, ap, false, ◌⊎◌, inl, inr, Option, none, some, Bool-cases,
  Option-cases,
}
use external_task_worker.Result.{
  Result-cases, Err, error_not_found, err_not_fount, failure, Result, ok, err, continue,
}
use external_task_worker.Camunda.Shards.{select_shard}
use external_task_worker.Camunda.Shards.Tables.{Tables, sql_select_shard_by_user, address_of}
use external_task_worker.Camunda.Shards.Database.{
  Sql, UserCache, IsUserCache, Shards, cache_prefix, is_shard, perform, get_shard,
  get_shard_user_count, begin_tx, commit, assign, ensured, scan, ensure_shard_for_user,
}
use external_task_worker.Camunda.Shards.Atomic.{
  Performed, broken, done, perform_lem, end_tx_lem, added, CanAdd, assign_lem, err_not_ok, ok-inj,
}
use external_task_worker.Camunda.Shards.Assigned.{begin-tables}

module _ (breaks : ℕ → Option Err) where
  -- how EnsureShardForUser ends, from the tables before it and what the cache or the query gave: it
  -- fails, it gives the shard that was found, or it adds one that was selected from the counts
  pub data Ensured (user_id : String) (before : Tables) (found given : Result String)
      (after : Tables) : Type 0 where
    fails : (e : Err) → given ≡ err e → after ≡ before → Ensured user_id before found given after
    had : given ≡ found → after ≡ before → Ensured user_id before found given after
    gets :
        (url : String) (s : Sql)
        → given ≡ ok url
        → s.tables ≡ before
        → select_shard (get_shard_user_count breaks s).0 ≡ ok url
        → CanAdd user_id url before
        → after ≡ added user_id url before
        → Ensured user_id before found given after

  commit-tables :
      (before : Tables) (tx : Sql)
      → tx.tables ≡ before
      → (commit breaks before tx).1.tables ≡ before
  unfolding commit
  commit-tables before tx h = elim (Option-cases (breaks tx.calls)) [
    | inl e ↦ rw (commit, e) h
    | inr (x, e) ↦ rw (commit, e) refl
  ]

  assigned :
      {C : Type 0} (user_id : String) (before : Tables) (c : C) (tx : Sql)
      → tx.tables ≡ before
      → Ensured user_id before
          (err error_not_found)
          (ensured breaks user_id before (err error_not_found, c, tx)).0
          (ensured breaks user_id before (err error_not_found, c, tx)).1.sql.tables
  unfolding commit assign
  assigned user_id before c tx h = elim (end_tx_lem breaks before (assign breaks user_id tx)) [
    | inl (e, failed, same) ↦ fails e failed same
    | inr (url, good, given, made) ↦
        let (selected, can, row) = assign_lem breaks user_id url tx good in
        gets url tx given h selected (subst (CanAdd user_id url) h can)
          (made ∙ row ∙ ap (added user_id url) h)
  ]

  ensured_lem :
      {C : Type 0} (user_id : String) (before : Tables) (found : Result String) (c : C) (tx : Sql)
      → tx.tables ≡ before
      → Ensured user_id before found
          (ensured breaks user_id before (found, c, tx)).0
          (ensured breaks user_id before (found, c, tx)).1.sql.tables
  unfolding commit assign
  ensured_lem user_id before (ok a) c tx h = had refl (commit-tables before tx h)
  ensured_lem user_id before (err err_not_fount) c tx h = had refl (commit-tables before tx h)
  ensured_lem user_id before (err (failure f)) c tx h = had refl (commit-tables before tx h)
  ensured_lem user_id before (err error_not_found) c tx h = assigned user_id before c tx h

  -- what the query gives, and that it changes nothing
  scan-tables :
      (p : Result (Option String) × Sql) → (continue (scan breaks) p).1.tables ≡ p.1.tables
  scan-tables (ok none, s) = refl
  scan-tables (ok (some a), s) = refl
  scan-tables (err e, s) = refl

  get_shard-tables : (user_id : String) (s : Sql) → (get_shard breaks user_id s).1.tables ≡ s.tables
  unfolding get_shard
  get_shard-tables user_id s =
      scan-tables (perform breaks (sql_select_shard_by_user user_id) s)
      ∙ of_performed (perform_lem breaks (sql_select_shard_by_user user_id) s)
    where
      of_performed :
          Performed
            (sql_select_shard_by_user user_id)
            s.tables
            (perform breaks (sql_select_shard_by_user user_id) s)
          → (perform breaks (sql_select_shard_by_user user_id) s).1.tables ≡ s.tables
      of_performed (broken e failed same) = same
      of_performed (done given made) = made

  scan-ok :
      (p : Result (Option String) × Sql) (url : String)
      → (continue (scan breaks) p).0 ≡ ok url
      → p.0 ≡ ok (some url)
  scan-ok (ok none, s) url h = absurd (err_not_ok error_not_found h)
  scan-ok (ok (some a), s) url h = ap (λ b. ok (some b)) (ok-inj a url h)
  scan-ok (err e, s) url h = absurd (err_not_ok e h)

  get_shard-address_of :
      (user_id url : String) (s : Sql)
      → (get_shard breaks user_id s).0 ≡ ok url
      → address_of user_id s.tables.shards_mapping ≡ some url
  unfolding get_shard
  get_shard-address_of user_id url s h =
      of_performed (perform_lem breaks (sql_select_shard_by_user user_id) s)
        (scan-ok (perform breaks (sql_select_shard_by_user user_id) s) url h)
    where
      of_performed :
          Performed
            (sql_select_shard_by_user user_id)
            s.tables
            (perform breaks (sql_select_shard_by_user user_id) s)
          → (perform breaks (sql_select_shard_by_user user_id) s).0 ≡ ok (some url)
          → address_of user_id s.tables.shards_mapping ≡ some url
      of_performed (broken e failed same) g = absurd (err_not_ok e (sym failed ∙ g))
      of_performed (done given made) g = ok-inj _ _ (sym given ∙ g)

  module _ {C : Type 0} (cache : UserCache C) where
    -- a use of the cache inside the transaction
    abbrev used : String → Shards C → Result String × C × Sql
    used user_id w =
        cache.use_or_get (cache_prefix ++ user_id) (get_shard breaks user_id) is_shard w.cache
          (begin_tx breaks w.sql).1

    used-tables :
        IsUserCache cache
        → (user_id : String) (w : Shards C)
        → (used user_id w).2.tables ≡ (begin_tx breaks w.sql).1.tables
    used-tables is_cache user_id w =
        let key = cache_prefix ++ user_id in
        let missed : ((cache.view w.cache key ≡ none)
              ⊎ ((a : String) × (cache.view w.cache key ≡ some a) × (is_shard a ≡ false)))
            → (used user_id w).2.tables ≡ (begin_tx breaks w.sql).1.tables =
          λ m.
            ap (λ (x : Sql). x.tables)
              (is_cache.use_miss key (get_shard breaks user_id) is_shard w.cache
                (begin_tx breaks w.sql).1 m).1
            ∙ get_shard-tables user_id (begin_tx breaks w.sql).1 in
        elim (Option-cases (cache.view w.cache key)) [
          | inl none_there ↦ missed (inl none_there)
          | inr (a, there) ↦ elim (Bool-cases (is_shard a)) [
            | inl good ↦
                ap (λ p. p.2.tables)
                  (is_cache.use_hit key (get_shard breaks user_id) is_shard w.cache
                    (begin_tx breaks w.sql).1 a there good)
            | inr bad ↦ missed (inr (a, there, bad))
          ]
        ]

    pub ensure_lem :
        IsUserCache cache
        → (user_id : String) (w : Shards C)
        → Ensured user_id w.sql.tables
            (used user_id w).0
            (ensure_shard_for_user breaks cache user_id w).0
            (ensure_shard_for_user breaks cache user_id w).1.sql.tables
    unfolding ensure_shard_for_user
    ensure_lem is_cache user_id w = elim (Result-cases (begin_tx breaks w.sql).0) [
      | inl (_, began) ↦
          let q = used user_id w in
          let end = ensured breaks user_id (begin_tx breaks w.sql).1.tables q in
          rw (ensure_shard_for_user, began)
            (subst (λ b. Ensured user_id b q.0 end.0 end.1.sql.tables) (begin-tables breaks w.sql)
              (ensured_lem user_id (begin_tx breaks w.sql).1.tables q.0 q.1 q.2
                (used-tables is_cache user_id w)))
      | inr (e, failed) ↦
          rw (ensure_shard_for_user, failed) (fails e refl (begin-tables breaks w.sql))
    ]

    -- An EnsureShardForUser that fails leaves the tables as they were, whatever has failed, where the cache
    -- uses an entry or the getter.
    pub ensure_shard_for_user-atomic :
        IsUserCache cache
        → (user_id : String) (w : Shards C) (e : Err)
        → (ensure_shard_for_user breaks cache user_id w).0 ≡ err e
        → (ensure_shard_for_user breaks cache user_id w).1.sql.tables ≡ w.sql.tables
    ensure_shard_for_user-atomic is_cache user_id w e h = of_ensured (ensure_lem is_cache user_id w)
      where
        of_ensured :
            Ensured user_id w.sql.tables
              (used user_id w).0
              (ensure_shard_for_user breaks cache user_id w).0
              (ensure_shard_for_user breaks cache user_id w).1.sql.tables
            → (ensure_shard_for_user breaks cache user_id w).1.sql.tables ≡ w.sql.tables
        of_ensured (fails x failed same) = same
        of_ensured (had found same) = same
        of_ensured (gets url s given same selected can row) = absurd (err_not_ok e (sym h ∙ given))

    -- a user that had a shard, or the way in which one was selected
    abbrev pub HadOrGets : String → Tables → String → Tables → Type 0
    HadOrGets user_id before url after =
        ((address_of user_id before.shards_mapping ≡ some url) × (after ≡ before))
        ⊎ ((s : Sql) × (s.tables ≡ before)
            × (select_shard (get_shard_user_count breaks s).0 ≡ ok url)
            × CanAdd user_id url before
            × (after ≡ added user_id url before))

    pub ensure_shard_for_user-HadOrGets :
        IsUserCache cache
        → (user_id url : String) (w : Shards C)
        → cache.view w.cache (cache_prefix ++ user_id) ≡ none
        → (ensure_shard_for_user breaks cache user_id w).0 ≡ ok url
        → HadOrGets user_id w.sql.tables url
            (ensure_shard_for_user breaks cache user_id w).1.sql.tables
    ensure_shard_for_user-HadOrGets is_cache user_id url w missing h =
        of_ensured (ensure_lem is_cache user_id w)
      where
        of_ensured :
            Ensured user_id w.sql.tables
              (used user_id w).0
              (ensure_shard_for_user breaks cache user_id w).0
              (ensure_shard_for_user breaks cache user_id w).1.sql.tables
            → HadOrGets user_id w.sql.tables url
                (ensure_shard_for_user breaks cache user_id w).1.sql.tables
        of_ensured (fails x failed same) = absurd (err_not_ok x (sym failed ∙ h))
        of_ensured (had found same) =
            let (gives, _) =
              is_cache.use_miss (cache_prefix ++ user_id) (get_shard breaks user_id) is_shard
                w.cache (begin_tx breaks w.sql).1 (inl missing) in
            inl (
              subst (λ t. address_of user_id t.shards_mapping ≡ some url)
                  (begin-tables breaks w.sql)
                  (get_shard-address_of user_id url (begin_tx breaks w.sql).1
                    (sym gives ∙ sym found ∙ h)),
              same,
            )
        of_ensured (gets u s given same selected can row) =
            let is_url : u ≡ url = ok-inj u url (sym given ∙ h) in
            inr (
              subst
                (λ v.
                  (s : Sql) × (s.tables ≡ w.sql.tables)
                  × (select_shard (get_shard_user_count breaks s).0 ≡ ok v)
                  × CanAdd user_id v w.sql.tables
                  × ((ensure_shard_for_user breaks cache user_id w).1.sql.tables
                      ≡ added user_id v w.sql.tables))
                is_url (s, same, selected, can, row))
