-- ===== src/Camunda/Shards/Fewest.antt =====
-- lib/camunda/shards/shards.go: a user without a shard gets one with the fewest users.
use Prim.Native.String.{◌++◌}
use external_task_worker.Base.{
  ℕ, ◌≤◌, zero, suc, String, ◌≡◌, ◌≢◌, refl, sym, subst, ◌∙◌, ap, true, false, inl, inr, Option,
  none, some, List, [], ◌∷◌, ◌==◌, if◌then◌else◌, Bool-cases, eq_refl, eq_iff, map, All, length,
  get_elem?, arith,
}
use external_task_worker.Result.{Err, failure, Result, ok, err, pure, continue}
use external_task_worker.Camunda.Shards.{select_shard, put_count, count_users, max_int}
use external_task_worker.Camunda.Shards.Least.{select_shard-IsLeast}
use external_task_worker.Camunda.Shards.Tables.{
  Tables, sql_shard_user_count, address_of, has_address, users_of,
}
use external_task_worker.Camunda.Shards.Database.{
  Sql, UserCache, IsUserCache, Shards, cache_prefix, perform, get_shard_user_count,
  ensure_shard_for_user,
}
use external_task_worker.Camunda.Shards.Atomic.{
  Performed, broken, done, perform_lem, added, err_not_ok, ok-inj,
}
use external_task_worker.Camunda.Shards.Ensured.{ensure_shard_for_user-HadOrGets}

module _ (mapping : List (String × String)) where
  abbrev row : String → ℕ × String
  row a = (users_of a mapping, a)

  put_count-All :
      (P : String × ℕ → Type 0) (s : String) (n : ℕ) (counts : List (String × ℕ))
      → P (s, n)
      → All P counts
      → All P (put_count s n counts)
  put_count-All P s n [] p h = (p, tt)
  put_count-All P s n ((t, m) ∷ rest) p h = elim (Bool-cases (t == s)) [
    | inl e ↦ rw (put_count, e) (p, h.1)
    | inr e ↦ rw (put_count, e) (h.0, put_count-All P s n rest p h.1)
  ]

  count_users-All :
      (P : String × ℕ → Type 0) (shards : List String) (counts : List (String × ℕ))
      → All (λ a. P (a, users_of a mapping)) shards
      → All P counts
      → All P (count_users (map row shards) counts)
  unfolding count_users
  count_users-All P [] counts ps h = h
  count_users-All P (a ∷ shards) counts ps h =
      count_users-All P shards (put_count a (users_of a mapping) counts) ps.1
        (put_count-All P a (users_of a mapping) counts ps.0 h)

  abbrev count_of : String → List (String × ℕ) → Option ℕ
  count_of s [] = none
  count_of s ((t, n) ∷ rest) = if t == s then some n else count_of s rest

  count_of-put_count :
      (s : String) (n : ℕ) (counts : List (String × ℕ)) → count_of s (put_count s n counts) ≡ some n
  count_of-put_count s n [] = rw (eq_refl s) refl
  count_of-put_count s n ((t, m) ∷ rest) = elim (Bool-cases (t == s)) [
    | inl e ↦ rw (put_count, e, count_of, eq_refl s) refl
    | inr e ↦ rw (put_count, e, count_of, e) (count_of-put_count s n rest)
  ]

  count_of-put_other :
      (s t : String) (n : ℕ) (counts : List (String × ℕ))
      → (t == s) ≡ false
      → count_of s (put_count t n counts) ≡ count_of s counts
  count_of-put_other s t n [] h = rw h refl
  count_of-put_other s t n ((u, m) ∷ rest) h = elim (Bool-cases (u == t)) [
    | inl e ↦ rw (put_count, e, count_of, (eq_iff u t).0 e, h) refl
    | inr e ↦ rw (put_count, e, count_of, count_of-put_other s t n rest h) refl
  ]

  count_of-count_users :
      (s : String) (shards : List String) (counts : List (String × ℕ))
      → count_of s counts ≡ some (users_of s mapping)
      → count_of s (count_users (map row shards) counts) ≡ some (users_of s mapping)
  unfolding count_users
  count_of-count_users s [] counts h = h
  count_of-count_users s (a ∷ shards) counts h =
      count_of-count_users s shards (put_count a (users_of a mapping) counts)
        (elim (Bool-cases (a == s)) [
          | inl e ↦
              subst
                (λ b.
                  count_of s (put_count b (users_of b mapping) counts) ≡ some (users_of s mapping))
                (sym ((eq_iff a s).0 e)) (count_of-put_count s (users_of s mapping) counts)
          | inr e ↦ count_of-put_other s a (users_of a mapping) counts e ∙ h
        ])

  All-count_of :
      (n k : ℕ) (s : String) (counts : List (String × ℕ))
      → All (λ c. n ≤ c.1) counts
      → count_of s counts ≡ some k
      → n ≤ k
  All-count_of n k s [] h e = cc
  All-count_of n k s ((t, m) ∷ rest) h e = ground (arith, All-count_of n k s rest h.1)

  -- what bounds the counts bounds the users of every shard
  All-users_of :
      (n : ℕ) (shards : List String) (counts : List (String × ℕ))
      → All (λ c. n ≤ c.1) (count_users (map row shards) counts)
      → All (λ a. n ≤ users_of a mapping) shards
  unfolding count_users
  All-users_of n [] counts h = tt
  All-users_of n (a ∷ shards) counts h = (
    All-count_of n (users_of a mapping) a (count_users (map row (a ∷ shards)) counts) h (
        count_of-count_users a shards (put_count a (users_of a mapping) counts)
          (count_of-put_count a (users_of a mapping) counts)),
    All-users_of n shards (put_count a (users_of a mapping) counts) h,
  )

  users_of-le : (a : String) (rows : List (String × String)) → users_of a rows ≤ length rows
  unfolding users_of
  users_of-le a [] = omega arith
  users_of-le a ((u, b) ∷ rows) = ground (arith, users_of-le a rows)

get_elem?-All :
    {A : Type 0} (P : A → Type 0) (xs : List A) (i : ℕ) (x : A)
    → All P xs
    → get_elem? xs i ≡ some x
    → P x
get_elem?-All P [] i x h e = cc
get_elem?-All P (y ∷ ys) zero x h e = let same : y ≡ x = cc in subst P same h.0
get_elem?-All P (y ∷ ys) (suc i) x h e = get_elem?-All P ys i x h.1 e

All-any : {A : Type 0} (P : A → Type 0) (xs : List A) → ((x : A) → P x) → All P xs
All-any P [] f = tt
All-any P (x ∷ xs) f = (f x, All-any P xs f)

-- what selectShard makes of the counts of the tables
select_fewest :
    (t : Tables) (url : String)
    → All (λ a. a ≢ "") t.shard
    → length t.shards_mapping ≤ max_int
    → select_shard (ok (count_users (map (row t.shards_mapping) t.shard) [])) ≡ ok url
    → All (λ a. users_of url t.shards_mapping ≤ users_of a t.shards_mapping) t.shard
unfolding select_shard
select_fewest t url names small h =
    let m = t.shards_mapping in
    let counts = count_users (map (row m) t.shard) [] in
    let (s, n, chosen, (least, i, place)) =
      select_shard-IsLeast counts
        (λ e. err_not_ok (failure "no shard found") (subst (λ c. select_shard (ok c) ≡ ok url) e h))
        (count_users-All m (λ c. c.0 ≢ "") t.shard [] names tt)
        (count_users-All m (λ c. c.1 ≤ max_int) t.shard []
          (All-any (λ a. users_of a m ≤ max_int) t.shard
            λ a. omega (arith, users_of-le m a m, small))
          tt) in
    let same : s ≡ url = ok-inj s url (sym chosen ∙ h) in
    let is_count : n ≡ users_of s m =
      get_elem?-All (λ c. c.1 ≡ users_of c.0 m) counts i (s, n)
        (count_users-All m (λ c. c.1 ≡ users_of c.0 m) t.shard [] (All-any _ t.shard λ a. refl) tt)
        place in
    let bound : n ≡ users_of url m = is_count ∙ ap (λ a. users_of a m) same in
    subst (λ k. All (λ a. k ≤ users_of a m) t.shard) bound (All-users_of m n t.shard [] least)

-- the counts of what the query answers
abbrev counts_of : Result (List (ℕ × String)) → Result (List (String × ℕ))
counts_of (ok rows) = ok (count_users rows [])
counts_of (err e) = err e

counts_of-answer :
    (p : Result (List (ℕ × String)) × Sql)
    → (continue (λ rows. pure (count_users rows [])) p).0 ≡ counts_of p.0
counts_of-answer (ok rows, s) = refl
counts_of-answer (err e, s) = refl

select_shard-err : (e : Err) (url : String) → select_shard (err e) ≢ ok url
unfolding select_shard
select_shard-err e url h = err_not_ok e h

count-ok :
    (breaks : ℕ → Option Err) (s : Sql) (url : String)
    → select_shard (get_shard_user_count breaks s).0 ≡ ok url
    → select_shard (ok (count_users (map (row s.tables.shards_mapping) s.tables.shard) [])) ≡ ok url
unfolding get_shard_user_count
count-ok breaks s url h = of_performed (perform_lem breaks sql_shard_user_count s)
  where
    of_performed :
        Performed sql_shard_user_count s.tables (perform breaks sql_shard_user_count s)
        → select_shard (ok (count_users (map (row s.tables.shards_mapping) s.tables.shard) []))
          ≡ ok url
    of_performed (broken e failed same) = absurd (
        select_shard-err e url (
          ap select_shard
            (sym (counts_of-answer (perform breaks sql_shard_user_count s) ∙ ap counts_of failed))
          ∙ h))
    of_performed (done given made) =
        ap select_shard
          (sym (counts_of-answer (perform breaks sql_shard_user_count s) ∙ ap counts_of given))
        ∙ h

-- Where no shard has the empty name, the tables have at most MaxInt users, the cache uses an entry that passes
-- its check or else the getter, and the user has neither a shard nor an entry in the cache, an EnsureShardForUser that succeeds gives one of the shards that have the
-- fewest users, and adds just the row of the user to the tables.
pub ensure_shard_for_user-fewest :
    {C : Type 0} (breaks : ℕ → Option Err) (cache : UserCache C) (user_id url : String)
    (w : Shards C)
    → IsUserCache cache
    → cache.view w.cache (cache_prefix ++ user_id) ≡ none
    → address_of user_id w.sql.tables.shards_mapping ≡ none
    → All (λ a. a ≢ "") w.sql.tables.shard
    → length w.sql.tables.shards_mapping ≤ max_int
    → (ensure_shard_for_user breaks cache user_id w).0 ≡ ok url
    → (has_address url w.sql.tables.shard ≡ true)
      × All
          (λ a. users_of url w.sql.tables.shards_mapping ≤ users_of a w.sql.tables.shards_mapping)
          w.sql.tables.shard
      × ((ensure_shard_for_user breaks cache user_id w).1.sql.tables
          ≡ added user_id url w.sql.tables)
ensure_shard_for_user-fewest breaks cache user_id url w is_cache missing new names small h =
    elim (ensure_shard_for_user-HadOrGets breaks cache is_cache user_id url w missing h) [
      | inl (there, _) ↦ absurd (none_not_some url (sym new ∙ there))
      | inr (s, same, selected, (known, _), made) ↦ (
        known,
        select_fewest w.sql.tables url names small (
            subst
              (λ t.
                select_shard (ok (count_users (map (row t.shards_mapping) t.shard) [])) ≡ ok url)
              same (count-ok breaks s url selected)),
        made,
      )
    ]
  where
    none_not_some : (a : String) → none ≢ some a
    none_not_some a e = cc
