-- ===== src/Camunda/Shards/Others.antt =====
-- lib/camunda/shards/shards.go: what SetShardForUser and EnsureShardForUser leave alone.
use external_task_worker.Base.{
  ℕ, String, ◌≡◌, ◌≢◌, refl, ◌∙◌, ap, sym, inl, inr, Option, List, [], ◌∷◌, ◌++◌ as ◌++ᴸ◌, ◌==◌,
  false, Bool-cases, eq_iff,
}
use external_task_worker.Base.Text.{not_equal}
use external_task_worker.Result.{Err, Result}
use external_task_worker.Camunda.Shards.Tables.{Tables, address_of, without_user}
use external_task_worker.Camunda.Shards.Database.{
  UserCache, IsUserCache, Shards, set_shard_for_user, ensure_shard_for_user,
}
use external_task_worker.Camunda.Shards.Atomic.{added, removed}
use external_task_worker.Camunda.Shards.Assigned.{set_lem, forget-tables}
use external_task_worker.Camunda.Shards.Ensured.{Ensured, fails, had, gets, ensure_lem}

-- The shards, and the shard of each user but one, are the same.
abbrev pub IsSameForOthers : String → Tables → Tables → Type 0
IsSameForOthers user_id before after =
    (after.shard ≡ before.shard)
    × ((other : String)
        → user_id ≢ other
        → address_of other after.shards_mapping ≡ address_of other before.shards_mapping)

address_of-added :
    (user_id address other : String) (rows : List (String × String))
    → user_id ≢ other
    → address_of other (rows ++ᴸ (user_id, address) ∷ []) ≡ address_of other rows
unfolding address_of
address_of-added user_id address other [] n = rw (not_equal user_id other n) refl
address_of-added user_id address other ((u, a) ∷ rows) n = elim (Bool-cases (u == other)) [
  | inl e ↦ rw e refl
  | inr e ↦ rw e (address_of-added user_id address other rows n)
]

address_of-without_user :
    (user_id other : String) (rows : List (String × String))
    → user_id ≢ other
    → address_of other (without_user user_id rows) ≡ address_of other rows
unfolding address_of without_user
address_of-without_user user_id other [] n = refl
address_of-without_user user_id other ((u, a) ∷ rows) n = elim (Bool-cases (u == user_id)) [
  | inl e ↦
      let apart : (u == other) ≡ false =
        not_equal u other (λ same. n (sym ((eq_iff u user_id).0 e) ∙ same)) in
      rw (e, apart) (address_of-without_user user_id other rows n)
  | inr e ↦ elim (Bool-cases (u == other)) [
    | inl f ↦ rw (e, f) refl
    | inr f ↦ rw (e, f) (address_of-without_user user_id other rows n)
  ]
]

unchanged-IsSameForOthers :
    (user_id : String) (before after : Tables)
    → after ≡ before
    → IsSameForOthers user_id before after
unchanged-IsSameForOthers user_id before after h = rw h (refl, λ other n. refl)

added-IsSameForOthers :
    (user_id address : String) (before after : Tables)
    → after ≡ added user_id address before
    → IsSameForOthers user_id before after
added-IsSameForOthers user_id address before after h =
    rw h (refl, λ other n. address_of-added user_id address other before.shards_mapping n)

moved-IsSameForOthers :
    (user_id address : String) (before after : Tables)
    → after ≡ added user_id address (removed user_id before)
    → IsSameForOthers user_id before after
moved-IsSameForOthers user_id address before after h = rw h (
  refl,
  λ other n.
      address_of-added user_id address other (without_user user_id before.shards_mapping) n
      ∙ address_of-without_user user_id other before.shards_mapping n,
)

ensured-IsSameForOthers :
    (breaks : ℕ → Option Err) (user_id : String) (before after : Tables)
    (found given : Result String)
    → Ensured breaks user_id before found given after
    → IsSameForOthers user_id before after
ensured-IsSameForOthers breaks user_id before after found given (fails e failed same) =
    unchanged-IsSameForOthers user_id before after same
ensured-IsSameForOthers breaks user_id before after found given (had e same) =
    unchanged-IsSameForOthers user_id before after same
ensured-IsSameForOthers breaks user_id before after found given
      (gets url s e same chosen can made) =
    added-IsSameForOthers user_id url before after made

module _ {C : Type 0} (breaks : ℕ → Option Err) (cache : UserCache C) where
  -- Whichever calls of the database fail, where the cache uses an entry or the getter, SetShardForUser
  -- and EnsureShardForUser for a user change neither the shards nor the shard of any other user.
  pub others_keep_shards :
      IsUserCache cache
      → (user_id address : String) (w : Shards C)
      → IsSameForOthers user_id w.sql.tables
          (set_shard_for_user breaks cache user_id address w).1.sql.tables
        × IsSameForOthers user_id w.sql.tables
            (ensure_shard_for_user breaks cache user_id w).1.sql.tables
  others_keep_shards is_cache user_id address w = (
    elim (set_lem breaks cache user_id address w) [
      | inl (same, _) ↦
          unchanged-IsSameForOthers user_id w.sql.tables
            (set_shard_for_user breaks cache user_id address w).1.sql.tables same
      | inr (s, set, _, made) ↦
          moved-IsSameForOthers user_id address w.sql.tables
            (set_shard_for_user breaks cache user_id address w).1.sql.tables
            (ap (λ q. q.1.sql.tables) set
              ∙ ap (λ x. x.tables) (forget-tables breaks cache user_id (record w { sql = s }))
              ∙ made)
    ],
    ensured-IsSameForOthers breaks user_id w.sql.tables _ _ _
        (ensure_lem breaks cache is_cache user_id w),
  )
