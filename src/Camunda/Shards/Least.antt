-- ===== src/Camunda/Shards/Least.antt =====
-- A new user gets a shard with the fewest users.
use external_task_worker.Base.{
  ℕ, zero, suc, ◌≤◌, String, ◌≡◌, ◌≢◌, refl, true, some, List, [], ◌∷◌, inl, inr, arith, leb, All,
  get_elem?, Bool-cases,
}
use external_task_worker.Base.Text.{not_equal}
use external_task_worker.Result.{ok}
use external_task_worker.Camunda.Shards.{max_int, select_least, select_shard}

abbrev Names : List (String × ℕ) → Type 0
Names counts = All (λ c. c.0 ≢ "") counts

-- s is the name, and n the count, of an entry none of whose fellows has a smaller count
abbrev pub IsLeast : List (String × ℕ) → String → ℕ → Type 0
IsLeast counts s n = All (λ c. n ≤ c.1) counts × (i : ℕ) × (get_elem? counts i ≡ some (s, n))

weaken :
    (m n : ℕ) (counts : List (String × ℕ))
    → m ≤ n
    → All (λ c. n ≤ c.1) counts
    → All (λ c. m ≤ c.1) counts
weaken m n [] h a = tt
weaken m n (c ∷ cs) h a = (omega (arith, a.0), weaken m n cs h a.1)

at_name :
    (counts : List (String × ℕ)) (i : ℕ) (s : String) (n : ℕ)
    → Names counts
    → get_elem? counts i ≡ some (s, n)
    → s ≢ ""
at_name [] i s n h e = cc
at_name (c ∷ cs) zero s n h e = λ f. h.0 cc
at_name (c ∷ cs) (suc i) s n h e = at_name cs i s n h.1 e

-- the loop, from a shard that was chosen already
-- an index of a list whose second entry is left out, in the whole list
abbrev skip : ℕ → ℕ
skip zero = zero
skip (suc i) = suc (suc i)

skips :
    {A : Type 0} (cs : List A) (x c d : A) (i : ℕ)
    → get_elem? (d ∷ cs) i ≡ some c
    → get_elem? (d ∷ x ∷ cs) (skip i) ≡ some c
skips cs x c d zero h = h
skips cs x c d (suc i) h = h

leb_of : (m n : ℕ) → m ≤ n → leb m n ≡ true
leb_of m n h = ground arith

select_least_lem :
    (counts : List (String × ℕ)) (shard : String) (least : ℕ)
    → (n : ℕ) × IsLeast ((shard, least) ∷ counts) (select_least counts least shard) n
unfolding select_least
select_least_lem [] shard least = (least, ((omega arith, tt), zero, refl))
select_least_lem ((s, m) ∷ counts) shard least = elim (Bool-cases (leb m least)) [
  | inl e ↦
      let (n, ((a, b), i, h)) = select_least_lem counts s m in
      rw e (n, ((ground arith, (a, b)), suc i, h))
  | inr e ↦
      let (n, ((a, b), i, h)) = select_least_lem counts shard least in
      rw e (
        n,
        (
          (a, (ground arith, b)),
          skip i,
          skips counts (s, m) (select_least counts least shard, n) (shard, least) i h,
        ),
      )
]

-- Whatever the order in which the map of user counts is walked, where there is a shard, no shard has
-- the empty name, and no count exceeds MaxInt, selectShard gives a shard of the map, and none of the
-- map has fewer users.
pub select_shard-IsLeast :
    (counts : List (String × ℕ))
    → counts ≢ []
    → Names counts
    → All (λ c. c.1 ≤ max_int) counts
    → (s : String) × (n : ℕ) × (select_shard (ok counts) ≡ ok s) × IsLeast counts s n
unfolding select_shard select_least
select_shard-IsLeast [] h names small = absurd (h refl)
select_shard-IsLeast ((t, m) ∷ counts) h names small =
    let (n, (least, i, e)) = select_least_lem counts t m in
    (
      select_least counts m t,
      n,
      rw (
        leb_of m max_int small.0,
        not_equal _ _ (at_name ((t, m) ∷ counts) i (select_least counts m t) n names e),
      ),
      (least, i, e),
    )
