-- ===== src/DeviceGroups/RoundRobin.antt =====
-- The order of the round robin: the candidate with the fewest tries goes first.
use external_task_worker.Base.{
  ◌≡◌, Bool, true, false, List, [], ◌∷◌, arith, inl, inr, Bool-cases, All,
}
use external_task_worker.Base.Int.{◌≤ℤ◌}
use external_task_worker.Base.Sort.{insert, sort_slice}
use external_task_worker.Messages.{RequestInfo}
use external_task_worker.DeviceGroups.Commands.{fewer_tries}
use external_task_worker.DeviceGroups.Serial.{All-insert}

-- r has at most as many tries as z
abbrev pub NoMoreTries : RequestInfo → RequestInfo → Type 0
NoMoreTries r z = r.sub_task_state.try_count ≤ℤ z.sub_task_state.try_count

abbrev Least : List RequestInfo → Type 0
Least [] = Unit
Least (r ∷ rs) = All (NoMoreTries r) (r ∷ rs)

NoMoreTries-All :
    (x y : RequestInfo) (rs : List RequestInfo)
    → NoMoreTries x y
    → All (NoMoreTries y) rs
    → All (NoMoreTries x) rs
NoMoreTries-All x y [] h a = tt
NoMoreTries-All x y (r ∷ rs) h a = (omega arith, NoMoreTries-All x y rs h a.1)

fewer : (x y : RequestInfo) → fewer_tries y x ≡ true → NoMoreTries y x
fewer x y h = ground arith

not_fewer : (x y : RequestInfo) → fewer_tries y x ≡ false → NoMoreTries x y
not_fewer x y h = ground arith

Least-insert :
    (x : RequestInfo) (ys : List RequestInfo) → Least ys → Least (insert fewer_tries x ys)
unfolding insert
Least-insert x [] h = (omega arith, tt)
Least-insert x (y ∷ ys) h = elim (Bool-cases (fewer_tries y x)) [
  | inl e ↦ rw e (omega arith, All-insert (NoMoreTries y) fewer_tries x ys (fewer x y e) h.1)
  | inr e ↦ rw e (omega arith, NoMoreTries-All x y (y ∷ ys) (not_fewer x y e) h)
]

Least-sort : (xs : List RequestInfo) → Least (sort_slice fewer_tries xs)
unfolding sort_slice
Least-sort [] = tt
Least-sort (x ∷ xs) = Least-insert x (sort_slice fewer_tries xs) (Least-sort xs)

All-of-insert {ℓ κ} :
    {A : Type ℓ} (P : A → Type κ) (less : A → A → Bool) (x : A) (ys : List A)
    → All P (insert less x ys)
    → P x × All P ys
unfolding insert
All-of-insert P less x [] h = h
All-of-insert P less x (y ∷ ys) h = elim (Bool-cases (less y x)) [
  | inl e ↦
      let h' : All P (y ∷ insert less x ys) = rw e at h in
      let r = All-of-insert P less x ys h'.1 in (r.0, (h'.0, r.1))
  | inr e ↦ rw e at h
]

All-of-sort {ℓ κ} :
    {A : Type ℓ} (P : A → Type κ) (less : A → A → Bool) (xs : List A)
    → All P (sort_slice less xs)
    → All P xs
unfolding sort_slice
All-of-sort P less [] h = tt
All-of-sort P less (x ∷ xs) h =
    let r = All-of-insert P less x (sort_slice less xs) h in (r.0, All-of-sort P less xs r.1)

-- The first of the sorted requests has the fewest tries of all.
pub sort_first :
    (xs : List RequestInfo) (r : RequestInfo) (rs : List RequestInfo)
    → sort_slice fewer_tries xs ≡ r ∷ rs
    → All (NoMoreTries r) xs
sort_first xs r rs e = All-of-sort (NoMoreTries r) fewer_tries xs (rw e (rw e at (Least-sort xs)))
