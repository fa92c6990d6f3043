-- ===== src/Base/Sort.antt =====
-- `sort.Slice`: the insertion sort that Go runs on short slices. For long slices Go's result may
-- order ties in another way.
use mathlib.Core.List.{List, [], ◌∷◌}
use mathlib.Core.Bool.{Bool}
use external_task_worker.Base.Tests.{if◌then◌else◌}

module _ {ℓ} {A : Type ℓ} (less : A → A → Bool) where
  unfoldable pub insert : A → List A → List A
  insert x [] = x ∷ []
  insert x (y ∷ ys) = if less y x then y ∷ insert x ys else x ∷ y ∷ ys

  unfoldable pub sort_slice : List A → List A
  unfolding insert
  sort_slice [] = []
  sort_slice (x ∷ xs) = insert x (sort_slice xs)
