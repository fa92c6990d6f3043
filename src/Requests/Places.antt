-- ===== src/Requests/Places.antt =====
-- lib/worker.go (setVarOnPath): what writing a key of a map, or an index of a slice, does to what is read.
use external_task_worker.Base.{
  ℕ, zero, suc, String, ◌≡◌, refl, subst, true, false, ◌⊎◌, inl, inr, Option, none, some, ◌==◌,
  Bool-cases, eq_iff, eq_refl,
}
use external_task_worker.Base.Int.{ℤ, pos, negsuc}
use external_task_worker.Result.{Err, Result, ok, err}
use external_task_worker.Model.{
  Value, null, bool, int, float, str, arr, obj, Items, nil, item, Fields, end, field,
}
use external_task_worker.Event.Paths.{get_field, has_field, put_field}
use external_task_worker.Requests.SetVarOnPath.{at_index, atoi, get_item, set_item, sub, put_sub}

-- what a write does to the field or the item that is read at `key`
abbrev pub Written : Result Value → Result Value → Value → Value → Type 0
Written after before old v = (after ≡ before) ⊎ ((after ≡ ok v) × (before ≡ ok old))

has_field-put_field :
    (key : String) (v : Value) (fields : Fields) → has_field key (put_field key v fields) ≡ true
unfolding put_field has_field
has_field-put_field key v end = rw (eq_refl key) refl
has_field-put_field key v (field k u rest) = elim (Bool-cases (k == key)) [
  | inl e ↦ rw (e, eq_refl key) refl
  | inr e ↦ rw (e, has_field) (rw e (has_field-put_field key v rest))
]

get_field-put_field :
    (key : String) (v : Value) (fields : Fields) → get_field key (put_field key v fields) ≡ v
unfolding put_field get_field
get_field-put_field key v end = rw (eq_refl key) refl
get_field-put_field key v (field k u rest) = elim (Bool-cases (k == key)) [
  | inl e ↦ rw (e, eq_refl key) refl
  | inr e ↦ rw (e, get_field) (rw e (get_field-put_field key v rest))
]

has_field-put_other :
    (key j : String) (v : Value) (fields : Fields)
    → (key == j) ≡ false
    → has_field j (put_field key v fields) ≡ has_field j fields
unfolding put_field has_field
has_field-put_other key j v end h = rw h refl
has_field-put_other key j v (field k u rest) h = elim (Bool-cases (k == key)) [
  | inl e ↦ rw (e, (eq_iff k key).0 e, h) refl
  | inr e ↦ rw (e, has_field, has_field-put_other key j v rest h) refl
]

get_field-put_other :
    (key j : String) (v : Value) (fields : Fields)
    → (key == j) ≡ false
    → get_field j (put_field key v fields) ≡ get_field j fields
unfolding put_field get_field
get_field-put_other key j v end h = rw h refl
get_field-put_other key j v (field k u rest) h = elim (Bool-cases (k == key)) [
  | inl e ↦ rw (e, (eq_iff k key).0 e, h) refl
  | inr e ↦ rw (e, get_field, get_field-put_other key j v rest h) refl
]

get_item-set_item :
    (i : ℕ) (v old : Value) (items : Items)
    → get_item i items ≡ ok old
    → get_item i (set_item i v items) ≡ ok v
unfolding get_item set_item
get_item-set_item i v old nil h = cc
get_item-set_item zero v old (item u us) h = refl
get_item-set_item (suc i) v old (item u us) h = get_item-set_item i v old us h

get_item-set_other :
    (i j : ℕ) (v old : Value) (items : Items)
    → get_item i items ≡ ok old
    → Written (get_item j (set_item i v items)) (get_item j items) old v
unfolding get_item set_item
get_item-set_other i j v old nil h = inl refl
get_item-set_other zero zero v old (item u us) h = inr (refl, h)
get_item-set_other zero (suc j) v old (item u us) h = inl refl
get_item-set_other (suc i) zero v old (item u us) h = inl refl
get_item-set_other (suc i) (suc j) v old (item u us) h = get_item-set_other i j v old us h

-- the index that is read, and then the one that was written
read_index :
    (at : ℤ × Option Err) (i : ℕ) (old v : Value) (items : Items)
    → get_item i items ≡ ok old
    → Written
        (at_index at (λ j. get_item j (set_item i v items)) err)
        (at_index at (λ j. get_item j items) err)
        old
        v
read_index (pos j, none) i old v items h = get_item-set_other i j v old items h
read_index (negsuc j, none) i old v items h = inl refl
read_index (j, some x) i old v items h = inl refl

index_after :
    (at : ℤ × Option Err) (old v : Value) (items : Items) (j : String)
    → at_index at (λ i. get_item i items) err ≡ ok old
    → Written
        (sub (at_index at (λ i. arr (set_item i v items)) (λ e. arr items)) j)
        (sub (arr items) j)
        old
        v
unfolding sub
index_after (pos i, none) old v items j h = read_index (atoi j) i old v items h
index_after (negsuc i, none) old v items j h = cc
index_after (i, some x) old v items j h = cc

same_index :
    (at : ℤ × Option Err) (old v : Value) (items : Items) (key : String)
    → atoi key ≡ at
    → at_index at (λ i. get_item i items) err ≡ ok old
    → sub (at_index at (λ i. arr (set_item i v items)) (λ e. arr items)) key ≡ ok v
unfolding sub
same_index (pos i, none) old v items key q h = rw q (get_item-set_item i v old items h)
same_index (negsuc i, none) old v items key q h = cc
same_index (i, some x) old v items key q h = cc

pub put_sub-sub :
    (e old v : Value) (key j : String)
    → sub e key ≡ ok old
    → Written (sub (put_sub e key v) j) (sub e j) old v
unfolding sub put_sub
put_sub-sub (obj fields) old v key j h = elim (Bool-cases (key == j)) [
  | inl e ↦
      let here : Written (sub (obj (put_field key v fields)) key) (sub (obj fields) key) old v =
        inr (rw (has_field-put_field key v fields, get_field-put_field key v fields) refl, h) in
      subst (λ x. Written (sub (obj (put_field key v fields)) x) (sub (obj fields) x) old v)
        ((eq_iff key j).0 e) here
  | inr e ↦ inl rw (has_field-put_other key j v fields e, get_field-put_other key j v fields e) refl
]
put_sub-sub (arr items) old v key j h = index_after (atoi key) old v items j h
put_sub-sub null old v key j h = inl refl
put_sub-sub (bool b) old v key j h = inl refl
put_sub-sub (int b) old v key j h = inl refl
put_sub-sub (float b) old v key j h = inl refl
put_sub-sub (str b) old v key j h = inl refl

pub put_sub-same :
    (e old v : Value) (key : String) → sub e key ≡ ok old → sub (put_sub e key v) key ≡ ok v
unfolding sub put_sub
put_sub-same (obj fields) old v key h =
    rw (has_field-put_field key v fields, get_field-put_field key v fields) refl
put_sub-same (arr items) old v key h = same_index (atoi key) old v items key refl h
put_sub-same null old v key h = cc
put_sub-same (bool b) old v key h = cc
put_sub-same (int b) old v key h = cc
put_sub-same (float b) old v key h = cc
put_sub-same (str b) old v key h = cc
