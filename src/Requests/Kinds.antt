-- ===== src/Requests/Kinds.antt =====
-- lib/worker.go (setVarOnPath): a value that is set keeps the shape of the input, and stands where it was
-- set.
use external_task_worker.Base.{
  String, ◌≡◌, refl, sym, ◌∙◌, ap, Bool, true, false, false≢true, ◌≢◌, inl, inr, Option, none, some,
  List, [], ◌∷◌, Option-cases,
}
use external_task_worker.Base.Int.{ℤ, pos, negsuc}
use external_task_worker.Result.{Result-cases, Err, failure, Result, ok, err}
use external_task_worker.Model.{Value, null, bool, int, float, str, arr, obj, Items}
use external_task_worker.Requests.SetVarOnPath.{
  Floats, at_index, atoi, unmarshalled, converted, set_item, sub, put_sub, set_var_on_path,
}
use external_task_worker.Requests.Places.{put_sub-sub, put_sub-same}

-- the Go type of a value
pub data Kind : Type 0 where
  nil_kind bool_kind int_kind float_kind string_kind slice_kind map_kind missing : Kind

abbrev pub kind : Value → Kind
kind null = nil_kind
kind (bool b) = bool_kind
kind (int n) = int_kind
kind (float x) = float_kind
kind (str s) = string_kind
kind (arr items) = slice_kind
kind (obj fields) = map_kind

some_not_none : (e : Err) → some e ≢ none
some_not_none e h = cc

-- the value under a path, if there is one
unfoldable pub under : Value → List String → Option Value
unfolding sub
under v [] = some v
under v (key ∷ path) = elim (sub v key) [ ok w ↦ under w path | err e ↦ none ]

abbrev pub kind_of : Option Value → Kind
kind_of none = missing
kind_of (some v) = kind v

abbrev is_scalar : Kind → Bool
is_scalar bool_kind = true
is_scalar int_kind = true
is_scalar float_kind = true
is_scalar string_kind = true
is_scalar _ = false

scalar-under :
    (v : Value) (key : String) (path : List String)
    → is_scalar (kind v) ≡ true
    → under v (key ∷ path) ≡ none
unfolding under sub
scalar-under null key path h = absurd (false≢true h)
scalar-under (arr items) key path h = absurd (false≢true h)
scalar-under (obj fields) key path h = absurd (false≢true h)
scalar-under (bool b) key path h = refl
scalar-under (int b) key path h = refl
scalar-under (float b) key path h = refl
scalar-under (str b) key path h = refl

unmarshalled_fails :
    (floats : Floats) (unmarshal_value : String → Result Value) (s : String) (v : Value)
    → ¬ (unmarshalled floats unmarshal_value s ≡ (v, none))
unmarshalled_fails floats unmarshal_value s v h = elim (Result-cases (unmarshal_value s)) [
  | inl (w, e) ↦
      let g : (null, some (failure "ERROR: Recovered in setVarOnPath")) ≡ (v, none) =
        rw (unmarshalled, e) at h in
      some_not_none _ (ap (λ p. p.1) g)
  | inr (x, e) ↦
      let g : (str s, some x) ≡ (v, none) = rw (unmarshalled, e) at h in
      some_not_none _ (ap (λ p. p.1) g)
]

converted-kind :
    (floats : Floats) (unmarshal_value : String → Result Value) (value element v : Value)
    → converted floats unmarshal_value value element ≡ (v, none)
    → (kind v ≡ kind element) × (is_scalar (kind element) ≡ true)
unfolding converted
converted-kind floats unmarshal_value (str s) null v h = cc
converted-kind floats unmarshal_value (str s) (bool e) v h = (sym (ap (λ r. kind r.0) h), refl)
converted-kind floats unmarshal_value (str s) (int e) v h = (sym (ap (λ r. kind r.0) h), refl)
converted-kind floats unmarshal_value (str s) (float e) v h = (sym (ap (λ r. kind r.0) h), refl)
converted-kind floats unmarshal_value (str s) (str e) v h = (sym (ap (λ r. kind r.0) h), refl)
converted-kind floats unmarshal_value (str s) (arr e) v h =
    absurd (unmarshalled_fails floats unmarshal_value s v h)
converted-kind floats unmarshal_value (str s) (obj e) v h =
    absurd (unmarshalled_fails floats unmarshal_value s v h)
converted-kind floats unmarshal_value (int n) null v h = cc
converted-kind floats unmarshal_value (int n) (bool e) v h = (sym (ap (λ r. kind r.0) h), refl)
converted-kind floats unmarshal_value (int n) (int e) v h = (sym (ap (λ r. kind r.0) h), refl)
converted-kind floats unmarshal_value (int n) (float e) v h = (sym (ap (λ r. kind r.0) h), refl)
converted-kind floats unmarshal_value (int n) (str e) v h = (sym (ap (λ r. kind r.0) h), refl)
converted-kind floats unmarshal_value (int n) (arr e) v h = cc
converted-kind floats unmarshal_value (int n) (obj e) v h = cc
converted-kind floats unmarshal_value (bool b) null v h = cc
converted-kind floats unmarshal_value (bool b) (bool e) v h = (sym (ap (λ r. kind r.0) h), refl)
converted-kind floats unmarshal_value (bool b) (int e) v h = (sym (ap (λ r. kind r.0) h), refl)
converted-kind floats unmarshal_value (bool b) (float e) v h = (sym (ap (λ r. kind r.0) h), refl)
converted-kind floats unmarshal_value (bool b) (str e) v h = (sym (ap (λ r. kind r.0) h), refl)
converted-kind floats unmarshal_value (bool b) (arr e) v h = cc
converted-kind floats unmarshal_value (bool b) (obj e) v h = cc
converted-kind floats unmarshal_value (float x) null v h = cc
converted-kind floats unmarshal_value (float x) (bool e) v h = (sym (ap (λ r. kind r.0) h), refl)
converted-kind floats unmarshal_value (float x) (int e) v h = (sym (ap (λ r. kind r.0) h), refl)
converted-kind floats unmarshal_value (float x) (float e) v h = (sym (ap (λ r. kind r.0) h), refl)
converted-kind floats unmarshal_value (float x) (str e) v h = (sym (ap (λ r. kind r.0) h), refl)
converted-kind floats unmarshal_value (float x) (arr e) v h = cc
converted-kind floats unmarshal_value (float x) (obj e) v h = cc
converted-kind floats unmarshal_value null element v h = cc
converted-kind floats unmarshal_value (arr items) element v h = cc
converted-kind floats unmarshal_value (obj fields) element v h = cc

index_kind :
    (at : ℤ × Option Err) (v : Value) (items : Items)
    → kind (at_index at (λ i. arr (set_item i v items)) (λ e. arr items)) ≡ slice_kind
index_kind (pos i, none) v items = refl
index_kind (negsuc i, none) v items = refl
index_kind (i, some x) v items = refl

put_sub-kind : (e v : Value) (key : String) → kind (put_sub e key v) ≡ kind e
unfolding put_sub
put_sub-kind (obj fields) v key = refl
put_sub-kind (arr items) v key = index_kind (atoi key) v items
put_sub-kind null v key = refl
put_sub-kind (bool b) v key = refl
put_sub-kind (int b) v key = refl
put_sub-kind (float b) v key = refl
put_sub-kind (str b) v key = refl

module _ (floats : Floats) (unmarshal_value : String → Result Value) where
  -- what a step of a path that is set without an error did
  set_below :
      (key : String) (path : List String) (element value result : Value)
      → set_var_on_path floats unmarshal_value element (key ∷ path) value ≡ (result, none)
      → (below v : Value) × (sub element key ≡ ok below)
        × (set_var_on_path floats unmarshal_value below path value ≡ (v, none))
        × (result ≡ put_sub element key v)
  unfolding set_var_on_path
  set_below key path element value result h = elim (Result-cases (sub element key)) [
    | inl (below, e) ↦
        let r = set_var_on_path floats unmarshal_value below path value in
        elim (Option-cases r.1) [
          | inl f ↦
              let g : (put_sub element key r.0, none) ≡ (result, none) =
                rw (set_var_on_path, e, f) at h in
              (below, r.0, e, ap (λ o. (r.0, o)) f, sym (ap (λ p. p.0) g))
          | inr (x, f) ↦
              let g : (element, some x) ≡ (result, none) = rw (set_var_on_path, e, f) at h in
              absurd (some_not_none x (ap (λ p. p.1) g))
        ]
    | inr (x, e) ↦
        let g : (element, some x) ≡ (result, none) = rw (set_var_on_path, e) at h in
        absurd (some_not_none x (ap (λ p. p.1) g))
  ]

  -- A value that is set without an error leaves a value of the same Go type, or none, under every path.
  pub set_var_on_path-kind :
      (path : List String) (element value result : Value)
      → set_var_on_path floats unmarshal_value element path value ≡ (result, none)
      → (other : List String) → kind_of (under result other) ≡ kind_of (under element other)
  unfolding set_var_on_path under
  set_var_on_path-kind [] element value result h [] =
      (converted-kind floats unmarshal_value value element result h).0
  set_var_on_path-kind (key ∷ path) element value result h [] =
      let (below, v, found, inner, e) = set_below key path element value result h in
      rw e (put_sub-kind element v key)
  set_var_on_path-kind [] element value result h (j ∷ other) =
      let (same, scalar) = converted-kind floats unmarshal_value value element result h in
      rw
        (
          scalar-under element j other scalar,
          scalar-under result j other (ap is_scalar same ∙ scalar),
        )
        refl
  set_var_on_path-kind (key ∷ path) element value result h (j ∷ other) =
      let (below, v, found, inner, e) = set_below key path element value result h in
      elim (put_sub-sub element below v key j found) [
        | inl same ↦ rw (e, under, same) refl
        | inr (after, before) ↦
            rw (e, under, after, before) (set_var_on_path-kind path below value v inner other)
      ]

  -- An error under a path that is not empty leaves the input as it was.
  pub set_var_on_path-unchanged :
      (key : String) (path : List String) (element value result : Value) (e : Err)
      → set_var_on_path floats unmarshal_value element (key ∷ path) value ≡ (result, some e)
      → result ≡ element
  unfolding set_var_on_path
  set_var_on_path-unchanged key path element value result e h =
      elim (Result-cases (sub element key)) [
        | inl (below, f) ↦
            let r = set_var_on_path floats unmarshal_value below path value in
            elim (Option-cases r.1) [
              | inl g ↦
                  let i : (put_sub element key r.0, none) ≡ (result, some e) =
                    rw (set_var_on_path, f, g) at h in
                  absurd (some_not_none e (sym (ap (λ p. p.1) i)))
              | inr (x, g) ↦
                  let i : (element, some x) ≡ (result, some e) = rw (set_var_on_path, f, g) at h in
                  sym (ap (λ p. p.0) i)
            ]
        | inr (x, f) ↦
            let i : (element, some x) ≡ (result, some e) = rw (set_var_on_path, f) at h in
            sym (ap (λ p. p.0) i)
      ]

  -- A value that is set without an error is found under its path, converted to the type of the value
  -- that stood there.
  pub set_var_on_path-under :
      (path : List String) (element value result : Value)
      → set_var_on_path floats unmarshal_value element path value ≡ (result, none)
      → (old v : Value) × (under element path ≡ some old)
        × (converted floats unmarshal_value value old ≡ (v, none))
        × (under result path ≡ some v)
  unfolding set_var_on_path under
  set_var_on_path-under [] element value result h = (element, result, refl, h, refl)
  set_var_on_path-under (key ∷ path) element value result h =
      let (below, v, found, inner, e) = set_below key path element value result h in
      let (old, w, a, b, c) = set_var_on_path-under path below value v inner in
      (old, w, rw (under, found) a, b, rw (e, under, put_sub-same element below v key found) c)

  pub set_below_kind :
      (key : String) (path : List String) (element value : Value) (other : List String)
      → kind_of (under (set_var_on_path floats unmarshal_value element (key ∷ path) value).0 other)
        ≡ kind_of (under element other)
  set_below_kind key path element value other =
      let r = set_var_on_path floats unmarshal_value element (key ∷ path) value in
      elim (Option-cases r.1) [
        | inl e ↦ set_var_on_path-kind (key ∷ path) element value r.0 (ap (λ o. (r.0, o)) e) other
        | inr (x, e) ↦
            let same =
              set_var_on_path-unchanged key path element value r.0 x (ap (λ o. (r.0, o)) e) in
            ap (λ v. kind_of (under v other)) same
      ]
