-- ===== src/Config/Loaded.antt =====
-- util/config.go (LoadConfig): what loading a configuration keeps, and what it forces.
use external_task_worker.Base.{
  ℕ, suc, String, ◌≡◌, refl, sym, subst, ◌∙◌, ap, Bool, true, false, false≢true, not, ◌&&◌, Option,
  none, some, List, [], ◌∷◌, ◌==◌, if◌then◌else◌, Bool-cases, inl, inr, eq_iff,
}
use external_task_worker.Config.{
  Field, int64_field, int32_field, string_field, bool_field, float_field, slice_field, map_field,
  other_field, Parsers, set_field, prepend_field, field_name_to_env_name, handle_environment_vars,
  get_string, put_string, force_parallel, load_config, after_environment, FieldKind, string_kind,
  kind_of, shape,
}
use external_task_worker.Messages.{CamundaExternalTask}
use external_task_worker.World.{World}
use external_task_worker.DeviceGroups.Commands.{parallel}
use external_task_worker.Worker.{optimistic, CmdWorker, is_sequential, execute_task}
use external_task_worker.Worker.Ends.{execute_task_ends}

some-inj : {A : Type 0} (a b : A) → some a ≡ some b → a ≡ b
some-inj a b h = cc

set_field-kind_of :
    (parsers : Parsers) (value : String) (f g : Field)
    → set_field parsers value f ≡ some g
    → kind_of g ≡ kind_of f
unfolding set_field
set_field-kind_of parsers value (int64_field i) g h = ap kind_of (sym (some-inj _ g h))
set_field-kind_of parsers value (int32_field i) g h = ap kind_of (sym (some-inj _ g h))
set_field-kind_of parsers value (bool_field b) g h = ap kind_of (sym (some-inj _ g h))
set_field-kind_of parsers value (float_field x) g h = ap kind_of (sym (some-inj _ g h))
set_field-kind_of parsers value (slice_field l) g h = ap kind_of (sym (some-inj _ g h))
set_field-kind_of parsers value map_field g h = cc
set_field-kind_of parsers value (other_field o) g h = ap kind_of (sym (some-inj _ g h))
set_field-kind_of parsers value (string_field s) g h = ap kind_of (sym (some-inj _ g h))

put_string-shape :
    (name s : String) (fields : List (String × Field))
    → shape (put_string name s fields) ≡ shape fields
unfolding put_string
put_string-shape name s [] = refl
put_string-shape name s ((k, string_field t) ∷ fields) = elim (Bool-cases (k == name)) [
  | inl e ↦ rw e (ap (λ kinds. (k, string_kind) ∷ kinds) (put_string-shape name s fields))
  | inr e ↦ rw e (ap (λ kinds. (k, string_kind) ∷ kinds) (put_string-shape name s fields))
]
put_string-shape name s ((k, (int64_field i)) ∷ fields) =
    ap (λ kinds. (k, kind_of (int64_field i)) ∷ kinds) (put_string-shape name s fields)
put_string-shape name s ((k, (int32_field i)) ∷ fields) =
    ap (λ kinds. (k, kind_of (int32_field i)) ∷ kinds) (put_string-shape name s fields)
put_string-shape name s ((k, (bool_field b)) ∷ fields) =
    ap (λ kinds. (k, kind_of (bool_field b)) ∷ kinds) (put_string-shape name s fields)
put_string-shape name s ((k, (float_field x)) ∷ fields) =
    ap (λ kinds. (k, kind_of (float_field x)) ∷ kinds) (put_string-shape name s fields)
put_string-shape name s ((k, (slice_field l)) ∷ fields) =
    ap (λ kinds. (k, kind_of (slice_field l)) ∷ kinds) (put_string-shape name s fields)
put_string-shape name s ((k, map_field) ∷ fields) =
    ap (λ kinds. (k, kind_of map_field) ∷ kinds) (put_string-shape name s fields)
put_string-shape name s ((k, (other_field o)) ∷ fields) =
    ap (λ kinds. (k, kind_of (other_field o)) ∷ kinds) (put_string-shape name s fields)

force_parallel-shape :
    (config : List (String × Field)) → shape (force_parallel config) ≡ shape config
unfolding force_parallel
force_parallel-shape config =
    elim (Bool-cases (
      get_string "CompletionStrategy" config == optimistic
      && not (get_string "GroupScheduler" config == parallel))) [
        | inl e ↦ rw e (put_string-shape "GroupScheduler" parallel config)
        | inr e ↦ rw e refl
      ]

-- what the loop gives, from its parts
prepend_field-eq-some :
    (name : String) (f : Option Field) (fields : Option (List (String × Field)))
    (c : List (String × Field))
    → prepend_field name f fields ≡ some c
    → (g : Field) × (gs : List (String × Field)) × (f ≡ some g)
      × (fields ≡ some gs)
      × (((name, g) ∷ gs) ≡ c)
prepend_field-eq-some name none fields c h = cc
prepend_field-eq-some name (some f) none c h = cc
prepend_field-eq-some name (some f) (some fields) c h = (f, fields, refl, refl, some-inj _ c h)

one_field :
    (b : Bool) (parsers : Parsers) (value : String) (f g : Field)
    → (if b then set_field parsers value f else some f) ≡ some g
    → kind_of g ≡ kind_of f
one_field true parsers value f g h = set_field-kind_of parsers value f g h
one_field false parsers value f g h = ap kind_of (sym (some-inj f g h))

handle_environment_vars-shape :
    (parsers : Parsers) (env : String → String) (fields c : List (String × Field))
    → handle_environment_vars parsers env fields ≡ some c
    → shape c ≡ shape fields
unfolding handle_environment_vars
handle_environment_vars-shape parsers env [] c h = ap shape (sym (some-inj [] c h))
handle_environment_vars-shape parsers env ((name, field) ∷ fields) c h =
    let value = env (field_name_to_env_name parsers name) in
    let (g, gs, one, rest, e) =
      prepend_field-eq-some name _ (handle_environment_vars parsers env fields) c h in
    sym (ap shape e)
    ∙ ap (λ k. (name, k) ∷ shape gs) (one_field (not (value == "")) parsers value field g one)
    ∙ ap (λ l. (name, kind_of field) ∷ l) (handle_environment_vars-shape parsers env fields gs rest)

after_environment-eq-some :
    (o : Option (List (String × Field))) (c : List (String × Field))
    → after_environment o ≡ some c
    → (e : List (String × Field)) × (o ≡ some e) × (force_parallel e ≡ c)
unfolding force_parallel
after_environment-eq-some none c h = cc
after_environment-eq-some (some e) c h = (e, refl, some-inj _ c h)

-- Loading keeps every field of the struct and its kind, whatever the file and the environment hold.
pub load_config-shape :
    (parsers : Parsers) (env : String → String) (decoded config : List (String × Field))
    → load_config parsers env decoded ≡ some config
    → shape config ≡ shape decoded
unfolding load_config
load_config-shape parsers env decoded config h =
    let (e, made, forced) =
      after_environment-eq-some (handle_environment_vars parsers env decoded) config h in
    sym (ap shape forced)
    ∙ force_parallel-shape e
    ∙ handle_environment_vars-shape parsers env decoded e made

-- a string field of the struct
abbrev pub has_string : String → List (String × FieldKind) → Bool
has_string name [] = false
has_string name ((k, string_kind) ∷ fields) = if k == name then true else has_string name fields
has_string name ((k, _) ∷ fields) = has_string name fields

get_string-put_string :
    (name s : String) (fields : List (String × Field))
    → has_string name (shape fields) ≡ true
    → get_string name (put_string name s fields) ≡ s
unfolding get_string put_string
get_string-put_string name s [] h = absurd (false≢true h)
get_string-put_string name s ((k, string_field t) ∷ fields) h = elim (Bool-cases (k == name)) [
  | inl e ↦ rw (e, get_string, e) refl
  | inr e ↦ rw (e, get_string, e) (get_string-put_string name s fields (rw (has_string, e) at h))
]
get_string-put_string name s ((k, (int64_field i)) ∷ fields) h =
    get_string-put_string name s fields h
get_string-put_string name s ((k, (int32_field i)) ∷ fields) h =
    get_string-put_string name s fields h
get_string-put_string name s ((k, (bool_field b)) ∷ fields) h =
    get_string-put_string name s fields h
get_string-put_string name s ((k, (float_field x)) ∷ fields) h =
    get_string-put_string name s fields h
get_string-put_string name s ((k, (slice_field l)) ∷ fields) h =
    get_string-put_string name s fields h
get_string-put_string name s ((k, map_field) ∷ fields) h = get_string-put_string name s fields h
get_string-put_string name s ((k, (other_field o)) ∷ fields) h =
    get_string-put_string name s fields h

of_negation : (b : Bool) → not b ≡ false → b ≡ true
of_negation true h = refl
of_negation false h = sym h

-- an optimistic configuration has the scheduler `parallel`
force_parallel-get_string :
    (config : List (String × Field))
    → has_string "GroupScheduler" (shape config) ≡ true
    → get_string "CompletionStrategy" (force_parallel config) ≡ optimistic
    → get_string "GroupScheduler" (force_parallel config) ≡ parallel
unfolding force_parallel
force_parallel-get_string config has strategy =
    elim (Bool-cases (
      get_string "CompletionStrategy" config == optimistic
      && not (get_string "GroupScheduler" config == parallel))) [
        | inl e ↦ rw e (get_string-put_string "GroupScheduler" parallel config has)
        | inr e ↦
            let kept : get_string "CompletionStrategy" config ≡ optimistic =
              rw (force_parallel, e) at strategy in
            let is_optimistic : (get_string "CompletionStrategy" config == optimistic) ≡ true =
              (eq_iff _ optimistic).1 kept in
            let no_other : not (get_string "GroupScheduler" config == parallel) ≡ false =
              rw is_optimistic at e in
            rw e ((eq_iff (get_string "GroupScheduler" config) parallel).0 (of_negation _ no_other))
      ]

-- Where a configuration was loaded from a struct with a string GroupScheduler, its CompletionStrategy is
-- optimistic, and the worker has its scheduler from it, ExecuteTask ends, whatever the file and the
-- environment name as scheduler: one level of recursion is enough.
pub optimistic_ends :
    {S B : Type 0} (parsers : Parsers) (env : String → String)
    (decoded config : List (String × Field)) (this : CmdWorker S B)
    → load_config parsers env decoded ≡ some config
    → has_string "GroupScheduler" (shape decoded) ≡ true
    → get_string "CompletionStrategy" config ≡ optimistic
    → this.group_scheduler ≡ get_string "GroupScheduler" config
    → (fuel : ℕ) (task : CamundaExternalTask) (caller : String) (w : World S)
    → (w' : World S) × (execute_task this (suc fuel) task caller w ≡ some w')
unfolding load_config is_sequential
optimistic_ends parsers env decoded config this loaded has strategy wired fuel task caller w =
    let (e, made, forced) =
      after_environment-eq-some (handle_environment_vars parsers env decoded) config loaded in
    let is_parallel : get_string "GroupScheduler" config ≡ parallel =
      subst (λ c. get_string "GroupScheduler" c ≡ parallel) forced
        (force_parallel-get_string e
          (ap (has_string "GroupScheduler")
              (handle_environment_vars-shape parsers env decoded e made)
            ∙ has)
          (ap (get_string "CompletionStrategy") forced ∙ strategy)) in
    let none_again : is_sequential this ≡ false = rw (wired ∙ is_parallel) refl in
    execute_task_ends this none_again fuel task caller w
