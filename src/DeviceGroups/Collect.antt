-- ===== src/DeviceGroups/Collect.antt =====
-- What a reliable store makes of the results of a group: `getTaskResults` and `isFinished` read
-- exactly the results that were written.
use Prim.Native.String.{◌++◌}
use external_task_worker.Base.{
  String, ◌≡◌, refl, ap, Option, none, some, List, [], ◌∷◌, arith, if◌then◌else◌, ◌∙◌, Option-cases,
  inl, inr,
}
use external_task_worker.Result.{Result, ok, err, err_not_fount, and_then}
use external_task_worker.Model.{Value}
use external_task_worker.Messages.{GroupTaskMetadata, GroupTaskMetadataElement}
use external_task_worker.World.{World}
use external_task_worker.DeviceGroups.Db.{IsReliable, found}
use external_task_worker.DeviceGroups.Storage.{
  DeviceGroups, SubResultWrapper, get_sub_result, get_group_metadata, result_key_prefix,
  metadata_key_prefix,
}
use external_task_worker.DeviceGroups.Reliable.{db_get_lem}
use external_task_worker.DeviceGroups.Results.{gather, get_task_results, is_finished, is_empty}

-- The answer of a typed read, given what is stored.
abbrev pub answer : {A : Type 0} → Option A → Result A
answer none = err err_not_fount
answer (some a) = ok a

-- The results of a group as the specification sees them: a function of the sub-task's id.
abbrev pub Results : Type 0
Results = String → Option SubResultWrapper

-- The values of the results that are there and did not fail, in the order of the sub-tasks.
unfoldable pub values : Results → List GroupTaskMetadataElement → List Value
values res [] = []
values res (sub ∷ subs) = elim (res sub.task.id) [
  | none ↦ values res subs
  | some r ↦ if r.failed then values res subs else r.value ∷ values res subs
]

-- The sub-tasks without a result.
unfoldable pub unanswered : Results → List GroupTaskMetadataElement → List GroupTaskMetadataElement
unanswered res [] = []
unanswered res (sub ∷ subs) = elim (res sub.task.id) [
  | none ↦ sub ∷ unanswered res subs
  | some r ↦ unanswered res subs
]

module _ {S B : Type 0} (this : DeviceGroups S B) (view : S → String → Option B)
    (reliable : IsReliable this.db view) where
  -- the store holds these results, and nothing that is no result, under the result keys
  pub record Holds (s : S) (res : Results) : Type 0 where
    pub at_id :
        (id : String)
        → and_then this.sub_result_codec.unmarshal (found (view s (result_key_prefix ++ id)))
          ≡ answer (res id)

  get_sub_result_lem :
      (w : World S) (res : Results)
      → Holds w.store res
      → (id : String) → get_sub_result this id w ≡ (answer (res id), w)
  get_sub_result_lem w res h id =
      db_get_lem this view reliable this.sub_result_codec (result_key_prefix ++ id) w
      ∙ ap (λ r. (r, w)) (h.at_id id)

  pub gather_lem :
      (w : World S) (res : Results)
      → Holds w.store res
      → (subs : List GroupTaskMetadataElement)
      → gather this subs w
        ≡ (record { results = values res subs; missing = unanswered res subs; error = none }, w)
  unfolding gather values unanswered
  gather_lem w res h [] = refl
  gather_lem w res h (sub ∷ subs) = elim (Option-cases (res sub.task.id)) [
    | inl e ↦ rw (get_sub_result_lem w res h sub.task.id, e, gather_lem w res h subs) (ground arith)
    | inr (r, e) ↦
        rw (get_sub_result_lem w res h sub.task.id, e, gather_lem w res h subs) (ground arith)
  ]

  pub get_metadata_lem :
      (w : World S) (id : String) (r : Result GroupTaskMetadata)
      → and_then this.metadata_codec.unmarshal (found (view w.store (metadata_key_prefix ++ id)))
        ≡ r
      → get_group_metadata this id w ≡ (r, w)
  get_metadata_lem w id r h =
      db_get_lem this view reliable this.metadata_codec (metadata_key_prefix ++ id) w
      ∙ ap (λ r. (r, w)) h

  -- the group of a task
  abbrev pub HasGroup : S → String → GroupTaskMetadata → Type 0
  HasGroup s id meta =
      and_then this.metadata_codec.unmarshal (found (view s (metadata_key_prefix ++ id))) ≡ ok meta

  pub get_task_results_lem :
      (w : World S) (res : Results) (id : String) (meta : GroupTaskMetadata)
      → Holds w.store res
      → HasGroup w.store id meta
      → get_task_results this id w ≡ (
        ok (
          meta,
          record {
            results = values res meta.children;
            missing = unanswered res meta.children;
            error = none;
          },
        ),
        w,
      )
  unfolding get_task_results
  get_task_results_lem w res id meta h m =
      rw (get_metadata_lem w id (ok meta) m) (rw (gather_lem w res h meta.children))

  pub is_finished_lem :
      (w : World S) (res : Results) (id : String) (meta : GroupTaskMetadata)
      → Holds w.store res
      → HasGroup w.store id meta
      → is_finished this id w
        ≡ (ok (meta.parent, values res meta.children, is_empty (unanswered res meta.children)), w)
  unfolding is_finished
  is_finished_lem w res id meta h m = rw (get_task_results_lem w res id meta h m)
