-- ===== src/DeviceGroups/Responses.antt =====
-- `ProcessResponse` on a reliable store: a response completes its group exactly when no sub-task of
-- the group is left without a result, and a completed group is forgotten.
use Prim.Native.String.{◌++◌}
use external_task_worker.Base.{
  String, ◌≡◌, refl, Bool, false, Option, none, some, List, [], ◌∷◌, ◌++◌ as ◌++ᴸ◌, ◌||◌, ◌==◌,
  arith, if◌then◌else◌, inl, inr, Bool-cases,
}
use external_task_worker.Base.Text.{differ, first_code-append, ==-append}
use external_task_worker.Result.{ok}
use external_task_worker.Model.{Value}
use external_task_worker.Messages.{GroupTaskMetadata, GroupTaskMetadataElement}
use external_task_worker.World.{World}
use external_task_worker.DeviceGroups.Db.{IsReliable}
use external_task_worker.DeviceGroups.Storage.{
  DeviceGroups, IsCodec, SubResultWrapper, result_key_prefix, metadata_key_prefix, last_call_info,
}
use external_task_worker.DeviceGroups.Reliable.{db_set_lem, stored, item}
use external_task_worker.DeviceGroups.Results.{
  clear_element, clear_elements, clear_task_data, process_response, is_empty,
}
use external_task_worker.DeviceGroups.Collect.{
  Results, Holds, HasGroup, values, unanswered, get_metadata_lem, is_finished_lem,
}

-- the results after one more was written
abbrev pub with_result : String → SubResultWrapper → Results → Results
with_result id r res j = if id == j then some r else res j

abbrev pub success : Value → SubResultWrapper
success v = record { failed = false; value = v }

pub result-meta : (a b : String) → ((result_key_prefix ++ a) == (metadata_key_prefix ++ b)) ≡ false
result-meta a b =
    differ _ _ (rw (first_code-append "r" "esult." a, first_code-append "m" "eta." b) (omega arith))

-- the keys that clearing one element removes
abbrev pub touches : GroupTaskMetadataElement → String → Bool
touches e k =
    (metadata_key_prefix ++ e.task.id) == k
    || (result_key_prefix ++ e.task.id) == k
    || (last_call_info ++ e.task.id) == k

unfoldable pub any_touches : List GroupTaskMetadataElement → String → Bool
any_touches [] k = false
any_touches (e ∷ es) k = touches e k || any_touches es k

abbrev pub members : GroupTaskMetadata → List GroupTaskMetadataElement
members meta = meta.children ++ᴸ meta.parent ∷ []

module _ {S B : Type 0} (this : DeviceGroups S B) (view : S → String → Option B)
    (reliable : IsReliable this.db view) where
  clear_element_view :
      (e : GroupTaskMetadataElement) (w : World S) (k : String)
      → view (clear_element this e w).store k ≡ (if touches e k then none else view w.store k)
  unfolding clear_element
  clear_element_view e w k = simp reliable.delete_view (ground arith)

  pub clear_elements_view :
      (es : List GroupTaskMetadataElement) (w : World S) (k : String)
      → view (clear_elements this es w).store k
        ≡ (if any_touches es k then none else view w.store k)
  unfolding clear_elements any_touches
  clear_elements_view [] w k = refl
  clear_elements_view (e ∷ es) w k =
      rw (clear_elements_view es (clear_element this e w) k, clear_element_view e w k)
        (ground arith)

  pub clear_task_data_view :
      (id : String) (meta : GroupTaskMetadata) (w : World S) (k : String)
      → HasGroup this view reliable w.store id meta
      → view (clear_task_data this id w).store k
        ≡ (if any_touches (members meta) k then none else view w.store k)
  unfolding clear_task_data
  clear_task_data_view id meta w k m =
      rw (get_metadata_lem this view reliable w id (ok meta) m)
        (clear_elements_view (members meta) w k)

module _ {S B : Type 0} (this : DeviceGroups S B) (view : S → String → Option B)
    (reliable : IsReliable this.db view) (code : IsCodec this.sub_result_codec) where
  -- the world after the result of a sub-task was written
  abbrev pub after_write : String → Value → World S → World S
  after_write id v w =
      stored this view reliable (result_key_prefix ++ id) (code.encode (success v)) w

  stored_Holds :
      (id : String) (v : Value) (w : World S) (res : Results)
      → Holds this view reliable w.store res
      → Holds this view reliable (after_write id v w).store (with_result id (success v) res)
  stored_Holds id v w res h = record {
    at_id = λ j.
        rw
          (
            reliable.set_view
                (item this view reliable (result_key_prefix ++ id) (code.encode (success v)))
                w.store (result_key_prefix ++ j),
            ==-append result_key_prefix id j,
          )
          (elim (Bool-cases (id == j)) [
            | inl e ↦ rw e (code.unmarshal_encode (success v))
            | inr e ↦ rw e (h.at_id j)
          ]);
  }

  pub stored_HasGroup :
      (id : String) (v : Value) (w : World S) (j : String) (meta : GroupTaskMetadata)
      → HasGroup this view reliable w.store j meta
      → HasGroup this view reliable (after_write id v w).store j meta
  stored_HasGroup id v w j meta m =
      rw
        (
          reliable.set_view
              (item this view reliable (result_key_prefix ++ id) (code.encode (success v))) w.store
              (metadata_key_prefix ++ j),
          result-meta id j,
        )
        m

  abbrev clear_if : Bool → String → World S → World S
  clear_if b id w = if b then clear_task_data this id w else w

  pub process_response_lem :
      (id : String) (v : Value) (w : World S) (res : Results) (meta : GroupTaskMetadata)
      → Holds this view reliable w.store res
      → HasGroup this view reliable w.store id meta
      → let res' = with_result id (success v) res in
        let finished = is_empty (unanswered res' meta.children) in
        process_response this id v w ≡ (
          ok (meta.parent, values res' meta.children, finished),
          clear_if finished meta.parent.task.id (after_write id v w),
        )
  unfolding process_response
  process_response_lem id v w res meta h m =
      rw
        (db_set_lem this view reliable this.sub_result_codec code (result_key_prefix ++ id)
          (success v) w)
        (rw (
          is_finished_lem this view reliable (after_write id v w) (with_result id (success v) res)
            id meta (stored_Holds id v w res h) (stored_HasGroup id v w id meta m)))
