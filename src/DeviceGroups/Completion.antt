-- ===== src/DeviceGroups/Completion.antt =====
-- When a group is complete, what its completion returns, and what it leaves in the store.
use Prim.Native.String.{◌++◌}
use external_task_worker.Base.{
  ℕ, zero, suc, String, ◌≡◌, ◌≢◌, refl, true, false, Option, none, some, List, [], ◌∷◌,
  ◌++◌ as ◌++ᴸ◌, arith, if◌then◌else◌, eq_refl, get_elem?,
}
use external_task_worker.Result.{ok, err, err_not_fount}
use external_task_worker.Model.{Value}
use external_task_worker.Messages.{GroupTaskMetadata, GroupTaskMetadataElement}
use external_task_worker.World.{World}
use external_task_worker.DeviceGroups.Db.{IsReliable}
use external_task_worker.DeviceGroups.Storage.{
  DeviceGroups, IsCodec, metadata_key_prefix, result_key_prefix, get_group_metadata,
}
use external_task_worker.DeviceGroups.Reliable.{db_set_lem, item}
use external_task_worker.DeviceGroups.Results.{
  process_response, is_finished, get_task_results, is_empty,
}
use external_task_worker.DeviceGroups.Collect.{
  Results, Holds, HasGroup, values, unanswered, get_metadata_lem,
}
use external_task_worker.DeviceGroups.Responses.{
  with_result, success, result-meta, any_touches, members, after_write, process_response_lem,
  stored_HasGroup, clear_task_data_view,
}

is_empty_of : {A : Type 0} (xs : List A) → xs ≡ [] → is_empty xs ≡ true
is_empty_of xs e = rw e

pub not_empty_of : {A : Type 0} (xs : List A) → xs ≢ [] → is_empty xs ≡ false
not_empty_of [] h = absurd (h refl)
not_empty_of (x ∷ xs) h = refl

touches_member :
    (es fs : List GroupTaskMetadataElement) (i : ℕ) (e : GroupTaskMetadataElement)
    → get_elem? es i ≡ some e
    → any_touches (es ++ᴸ fs) (metadata_key_prefix ++ e.task.id) ≡ true
unfolding any_touches
touches_member [] fs i e h = cc
touches_member (x ∷ es) fs zero e h = ground (arith, eq_refl (metadata_key_prefix ++ x.task.id))
touches_member (x ∷ es) fs (suc i) e h = rw (touches_member es fs i e h) (ground arith)

module _ {S B : Type 0} (this : DeviceGroups S B) (view : S → String → Option B)
    (reliable : IsReliable this.db view) (code : IsCodec this.sub_result_codec) where
  -- On a reliable store, a response after which no sub-task of its group lacks a result returns the
  -- group's parent, the values of all results that did not fail, in the order of the sub-tasks, and
  -- `finished`; afterwards the metadata, result and last-call keys of every member of the group are
  -- gone, and every other key is as the writing of the result left it.
  pub process_response-completes :
      (id : String) (v : Value) (w : World S) (res : Results) (meta : GroupTaskMetadata)
      → Holds this view reliable w.store res
      → HasGroup this view reliable w.store id meta
      → HasGroup this view reliable w.store meta.parent.task.id meta
      → unanswered (with_result id (success v) res) meta.children ≡ []
      → ((process_response this id v w).0
          ≡ ok (meta.parent, values (with_result id (success v) res) meta.children, true))
        × ((k : String)
            → view (process_response this id v w).1.store k ≡ (
                if any_touches (members meta) k
                then none
                else view (after_write this view reliable code id v w).store k))
  process_response-completes id v w res meta h m p e =
      let done = is_empty_of (unanswered (with_result id (success v) res) meta.children) e in
      rw (process_response_lem this view reliable code id v w res meta h m) (
        rw done (
          refl,
          λ k.
              clear_task_data_view this view reliable meta.parent.task.id meta
                (after_write this view reliable code id v w) k
                (stored_HasGroup this view reliable code id v w meta.parent.task.id meta p),
        ))

  -- On a reliable store, a response after which some sub-task still lacks a result returns the
  -- values so far and not `finished`, and all it changes is the result that it writes.
  pub process_response-waits :
      (id : String) (v : Value) (w : World S) (res : Results) (meta : GroupTaskMetadata)
      → Holds this view reliable w.store res
      → HasGroup this view reliable w.store id meta
      → unanswered (with_result id (success v) res) meta.children ≢ []
      → process_response this id v w ≡ (
        ok (meta.parent, values (with_result id (success v) res) meta.children, false),
        after_write this view reliable code id v w,
      )
  process_response-waits id v w res meta h m n =
      let more = not_empty_of (unanswered (with_result id (success v) res) meta.children) n in
      rw (process_response_lem this view reliable code id v w res meta h m) (rw more)

  no_group :
      (id : String) (v : Value) (w : World S)
      → view w.store (metadata_key_prefix ++ id) ≡ none
      → get_group_metadata this id (after_write this view reliable code id v w)
        ≡ (err err_not_fount, after_write this view reliable code id v w)
  no_group id v w h =
      get_metadata_lem this view reliable (after_write this view reliable code id v w) id
        (err err_not_fount)
        (rw (
          reliable.set_view
              (item this view reliable (result_key_prefix ++ id) (code.encode (success v))) w.store
              (metadata_key_prefix ++ id),
          result-meta id id,
          h,
        ))

  pub process_response_unknown :
      (id : String) (v : Value) (w : World S)
      → view w.store (metadata_key_prefix ++ id) ≡ none
      → process_response this id v w
        ≡ (err err_not_fount, after_write this view reliable code id v w)
  unfolding process_response is_finished get_task_results
  process_response_unknown id v w h =
      rw
        (db_set_lem this view reliable this.sub_result_codec code (result_key_prefix ++ id)
          (success v) w)
        (rw (no_group id v w h))

  -- On a reliable store, once a response has completed a group, every later response for one of the
  -- group's sub-tasks, its own repetition included, is answered by ErrNotFount, and changes nothing but
  -- the result that it writes, as long as the store is as the completion left it: no group is
  -- completed twice.
  pub process_response_late :
      (id : String) (v : Value) (w : World S) (res : Results) (meta : GroupTaskMetadata)
      → Holds this view reliable w.store res
      → HasGroup this view reliable w.store id meta
      → HasGroup this view reliable w.store meta.parent.task.id meta
      → unanswered (with_result id (success v) res) meta.children ≡ []
      → (i : ℕ) (sub : GroupTaskMetadataElement) (late : Value) (w' : World S)
      → get_elem? meta.children i ≡ some sub
      → w'.store ≡ (process_response this id v w).1.store
      → process_response this sub.task.id late w'
        ≡ (err err_not_fount, after_write this view reliable code sub.task.id late w')
  process_response_late id v w res meta h m p e i sub late w' at same =
      process_response_unknown sub.task.id late w' (
        rw (
          same,
          (process_response-completes id v w res meta h m p e).1
              (metadata_key_prefix ++ sub.task.id),
          touches_member meta.children (meta.parent ∷ []) i sub at,
        ))
