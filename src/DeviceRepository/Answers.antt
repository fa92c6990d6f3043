-- ===== src/DeviceRepository/Answers.antt =====
-- lib/devicerepository/devicerepository.go: what the client answers, and leaves in its cache, where
-- the cache holds answers of the repository.
use Prim.Native.String.{◌++◌}
use text.Mathlib.TextLemmas.{append_cancel_left}
use external_task_worker.Base.{
  String, ◌≡◌, refl, sym, subst, ◌∙◌, true, false≢true, inl, inr, some, Option-cases,
}
use external_task_worker.Result.{Result, ok, err}
use external_task_worker.Model.{Device, DeviceType, DeviceGroup, Service, Protocol}
use external_task_worker.DeviceRepository.{
  Entry, token_entry, device_entry, device_type_entry, device_group_entry, protocol_entry,
  service_entry, Cache, IsCache, Server, Stored, tokens, devices, device_types, device_groups,
  protocols, is_valid, fetched, loaded, find_service, use_stored, get_token, get_device,
  get_protocol, get_device_type, get_device_group, uncached,
}

-- the ways in which an entry under a key can be what the repository answers to a token
pub data IsAnswer (server : Server) (token key : String) (e : Entry) : Type 0 where
  of_token :
      (user t : String)
      → key ≡ "user_token." ++ user
      → e ≡ token_entry t
      → (uncached server).get_token user ≡ ok t
      → IsAnswer server token key e
  of_device :
      (id : String) (d : Device)
      → key ≡ "device." ++ id
      → e ≡ device_entry d
      → server.devices token id ≡ ok d
      → IsAnswer server token key e
  of_protocol :
      (id : String) (p : Protocol)
      → key ≡ "protocol." ++ id
      → e ≡ protocol_entry p
      → server.protocols token id ≡ ok p
      → IsAnswer server token key e
  of_device_type :
      (id : String) (t : DeviceType)
      → key ≡ "device-type." ++ id
      → e ≡ device_type_entry t
      → server.device_types token id ≡ ok t
      → IsAnswer server token key e
  of_device_group :
      (id : String) (g : DeviceGroup)
      → key ≡ "device-group." ++ id
      → e ≡ device_group_entry g
      → server.device_groups token id ≡ ok g
      → IsAnswer server token key e
  of_service :
      (id type_id : String) (t : DeviceType) (s : Service)
      → key ≡ "service." ++ id
      → e ≡ service_entry s
      → server.device_types token type_id ≡ ok t
      → find_service id t.services ≡ some s
      → IsAnswer server token key e

module _ {A : Type 0} (t : Stored A) where
  loaded-fetched :
      (answer : Result A)
      → ((a : A) → t.unwrap (t.wrap a) ≡ some a)
      → loaded t (fetched t answer) ≡ answer
  loaded-fetched (ok a) wraps = rw (wraps a) refl
  loaded-fetched (err e) wraps = refl

  pub unwrap-is_valid : (e : Entry) → is_valid t e ≡ true → (a : A) × (t.unwrap e ≡ some a)
  unwrap-is_valid e valid = elim (Option-cases (t.unwrap e)) [
    | inl f ↦ absurd (false≢true (rw (is_valid, f) at valid))
    | inr found ↦ found
  ]

  fetched-eq-ok :
      (answer : Result A) (e : Entry)
      → fetched t answer ≡ ok e
      → (a : A) × (answer ≡ ok a) × (t.wrap a ≡ e)
  fetched-eq-ok (ok a) e h = (a, refl, cc)
  fetched-eq-ok (err x) e h = cc

module _ {C : Type 0} (cache : Cache C) (server : Server) (token : String) where
  -- every entry of the cache is an answer of the repository
  abbrev pub Agrees : C → Type 0
  Agrees s = (key : String) (e : Entry) → cache.view s key ≡ some e → IsAnswer server token key e

  module _ {A : Type 0} (t : Stored A) (is_cache : IsCache cache) (key : String) (answer : Result A)
      (s : C) where
    -- a value of the cache is the answer, so what is used is the answer
    use_stored_answer :
        ((a : A) → t.unwrap (t.wrap a) ≡ some a)
        → ((e : Entry) (a : A) → cache.view s key ≡ some e → t.unwrap e ≡ some a → answer ≡ ok a)
        → (use_stored cache server t key answer s).0 ≡ answer
    use_stored_answer wraps reads =
        elim (is_cache.use_answer key (fetched t answer) (is_valid t) s) [
          | inl (e, seen, valid, used) ↦
              let (a, found) = unwrap-is_valid t e valid in
              rw (used, loaded, found) (sym (reads e a seen found))
          | inr used ↦ rw used (loaded-fetched t answer wraps)
        ]

    use_stored-Agrees :
        ((a : A) → answer ≡ ok a → IsAnswer server token key (t.wrap a))
        → Agrees s
        → Agrees (use_stored cache server t key answer s).1
    use_stored-Agrees is_answer agrees k e seen =
        elim (is_cache.use_view key (fetched t answer) (is_valid t) s k e seen) [
          | inl old ↦ agrees k e old
          | inr (same, new) ↦
              let (a, found, wrapped) = fetched-eq-ok t answer e new in
              subst (λ k. IsAnswer server token k e) same
                (subst (IsAnswer server token key) wrapped (is_answer a found))
        ]

  module _ (is_cache : IsCache cache) (s : C) (agrees : Agrees s) where
    reads_device :
        (id : String) (e : Entry) (d : Device)
        → cache.view s ("device." ++ id) ≡ some e
        → devices.unwrap e ≡ some d
        → server.devices token id ≡ ok d
    reads_device id e d seen found = of_answer (agrees ("device." ++ id) e seen)
      where
        of_answer : IsAnswer server token ("device." ++ id) e → server.devices token id ≡ ok d
        of_answer (of_token user t k h a) = cc
        of_answer (of_device i c k h a) =
            subst (λ j. server.devices token j ≡ ok d) (sym (append_cancel_left "device." id i k))
              (a ∙ cc)
        of_answer (of_protocol i c k h a) = cc
        of_answer (of_device_type i c k h a) = cc
        of_answer (of_device_group i c k h a) = cc
        of_answer (of_service i j t r k h a b) = cc

    -- the answer is the repository's, and the cache agrees with it afterwards
    pub device_lem :
        (id : String)
        → ((get_device cache server token id s).0 ≡ (uncached server).get_device token id)
          × Agrees (get_device cache server token id s).1
    unfolding get_device uncached
    device_lem id = (
      use_stored_answer devices is_cache ("device." ++ id) (server.devices token id) s (λ a. refl)
          (reads_device id),
      use_stored-Agrees devices is_cache ("device." ++ id) (server.devices token id) s
          (λ a h. of_device id a refl refl h) agrees,
    )

    reads_protocol :
        (id : String) (e : Entry) (d : Protocol)
        → cache.view s ("protocol." ++ id) ≡ some e
        → protocols.unwrap e ≡ some d
        → server.protocols token id ≡ ok d
    reads_protocol id e d seen found = of_answer (agrees ("protocol." ++ id) e seen)
      where
        of_answer : IsAnswer server token ("protocol." ++ id) e → server.protocols token id ≡ ok d
        of_answer (of_token user t k h a) = cc
        of_answer (of_device i c k h a) = cc
        of_answer (of_protocol i c k h a) =
            subst (λ j. server.protocols token j ≡ ok d)
              (sym (append_cancel_left "protocol." id i k)) (a ∙ cc)
        of_answer (of_device_type i c k h a) = cc
        of_answer (of_device_group i c k h a) = cc
        of_answer (of_service i j t r k h a b) = cc

    -- the answer is the repository's, and the cache agrees with it afterwards
    pub protocol_lem :
        (id : String)
        → ((get_protocol cache server token id s).0 ≡ (uncached server).get_protocol token id)
          × Agrees (get_protocol cache server token id s).1
    unfolding get_protocol uncached
    protocol_lem id = (
      use_stored_answer protocols is_cache ("protocol." ++ id) (server.protocols token id) s
          (λ a. refl) (reads_protocol id),
      use_stored-Agrees protocols is_cache ("protocol." ++ id) (server.protocols token id) s
          (λ a h. of_protocol id a refl refl h) agrees,
    )

    reads_device_type :
        (id : String) (e : Entry) (d : DeviceType)
        → cache.view s ("device-type." ++ id) ≡ some e
        → device_types.unwrap e ≡ some d
        → server.device_types token id ≡ ok d
    reads_device_type id e d seen found = of_answer (agrees ("device-type." ++ id) e seen)
      where
        of_answer :
            IsAnswer server token ("device-type." ++ id) e → server.device_types token id ≡ ok d
        of_answer (of_token user t k h a) = cc
        of_answer (of_device i c k h a) = cc
        of_answer (of_protocol i c k h a) = cc
        of_answer (of_device_type i c k h a) =
            subst (λ j. server.device_types token j ≡ ok d)
              (sym (append_cancel_left "device-type." id i k)) (a ∙ cc)
        of_answer (of_device_group i c k h a) = cc
        of_answer (of_service i j t r k h a b) = cc

    -- the answer is the repository's, and the cache agrees with it afterwards
    pub device_type_lem :
        (id : String)
        → ((get_device_type cache server token id s).0 ≡ (uncached server).get_device_type token id)
          × Agrees (get_device_type cache server token id s).1
    unfolding get_device_type uncached
    device_type_lem id = (
      use_stored_answer device_types is_cache ("device-type." ++ id) (server.device_types token id)
          s (λ a. refl) (reads_device_type id),
      use_stored-Agrees device_types is_cache ("device-type." ++ id) (server.device_types token id)
          s (λ a h. of_device_type id a refl refl h) agrees,
    )

    reads_device_group :
        (id : String) (e : Entry) (d : DeviceGroup)
        → cache.view s ("device-group." ++ id) ≡ some e
        → device_groups.unwrap e ≡ some d
        → server.device_groups token id ≡ ok d
    reads_device_group id e d seen found = of_answer (agrees ("device-group." ++ id) e seen)
      where
        of_answer :
            IsAnswer server token ("device-group." ++ id) e → server.device_groups token id ≡ ok d
        of_answer (of_token user t k h a) = cc
        of_answer (of_device i c k h a) = cc
        of_answer (of_protocol i c k h a) = cc
        of_answer (of_device_type i c k h a) = cc
        of_answer (of_device_group i c k h a) =
            subst (λ j. server.device_groups token j ≡ ok d)
              (sym (append_cancel_left "device-group." id i k)) (a ∙ cc)
        of_answer (of_service i j t r k h a b) = cc

    -- the answer is the repository's, and the cache agrees with it afterwards
    pub device_group_lem :
        (id : String)
        → ((get_device_group cache server token id s).0
            ≡ (uncached server).get_device_group token id)
          × Agrees (get_device_group cache server token id s).1
    unfolding get_device_group uncached
    device_group_lem id = (
      use_stored_answer device_groups is_cache ("device-group." ++ id)
          (server.device_groups token id) s (λ a. refl) (reads_device_group id),
      use_stored-Agrees device_groups is_cache ("device-group." ++ id)
          (server.device_groups token id) s (λ a h. of_device_group id a refl refl h) agrees,
    )

    reads_token :
        (id : String) (e : Entry) (d : String)
        → cache.view s ("user_token." ++ id) ≡ some e
        → tokens.unwrap e ≡ some d
        → (uncached server).get_token id ≡ ok d
    reads_token id e d seen found = of_answer (agrees ("user_token." ++ id) e seen)
      where
        of_answer :
            IsAnswer server token ("user_token." ++ id) e → (uncached server).get_token id ≡ ok d
        of_answer (of_token i c k h a) =
            subst (λ j. (uncached server).get_token j ≡ ok d)
              (sym (append_cancel_left "user_token." id i k)) (a ∙ cc)
        of_answer (of_device i c k h a) = cc
        of_answer (of_protocol i c k h a) = cc
        of_answer (of_device_type i c k h a) = cc
        of_answer (of_device_group i c k h a) = cc
        of_answer (of_service i j t r k h a b) = cc

    -- the answer is the repository's, and the cache agrees with it afterwards
    pub token_lem :
        (id : String)
        → ((get_token cache server id s).0 ≡ (uncached server).get_token id)
          × Agrees (get_token cache server id s).1
    unfolding get_token uncached
    token_lem id = (
      use_stored_answer tokens is_cache ("user_token." ++ id) ((uncached server).get_token id) s
          (λ a. refl) (reads_token id),
      use_stored-Agrees tokens is_cache ("user_token." ++ id) ((uncached server).get_token id) s
          (λ a h. of_token id a refl refl h) agrees,
    )
