-- ===== src/Queue/Deps/DataLaws.antt =====
-- setData, getData and delData over a storage that keeps its laws.
use uq.Prelude.{
  ◌≡◌, refl, ap, ◌∙◌, Bytes, bytes_eq, bytes_eq_refl, false, inl, inr, Option, none, some,
}
use uq.Utils.Errors.{Result, ok, err, Error, Result-cases, new_error, err_internal_error}
use uq.Store.Interface.{Laws, Reliable}
use uq.Queue.Deps.{
  Deps, World, internal, set_data, get_data, del_data, EtcdRequest, request, register_line,
  unregister_line, register_topic, unregister_topic,
}

internal-ok : {A : Type 0} (r : Result Bytes A) (a : A) → internal r ≡ ok a → r ≡ ok a
internal-ok (ok b) a h = cc
internal-ok (err e) a h = cc

internal-err :
    {A : Type 0} (r : Result Bytes A) (e : Error) → internal r ≡ err e → (x : Bytes) × (r ≡ err x)
internal-err (ok b) e h = absurd (cc)
internal-err (err x) e h = (x, refl)

module _ {S : Type 0} (deps : Deps S) (laws : Laws deps.storage) where
  -- A write that succeeds is read back under its key.
  pub get_data-set_data :
      (k v : Bytes) (w : World S)
      → (set_data deps k v w).0 ≡ ok tt
      → get_data deps k (set_data deps k v w).1 ≡ ok v
  unfolding set_data get_data
  get_data-set_data k v w h =
      rw (laws.get-set k k v w.stored (internal-ok _ tt h), bytes_eq_refl k) refl

  -- Whether a write succeeds or not, the other keys keep their values.
  pub get_data-set_data_ne :
      (k j v : Bytes) (w : World S)
      → bytes_eq j k ≡ false
      → get_data deps j (set_data deps k v w).1 ≡ get_data deps j w
  unfolding set_data get_data
  get_data-set_data_ne k j v w n = elim (Result-cases (deps.storage.set k v w.stored).0) [
    | inl (u, e) ↦ ap internal (laws.get-set k j v w.stored e ∙ (rw n refl))
    | inr (x, e) ↦ ap internal (laws.get-set_err k j v x w.stored e)
  ]

  pub get_data-del_data_ne :
      (k j : Bytes) (w : World S)
      → bytes_eq j k ≡ false
      → get_data deps j (del_data deps k w).1 ≡ get_data deps j w
  unfolding del_data get_data
  get_data-del_data_ne k j w n = elim (Result-cases (deps.storage.del k w.stored).0) [
    | inl (u, e) ↦ ap internal (laws.get-del k j w.stored e ∙ (rw n refl))
    | inr (x, e) ↦ ap internal (laws.get-del_err k j x w.stored e)
  ]

  -- A deletion that fails changes no value.
  pub get_data-del_data_err :
      (k j : Bytes) (e : Error) (w : World S)
      → (del_data deps k w).0 ≡ err e
      → get_data deps j (del_data deps k w).1 ≡ get_data deps j w
  unfolding del_data get_data
  get_data-del_data_err k j e w h =
      let (x, f) = internal-err (deps.storage.del k w.stored).0 e h in
      ap internal (laws.get-del_err k j x w.stored f)

  -- A deleted key is not found.
  pub get_data-del_data :
      (k : Bytes) (w : World S)
      → (del_data deps k w).0 ≡ ok tt
      → get_data deps k (del_data deps k w).1 ≡ err (new_error err_internal_error laws.not_found)
  unfolding del_data get_data
  get_data-del_data k w h =
      rw (laws.get-del k k w.stored (internal-ok _ tt h), bytes_eq_refl k) refl

module _ {S : Type 0} (deps : Deps S) (reliable : Reliable deps.storage) where
  pub set_data_ok : (k v : Bytes) (w : World S) → (set_data deps k v w).0 ≡ ok tt
  unfolding set_data
  set_data_ok k v w = ap internal (reliable.set_ok k v w.stored)

  pub del_data_ok :
      (k v : Bytes) (w : World S) → get_data deps k w ≡ ok v → (del_data deps k w).0 ≡ ok tt
  unfolding del_data get_data
  del_data_ok k v w h = ap internal (reliable.del_ok k v w.stored (internal-ok _ v h))

module _ {S : Type 0} (deps : Deps S) where
  request_keeps :
      (make : Bytes → EtcdRequest) (etcd : Option Bytes) (k : Bytes) (w : World S)
      → get_data deps k (request deps make etcd w) ≡ get_data deps k w
  unfolding get_data
  request_keeps make none k w = refl
  request_keeps make (some e) k w = refl

  -- A request to etcd changes no value of the storage.
  pub get_data-register_line :
      (topic line recycle k : Bytes) (w : World S)
      → get_data deps k (register_line deps topic line recycle w) ≡ get_data deps k w
  unfolding register_line
  get_data-register_line topic line recycle k w = request_keeps _ deps.etcd k w

  pub get_data-unregister_line :
      (topic line k : Bytes) (w : World S)
      → get_data deps k (unregister_line deps topic line w) ≡ get_data deps k w
  unfolding unregister_line
  get_data-unregister_line topic line k w = request_keeps _ deps.etcd k w

  pub get_data-register_topic :
      (topic k : Bytes) (w : World S)
      → get_data deps k (register_topic deps topic w) ≡ get_data deps k w
  unfolding register_topic
  get_data-register_topic topic k w = request_keeps _ deps.etcd k w

  pub get_data-unregister_topic :
      (topic k : Bytes) (w : World S)
      → get_data deps k (unregister_topic deps topic w) ≡ get_data deps k w
  unfolding unregister_topic
  get_data-unregister_topic topic k w = request_keeps _ deps.etcd k w
