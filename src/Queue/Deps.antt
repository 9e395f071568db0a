-- ===== src/Queue/Deps.antt =====
-- What a UnitedQueue is built over: its storage, the protobuf code of its records, the text form of
-- durations, and the etcd client. queue/uQueue.go and queue/uEtcd.go call them through the functions
-- at the end of this file.
pub mod DataLaws
use uq.Prelude.{ℕ, Bytes, codes, List, ◌∷◌, ◌++◌, Option, none, some, ℤ, Bool}
use uq.Utils.Errors.{Result, ok, err, Error, new_error, err_internal_error}
use uq.Store.Interface.{Storage}
use uq.Queue.Line.{Message}

-- UnitedLineStore
pub record LineStore : Type 0 where
  pub head : ℕ
  pub ihead : ℕ
  pub inflights : List Message

-- UnitedTopicStore
pub record TopicStore : Type 0 where
  pub lines : List Bytes
  pub persist : Bool

-- UnitedQueueStore
pub record QueueStore : Type 0 where
  pub topics : List Bytes

-- The requests that registerTopic, unRegisterTopic, registerLine and unRegisterLine send.
pub data EtcdRequest : Type 0 where
  create_dir : Bytes → EtcdRequest
  delete_dir : Bytes → EtcdRequest
  set_key : Bytes → Bytes → EtcdRequest
  delete_key : Bytes → EtcdRequest

-- An error of these libraries is its text; `parse_uint_error` is that of strconv.ParseUint on a text
-- that it refuses. `etcd` is the key prefix `etcdKey` if there is a client.
pub record Deps (S : Type 0) : Type 0 where
  pub storage : Storage S
  pub marshal_line : LineStore → Result Bytes Bytes
  pub marshal_topic : TopicStore → Result Bytes Bytes
  pub marshal_queue : QueueStore → Result Bytes Bytes
  pub unmarshal_line : Bytes → Result Bytes LineStore
  pub unmarshal_topic : Bytes → Result Bytes TopicStore
  pub unmarshal_queue : Bytes → Result Bytes QueueStore
  pub duration_string : ℤ → Bytes
  pub parse_duration : Bytes → Result Bytes ℤ
  pub parse_uint_error : Bytes → Bytes
  pub etcd : Option Bytes

-- The content of the storage, and the requests sent to etcd so far, newest first. What etcd answers
-- is never used by a caller.
pub record World (S : Type 0) : Type 0 where
  pub stored : S
  pub sent : List EtcdRequest

-- The error of a Go library becomes the cause of an ErrInternalError.
abbrev pub internal : {A : Type 0} → Result Bytes A → Result Error A
internal (ok a) = ok a
internal (err e) = err (new_error err_internal_error e)

-- An operation that may fail; what it has written before stays written.
abbrev pub Action : Type 0 → Type 0 → Type 0
Action S A = World S → Result Error A × World S

abbrev pub and_then :
    {S A B : Type 0} → Result Error A × World S → (A → Action S B) → Result Error B × World S
and_then (ok a, w) f = f a w
and_then (err e, w) f = (err e, w)

infixl 5 ◌>>=◌ ◌>>◌
abbrev pub ◌>>=◌ : {S A B : Type 0} → Action S A → (A → Action S B) → Action S B
◌>>=◌ m f w = and_then (m w) f

abbrev pub ◌>>◌ : {S A B : Type 0} → Action S A → Action S B → Action S B
m >> k = m >>= λ _. k

abbrev pub lift : {S A : Type 0} → Result Error A → Action S A
lift r w = (r, w)

module _ {S : Type 0} (deps : Deps S) where
  unfoldable pub set_data : Bytes → Bytes → Action S (Unit {0})
  set_data key bytes w =
      let (r, s) = deps.storage.set key bytes w.stored in (internal r, record w { stored = s })

  unfoldable pub get_data : Bytes → World S → Result Error Bytes
  get_data key w = internal (deps.storage.get key w.stored)

  unfoldable pub del_data : Bytes → Action S (Unit {0})
  del_data key w =
      let (r, s) = deps.storage.del key w.stored in (internal r, record w { stored = s })

  abbrev request : (Bytes → EtcdRequest) → Option Bytes → World S → World S
  request make none w = w
  request make (some etcd_key) w = record w { sent = make etcd_key ∷ w.sent }

  unfoldable pub register_topic : Bytes → World S → World S
  register_topic topic = request (λ k. create_dir (k ++ (codes "/topics/" ++ topic))) deps.etcd

  unfoldable pub unregister_topic : Bytes → World S → World S
  unregister_topic topic = request (λ k. delete_dir (k ++ (codes "/topics/" ++ topic))) deps.etcd

  unfoldable pub register_line : Bytes → Bytes → Bytes → World S → World S
  register_line topic line recycle =
      request (λ k. set_key (k ++ (codes "/topics/" ++ (topic ++ (codes "/" ++ line)))) recycle)
        deps.etcd

  unfoldable pub unregister_line : Bytes → Bytes → World S → World S
  unregister_line topic line =
      request (λ k. delete_key (k ++ (codes "/topics/" ++ (topic ++ (codes "/" ++ line)))))
        deps.etcd
