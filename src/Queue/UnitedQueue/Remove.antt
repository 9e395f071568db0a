-- ===== src/Queue/UnitedQueue/Remove.antt =====
-- queue/uQueue.go: Remove and Close; queue/uEtcd.go: what a node of etcd does to the queue.
use uq.Prelude.{
  Bytes, codes, List, [], ◌∷◌, ◌++◌, map, Bool, true, Option, none, some, if◌then◌else◌, Dict,
  lookup, without, ◌==◌,
}
use uq.Utils.Errors.{Result, ok, err, Error, new_error, err_bad_key}
use uq.Utils.Strings.{split_slash}
use uq.Queue.Deps.{Deps, World, unregister_topic}
use uq.Queue.Topic.{Topic, returns, export_topic}
use uq.Queue.Topic.Admin.{export_lines, remove_line, remove_topic}
use uq.Queue.UnitedQueue.{UnitedQueue, trim_key, with_topic, no_topic, parts_error}
use uq.Queue.UnitedQueue.Admin.{Call, put_back, export_queue, create}

module _ {S : Type 0} (deps : Deps S) where
  -- removeTopic: a queue that cannot be stored keeps the topic.
  unfoldable pub remove_topic_named :
      Bytes → Bool → UnitedQueue → World S → Result Error (Unit {0}) × UnitedQueue × World S
  remove_topic_named name from_etcd u w = elim (lookup name u.topics) [
    | none ↦ (err (no_topic (codes "queue remove")), u, w)
    | some t ↦
        let u' : UnitedQueue = record u { topics = without name u.topics } in
        let (r, w') = export_queue deps u' w in
        elim r [
          | err e ↦ (err e, with_topic name t u', w')
          | ok _ ↦
              let (_, w'') =
                remove_topic deps t (if from_etcd then w' else unregister_topic deps name w') in
              (ok tt, u', w'')
        ]
  ]

  remove_line_in : Bytes → Bytes → Bool → Option Topic → Call S
  remove_line_in topic line from_etcd none u w =
      returns (err (no_topic (codes "queue remove")), u, w)
  remove_line_in topic line from_etcd (some t) u w =
      put_back topic u (remove_line deps line from_etcd t w)

  remove_parts : List Bytes → Bool → Call S
  unfolding remove_line_in
  remove_parts ([] ∷ []) from_etcd u w =
      returns (err (new_error err_bad_key (codes "rmove topic is nil")), u, w)
  remove_parts ([] ∷ line ∷ []) from_etcd u w =
      returns (err (new_error err_bad_key (codes "rmove topic is nil")), u, w)
  remove_parts ((b ∷ bs) ∷ []) from_etcd u w = returns (remove_topic_named (b ∷ bs) from_etcd u w)
  remove_parts ((b ∷ bs) ∷ line ∷ []) from_etcd u w =
      remove_line_in (b ∷ bs) line from_etcd (lookup (b ∷ bs) u.topics) u w
  remove_parts parts from_etcd u w =
      returns (err (parts_error (codes "remove key parts error: ") parts), u, w)

  -- remove, and Remove with `from_etcd` false.
  unfoldable pub queue_remove : Bytes → Bool → Call S
  unfolding remove_parts
  queue_remove key from_etcd u w = remove_parts (split_slash (trim_key key)) from_etcd u w

  -- exportTopics: errors are logged.
  unfoldable pub export_topics : Dict Topic → World S → World S
  export_topics [] w = w
  export_topics ((name, t) ∷ ts) w =
      export_topics ts (export_topic deps t (export_lines deps t w)).1

  -- Close
  unfoldable pub queue_close : UnitedQueue → World S → UnitedQueue × World S
  unfolding export_topics
  queue_close u w =
      let ts = map (λ ((name, t) : Bytes × Topic). (name, record t { quit = true })) u.topics in
      let w' = export_topics ts w in
      (record { topics = ts }, record w' { stored = deps.storage.close w'.stored })

  -- strings.TrimPrefix
  unfoldable pub trim_prefix : Bytes → Bytes → Bytes → Bytes
  trim_prefix whole [] s = s
  trim_prefix whole (p ∷ ps) [] = whole
  trim_prefix whole (p ∷ ps) (c ∷ s) = if p == c then trim_prefix whole ps s else whole

  -- The name that a node's key has below `/etcd_key/topics/`.
  unfoldable pub node_name : Bytes → Bytes → Bytes
  unfolding trim_prefix
  node_name etcd_key key = trim_prefix key (codes "/" ++ (etcd_key ++ codes "/topics/")) key

  unfoldable pub node_create : Bytes → Bytes → Bytes → Call S
  node_create etcd_key key value = create deps (node_name etcd_key key) value true

  unfoldable pub node_remove : Bytes → Bytes → Call S
  node_remove etcd_key key = queue_remove (node_name etcd_key key) true
