-- ===== src/Queue/UnitedQueue/Admin.antt =====
-- queue/uQueue.go: Create, Stat and Empty.
use uq.Prelude.{
  Bytes, codes, List, [], ◌∷◌, ◌++◌, map, Bool, false, Option, none, some, ℤ, pos, if◌then◌else◌,
  lookup, without, bytes_eq,
}
use uq.Utils.Errors.{
  Result, ok, err, Error, new_error, err_bad_key, err_bad_request, err_topic_existed,
}
use uq.Utils.Strings.{split_slash}
use uq.Queue.Deps.{Deps, World, Action, internal, lift, ◌>>=◌, ◌>>◌, set_data, register_topic}
use uq.Queue.LineData.{LineStat}
use uq.Queue.Topic.{
  Topic, Outcome, returns, blocks, export_head, export_tail, stat_line, empty_line,
}
use uq.Queue.Topic.Admin.{TopicStat, create_line, empty_topic, stat, remove_topic}
use uq.Queue.Topic.Keys.{key_topic_head, key_topic_tail}
use uq.Queue.UnitedQueue.{UnitedQueue, trim_key, with_topic, no_topic, parts_error}

abbrev pub storage_key_word : Bytes
storage_key_word = codes "UnitedQueueKey"

-- The Stat that Stat returns: of a topic or of a line.
pub data Stat : Type 0 where
  of_topic : TopicStat → Stat
  of_line : LineStat → Stat

abbrev pub Call : Type 0 → Type 0
Call S = UnitedQueue → World S → Outcome (Result Error (Unit {0}) × UnitedQueue × World S)

-- The result of a call on a topic, with the topic put back.
abbrev pub put_back :
    {S : Type 0}
    → Bytes
    → UnitedQueue
    → Outcome (Result Error (Unit {0}) × Topic × World S)
    → Outcome (Result Error (Unit {0}) × UnitedQueue × World S)
put_back name u (returns (r, t, w)) = returns (r, with_topic name t u, w)
put_back name u blocks = blocks

module _ {S : Type 0} (deps : Deps S) where
  unfoldable pub export_queue : UnitedQueue → Action S (Unit {0})
  export_queue u = do
    buf ← lift (
        internal (
          deps.marshal_queue
            (record { topics = map (λ ((name, t) : Bytes × Topic). name) u.topics })))
    set_data deps storage_key_word buf

  unfoldable pub blank_topic : Bytes → Bool → Topic
  blank_topic name persist = record {
    name = name;
    persist = persist;
    lines = [];
    head = 0;
    head_key = name ++ key_topic_head;
    tail = 0;
    tail_key = name ++ key_topic_tail;
    quit = false;
  }

  unfoldable pub new_topic : Bytes → Bool → Action S Topic
  unfolding blank_topic
  new_topic name persist = do
    let t = blank_topic name persist
    export_head deps t
    export_tail deps t
    lift (ok t)

  unfoldable pub create_topic :
      Bytes → Bool → Bool → UnitedQueue → World S → Result Error (Unit {0}) × UnitedQueue × World S
  create_topic name persist from_etcd u w = elim (lookup name u.topics) [
    | some _ ↦ (err (new_error err_topic_existed (codes "queue createTopic")), u, w)
    | none ↦
        let (r, w') = new_topic name persist w in
        elim r [
          | err e ↦ (err e, u, w')
          | ok t ↦
              let u' = with_topic name t u in
              let (r', w'') = export_queue u' w' in
              elim r' [
                | err e ↦
                    let (_, w₃) = remove_topic deps t w'' in
                    (err e, record u' { topics = without name u'.topics }, w₃)
                | ok _ ↦ (ok tt, u', if from_etcd then w'' else register_topic deps t.name w'')
              ]
        ]
  ]

  recycle_of : Bytes → Result Error ℤ
  recycle_of [] = ok (pos 0)
  recycle_of (b ∷ bs) = elim (deps.parse_duration (b ∷ bs)) [
    | ok d ↦ ok d
    | err e ↦ err (new_error err_bad_request e)
  ]

  create_line_in : Bytes → Bytes → ℤ → Bool → Option Topic → Call S
  create_line_in topic line recycle from_etcd none u w =
      returns (err (no_topic (codes "queue create")), u, w)
  create_line_in topic line recycle from_etcd (some t) u w =
      put_back topic u (create_line deps line recycle from_etcd t w)

  create_parts : List Bytes → Bytes → Bool → Call S
  unfolding recycle_of create_line_in
  create_parts ([] ∷ []) arg from_etcd u w =
      returns (err (new_error err_bad_key (codes "create topic is nil")), u, w)
  create_parts ([] ∷ line ∷ []) arg from_etcd u w =
      returns (err (new_error err_bad_key (codes "create topic is nil")), u, w)
  create_parts ((b ∷ bs) ∷ line ∷ []) arg from_etcd u w = elim (recycle_of arg) [
    | err e ↦ returns (err e, u, w)
    | ok recycle ↦ create_line_in (b ∷ bs) line recycle from_etcd (lookup (b ∷ bs) u.topics) u w
  ]
  create_parts ((b ∷ bs) ∷ []) arg from_etcd u w =
      returns (create_topic (b ∷ bs) (bytes_eq arg (codes "persist")) from_etcd u w)
  create_parts parts arg from_etcd u w =
      returns (err (parts_error (codes "create key parts error: ") parts), u, w)

  -- create, and Create with `from_etcd` false.
  unfoldable pub create : Bytes → Bytes → Bool → Call S
  unfolding create_parts
  create key arg from_etcd u w = create_parts (split_slash (trim_key key)) arg from_etcd u w

  stat_in : Option Bytes → Option Topic → Result Error Stat
  stat_in line none = err (no_topic (codes "queue stat"))
  stat_in none (some t) = ok (of_topic (stat deps t))
  stat_in (some line) (some t) = elim (stat_line deps line t) [
    | ok s ↦ ok (of_line s)
    | err e ↦ err e
  ]

  stat_parts : List Bytes → UnitedQueue → Result Error Stat
  unfolding stat_in
  stat_parts ([] ∷ []) u = err (new_error err_bad_key (codes "stat topic is nil"))
  stat_parts ([] ∷ line ∷ []) u = err (new_error err_bad_key (codes "stat topic is nil"))
  stat_parts ((b ∷ bs) ∷ line ∷ []) u = stat_in (some line) (lookup (b ∷ bs) u.topics)
  stat_parts ((b ∷ bs) ∷ []) u = stat_in none (lookup (b ∷ bs) u.topics)
  stat_parts parts u = err (parts_error (codes "empty key parts error: ") parts)

  -- Stat
  unfoldable pub queue_stat : Bytes → UnitedQueue → Result Error Stat
  unfolding stat_parts
  queue_stat key u = stat_parts (split_slash (trim_key key)) u

  empty_in :
      Bytes
      → Option Bytes
      → Option Topic
      → UnitedQueue
      → World S
      → Result Error (Unit {0}) × UnitedQueue × World S
  empty_in topic line none u w = (err (no_topic (codes "queue empty")), u, w)
  empty_in topic none (some t) u w =
      let (r, t', w') = empty_topic deps t w in (r, with_topic topic t' u, w')
  empty_in topic (some line) (some t) u w =
      let (r, t', w') = empty_line deps line t w in (r, with_topic topic t' u, w')

  empty_parts : List Bytes → UnitedQueue → World S → Result Error (Unit {0}) × UnitedQueue × World S
  unfolding empty_in
  empty_parts ([] ∷ []) u w = (err (new_error err_bad_key (codes "empty topic is nil")), u, w)
  empty_parts ([] ∷ line ∷ []) u w =
      (err (new_error err_bad_key (codes "empty topic is nil")), u, w)
  empty_parts ((b ∷ bs) ∷ line ∷ []) u w =
      empty_in (b ∷ bs) (some line) (lookup (b ∷ bs) u.topics) u w
  empty_parts ((b ∷ bs) ∷ []) u w = empty_in (b ∷ bs) none (lookup (b ∷ bs) u.topics) u w
  empty_parts parts u w = (err (parts_error (codes "empty key parts error: ") parts), u, w)

  -- Empty
  unfoldable pub queue_empty :
      Bytes → UnitedQueue → World S → Result Error (Unit {0}) × UnitedQueue × World S
  unfolding empty_parts
  queue_empty key u w = empty_parts (split_slash (trim_key key)) u w
