-- ===== src/Queue/UnitedQueue.antt =====
-- queue/uQueue.go: the queue over its topics. A key is `topic`, `topic/line` or `topic/line/id`, with
-- or without a slash at each end. A topic is an object of the map `topics`, so a changed topic is put
-- back under its name.
pub mod Admin
pub mod Remove
pub mod Load
pub mod RoundTrip
pub mod Delivery
pub mod LoadTopic
pub mod SaveAll
pub mod Reload
pub mod Restart
pub mod Recover
pub mod Create
pub mod Whole
pub mod Discard
pub mod Change
pub mod Creation
pub mod Removing
pub mod Runs
use uq.Prelude.{
  ℕ, zero, suc, ◌+◌, ◌==◌, Bytes, codes, List, [], ◌∷◌, ◌++◌, map, Bool, true, false, Option, none,
  some, if◌then◌else◌, Dict, lookup, insert, without, length, bytes_eq,
}
use uq.Utils.Errors.{
  Result, ok, err, Error, new_error, err_bad_key, err_bad_request, err_topic_not_existed,
}
use uq.Utils.Strings.{
  acatui, itoa_quick, parse_uint, format_uint, trim_slash_prefix, trim_slash_suffix, split_slash,
}
use uq.Queue.Deps.{Deps, World}
use uq.Queue.Topic.{Topic, topic_pop, topic_m_pop, topic_confirm, push, m_push}

pub record UnitedQueue : Type 0 where
  pub topics : Dict Topic

-- strings.TrimSuffix(strings.TrimPrefix(key, "/"), "/")
unfoldable pub trim_key : Bytes → Bytes
trim_key key = trim_slash_suffix (trim_slash_prefix key)

-- A queue with the topic `name` in a new state.
abbrev pub with_topic : Bytes → Topic → UnitedQueue → UnitedQueue
with_topic name t u = record u { topics = insert name t u.topics }

pub no_topic : Bytes → Error
no_topic = new_error err_topic_not_existed

-- ErrBadKey with the number of parts behind its cause.
pub parts_error : Bytes → List Bytes → Error
parts_error text parts = new_error err_bad_key (text ++ itoa_quick (length parts))

-- The index of the first message with no bytes.
unfoldable pub first_empty : ℕ → List Bytes → Option ℕ
first_empty i [] = none
first_empty i ([] ∷ ds) = some i
first_empty i ((b ∷ bs) ∷ ds) = first_empty (i + 1) ds

module _ {S : Type 0} (deps : Deps S) where
  push_to :
      Bytes
      → Bytes
      → Option Topic
      → UnitedQueue
      → World S
      → Result Error (Unit {0}) × UnitedQueue × World S
  push_to key d none u w = (err (no_topic (codes "queue push")), u, w)
  push_to key d (some t) u w = let (r, t', w') = push deps d t w in (r, with_topic key t' u, w')

  -- Push
  unfoldable pub queue_push :
      Bytes → Bytes → UnitedQueue → World S → Result Error (Unit {0}) × UnitedQueue × World S
  unfolding push_to
  queue_push key [] u w = (err (new_error err_bad_request (codes "message has no content")), u, w)
  queue_push key (b ∷ bs) u w = let k = trim_key key in push_to k (b ∷ bs) (lookup k u.topics) u w

  m_push_to :
      Bytes
      → List Bytes
      → Option Topic
      → UnitedQueue
      → World S
      → Result Error (Unit {0}) × UnitedQueue × World S
  m_push_to key ds none u w = (err (no_topic (codes "queue multiPush")), u, w)
  m_push_to key ds (some t) u w =
      let (r, t', w') = m_push deps ds t w in (r, with_topic key t' u, w')

  -- MultiPush
  unfoldable pub multi_push :
      Bytes → List Bytes → UnitedQueue → World S → Result Error (Unit {0}) × UnitedQueue × World S
  unfolding m_push_to
  multi_push key ds u w = elim (first_empty 0 ds) [
    | some i ↦ (
      err (
          new_error err_bad_request
            (codes "message " ++ (format_uint i ++ codes " has no content"))),
      u,
      w,
    )
    | none ↦ let k = trim_key key in m_push_to k ds (lookup k u.topics) u w
  ]

  pop_from :
      Bytes
      → Bytes
      → Bytes
      → ℕ
      → Option Topic
      → UnitedQueue
      → World S
      → Result Error (Bytes × Bytes) × UnitedQueue
  pop_from key topic line now none u w = (err (no_topic (codes "queue pop")), u)
  pop_from key topic line now (some t) u w =
      let (r, t') = topic_pop deps line now t w in
      (
        elim r [ err e ↦ err e | ok (id, d) ↦ ok (acatui key (codes "/") id, d) ],
        with_topic topic t' u,
      )

  pop_parts :
      Bytes → List Bytes → ℕ → UnitedQueue → World S → Result Error (Bytes × Bytes) × UnitedQueue
  unfolding pop_from
  pop_parts key (topic ∷ line ∷ []) now u w =
      pop_from key topic line now (lookup topic u.topics) u w
  pop_parts key parts now u w = (err (parts_error (codes "pop key parts error: ") parts), u)

  -- Pop returns the key of the message, `topic/line/id`, and its bytes.
  unfoldable pub queue_pop :
      Bytes → ℕ → UnitedQueue → World S → Result Error (Bytes × Bytes) × UnitedQueue
  unfolding pop_parts
  queue_pop key now u w = let k = trim_key key in pop_parts k (split_slash k) now u w

  multi_pop_from :
      Bytes
      → Bytes
      → Bytes
      → ℕ
      → ℕ
      → Option Topic
      → UnitedQueue
      → World S
      → Result Error (List (Bytes × Bytes)) × UnitedQueue
  multi_pop_from key topic line n now none u w = (err (no_topic (codes "queue multiPop")), u)
  multi_pop_from key topic line n now (some t) u w =
      let (r, t') = topic_m_pop deps line n now t w in
      (
        elim r [
          | err e ↦ err e
          | ok got ↦ ok (map (λ ((id, d) : ℕ × Bytes). (acatui key (codes "/") id, d)) got)
        ],
        with_topic topic t' u,
      )

  multi_pop_parts :
      Bytes
      → List Bytes
      → ℕ
      → ℕ
      → UnitedQueue
      → World S
      → Result Error (List (Bytes × Bytes)) × UnitedQueue
  unfolding multi_pop_from
  multi_pop_parts key (topic ∷ line ∷ []) n now u w =
      multi_pop_from key topic line n now (lookup topic u.topics) u w
  multi_pop_parts key parts n now u w =
      (err (parts_error (codes "mPop key parts error: ") parts), u)

  -- MultiPop
  unfoldable pub multi_pop :
      Bytes → ℕ → ℕ → UnitedQueue → World S → Result Error (List (Bytes × Bytes)) × UnitedQueue
  unfolding multi_pop_parts
  multi_pop key n now u w = let k = trim_key key in multi_pop_parts k (split_slash k) n now u w

  confirm_in :
      Bytes → Bytes → ℕ → Option Topic → UnitedQueue → Result Error (Unit {0}) × UnitedQueue
  confirm_in topic line id none u = (err (no_topic (codes "queue confirm")), u)
  confirm_in topic line id (some t) u =
      let (r, t') = topic_confirm line id t in (r, with_topic topic t' u)

  confirm_id :
      Bytes → Bytes → Bytes → Option ℕ → UnitedQueue → Result Error (Unit {0}) × UnitedQueue
  unfolding confirm_in
  confirm_id topic line text none u = (
    err (
        new_error err_bad_key (codes "confirm key parse id error: " ++ deps.parse_uint_error text)),
    u,
  )
  confirm_id topic line text (some id) u = confirm_in topic line id (lookup topic u.topics) u

  confirm_parts : List Bytes → UnitedQueue → Result Error (Unit {0}) × UnitedQueue
  unfolding confirm_id
  confirm_parts (topic ∷ line ∷ id ∷ []) u = confirm_id topic line id (parse_uint id) u
  confirm_parts parts u = (err (parts_error (codes "confirm key parts error: ") parts), u)

  -- Confirm
  unfoldable pub queue_confirm : Bytes → UnitedQueue → Result Error (Unit {0}) × UnitedQueue
  unfolding confirm_parts
  queue_confirm key u = confirm_parts (split_slash (trim_key key)) u

  -- MultiConfirm: one result for each key, in order.
  unfoldable pub multi_confirm :
      List Bytes → UnitedQueue → List (Result Error (Unit {0})) × UnitedQueue
  multi_confirm [] u = ([], u)
  multi_confirm (key ∷ keys) u =
      let (r, u') = queue_confirm key u in let (rs, u'') = multi_confirm keys u' in (r ∷ rs, u'')
