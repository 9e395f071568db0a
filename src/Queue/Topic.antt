-- ===== src/Queue/Topic.antt =====
-- queue/uTopic.go: a topic, its messages in the storage, and its lines. An operation takes the topic
-- and the world, and returns both; the lines are objects of the map `lines`, so a changed line is put
-- back under its name. Each operation is one step; clean, createLine and empty read or change some of
-- their fields without a common lock, and what another operation does in between is not modelled.
pub mod Admin
pub mod Clean
pub mod Keys
pub mod End
pub mod CleanSafe
pub mod CleanAll
pub mod PushLoop
pub mod Push
pub mod Sound
pub mod Keep
pub mod Empty
pub mod Removal
pub mod Preserve
pub mod Reach
pub mod Restart
pub mod Order
pub mod Owned
pub mod Frame
pub mod FrameSteps
pub mod Apart
pub mod LineKeys
pub mod Saved
pub mod Saving
pub mod Durable
use uq.Prelude.{
  ℕ, zero, suc, ◌+◌, ◌-◌, ◌/◌, ◌%◌, ◌^◌, Bytes, codes, List, [], ◌∷◌, ◌++◌, map, Bool, true, false,
  not, Option, none, some, ℤ, is_pos, ltb, leb, if◌then◌else◌, u64_mod, inc64, Dict, lookup, insert,
  without, length,
}
use uq.Utils.Errors.{Result, ok, err, Error, new_error, err_line_not_existed, err_line_existed}
use uq.Utils.Strings.{acatui}
use uq.Queue.Line.{Line, pop, m_pop, confirm}
use uq.Queue.Deps.{
  Deps, World, Action, TopicStore, internal, lift, and_then, ◌>>=◌, ◌>>◌, set_data, get_data,
  del_data, register_line, unregister_line,
}
use uq.Queue.LineData.{
  LineStat, key_line_recycle, export_line, export_recycle, line_stat, empty, remove,
}

-- `quit` is true once the channel is closed.
pub record Topic : Type 0 where
  pub name : Bytes
  pub persist : Bool
  pub lines : Dict Line
  pub head : ℕ
  pub head_key : Bytes
  pub tail : ℕ
  pub tail_key : Bytes
  pub quit : Bool

-- The outcome of a call: it returns, or it waits for ever for a lock that it holds itself.
pub data Outcome (A : Type 0) : Type 0 where
  returns : A → Outcome A
  blocks : Outcome A

-- utils.Acatui(t.name, ":", id)
unfoldable pub message_key : Bytes → ℕ → Bytes
unfolding acatui
message_key topic id = acatui topic (codes ":") id

-- The low `n` bytes of a number, least first: binary.LittleEndian.PutUint64 at 8.
unfoldable pub little_endian : ℕ → ℕ → Bytes
little_endian zero x = []
little_endian (suc n) x = (x % 256) ∷ little_endian n (x / 256)

-- What a line still needs: the messages from here on.
unfoldable pub line_end : Line → ℕ
line_end l = if is_pos l.recycle then l.ihead else l.head

-- The walk over the lines in getEnd, from `end`.
unfoldable pub lowest : ℕ → Dict Line → ℕ
unfolding line_end
lowest end [] = end
lowest end ((name, l) ∷ ls) = lowest (if ltb (line_end l) end then line_end l else end) ls

unfoldable pub end_of : ℕ → ℕ → Dict Line → ℕ
unfolding lowest
end_of head tail [] = head
end_of head tail (l ∷ ls) = lowest tail (l ∷ ls)

unfoldable pub get_end : Topic → ℕ
unfolding end_of
get_end t = end_of t.head t.tail t.lines

pub not_existed : Bytes → Error
not_existed = new_error err_line_not_existed

module _ {S : Type 0} (deps : Deps S) where
  -- t.getData, as the lines see it.
  unfoldable pub topic_data : Topic → World S → ℕ → Result Error Bytes
  unfolding message_key
  topic_data t w id = get_data deps (message_key t.name id) w

  unfoldable pub export_head : Topic → Action S (Unit {0})
  export_head t = set_data deps t.head_key (little_endian 8 t.head)

  unfoldable pub export_tail : Topic → Action S (Unit {0})
  export_tail t = set_data deps t.tail_key (little_endian 8 t.tail)

  unfoldable pub export_topic : Topic → Action S (Unit {0})
  export_topic t = do
    buf ← lift (
        internal (
          deps.marshal_topic (record {
            lines = map (λ ((name, l) : Bytes × Line). l.name) t.lines;
            persist = t.persist;
          })))
    set_data deps t.name buf

  -- push: the data first, then the tail; a tail that cannot be stored is taken back.
  unfoldable pub push : Bytes → Topic → World S → Result Error (Unit {0}) × Topic × World S
  push d t w =
      let (r, w') = set_data deps (message_key t.name t.tail) d w in
      elim r [
        | err e ↦ (err e, t, w')
        | ok _ ↦
            let t' : Topic = record t { tail = inc64 t.tail } in
            let (r', w'') = export_tail t' w' in
            elim r' [ err e ↦ (err e, t, w'') | ok _ ↦ (ok tt, t', w'') ]
      ]

  -- The loop of mPush.
  unfoldable pub m_push_loop :
      List Bytes → Topic → World S → Result Error (Unit {0}) × Topic × World S
  m_push_loop [] t w = (ok tt, t, w)
  m_push_loop (d ∷ ds) t w =
      let (r, w') = set_data deps (message_key t.name t.tail) d w in
      elim r [
        | err e ↦ (err e, t, w')
        | ok _ ↦ m_push_loop ds (record t { tail = inc64 t.tail }) w'
      ]

  -- The end of mPush, after its loop; `t` is the topic before. An error puts the old tail back.
  unfoldable pub m_push_end :
      Topic → Result Error (Unit {0}) × Topic × World S → Result Error (Unit {0}) × Topic × World S
  m_push_end t (err e, t', w') = (err e, record t' { tail = t.tail }, w')
  m_push_end t (ok _, t', w') =
      let (r', w'') = export_tail t' w' in
      elim r' [ err e ↦ (err e, record t' { tail = t.tail }, w'') | ok _ ↦ (ok tt, t', w'') ]

  unfoldable pub m_push : List Bytes → Topic → World S → Result Error (Unit {0}) × Topic × World S
  unfolding m_push_end
  m_push ds t w = m_push_end t (m_push_loop ds t w)

  -- The topic with the line `name` in a new state.
  abbrev pub with_line : Bytes → Line → Topic → Topic
  with_line name l t = record t { lines = insert name l t.lines }

  -- t.pop
  unfoldable pub topic_pop : Bytes → ℕ → Topic → World S → Result Error (ℕ × Bytes) × Topic
  topic_pop name now t w = elim (lookup name t.lines) [
    | none ↦ (err (not_existed (codes "topic pop")), t)
    | some l ↦ let (r, l') = pop (topic_data t w) t.tail now l in (r, with_line name l' t)
  ]

  unfoldable pub topic_m_pop :
      Bytes → ℕ → ℕ → Topic → World S → Result Error (List (ℕ × Bytes)) × Topic
  topic_m_pop name n now t w = elim (lookup name t.lines) [
    | none ↦ (err (not_existed (codes "topic mPop")), t)
    | some l ↦ let (r, l') = m_pop (topic_data t w) t.tail now n l in (r, with_line name l' t)
  ]

  unfoldable pub stat_line : Bytes → Topic → Result Error LineStat
  stat_line name t = elim (lookup name t.lines) [
    | none ↦ err (not_existed (codes "topic statLine"))
    | some l ↦ ok (line_stat deps t.name t.tail l)
  ]

  unfoldable pub empty_line : Bytes → Topic → World S → Result Error (Unit {0}) × Topic × World S
  empty_line name t w = elim (lookup name t.lines) [
    | none ↦ (err (not_existed (codes "topic emptyLine")), t, w)
    | some l ↦ let (r, l', w') = empty deps t.name t.tail l w in (r, with_line name l' t, w')
  ]

unfoldable pub topic_confirm : Bytes → ℕ → Topic → Result Error (Unit {0}) × Topic
topic_confirm name id t = elim (lookup name t.lines) [
  | none ↦ (err (not_existed (codes "topic confirm")), t)
  | some l ↦ let (r, l') = confirm id l in (r, record t { lines = insert name l' t.lines })
]
