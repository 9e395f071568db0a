-- ===== src/Queue/Topic/Saved.antt =====
-- queue/uTopic.go, queue/uLine.go: what a topic has in the storage while it runs, and how
-- this lasts when other keys change.
use uq.Prelude.{
  ℕ, ◌≤◌, ◌<◌, ◌≡◌, refl, subst, ◌∙◌, Bytes, [], ◌∷◌, ◌++◌, map, some, lookup, NodupKeys, u64_mod,
  append-nil, codes,
}
use uq.Utils.Errors.{ok}
use uq.Queue.Line.{Line}
use uq.Queue.Line.Valid.{IsValid}
use uq.Queue.Deps.{Deps, World, TopicStore, get_data}
use uq.Queue.LineData.{gen_line_store, line_store_key, key_line_recycle}
use uq.Queue.Topic.{Topic, little_endian}
use uq.Queue.Topic.Admin.{recycle_key}
use uq.Queue.Topic.Keys.{key_topic_head, key_topic_tail}
use uq.Queue.Topic.Removal.{OwnKey}
use uq.Queue.Topic.Owned.{Marked, PlainName}
use uq.Queue.Topic.Frame.{Same}

-- What exportTopic writes of a topic.
abbrev pub topic_store : Topic → TopicStore
topic_store t = record {
  lines = map (λ ((name, l) : Bytes × Line). l.name) t.lines;
  persist = t.persist;
}

module _ {S : Type 0} (deps : Deps S) where
  -- The protobuf code and the text of a duration give a line back; its record is not empty.
  pub record LineReadBack (l : Line) : Type 0 where
    pub first : ℕ
    pub rest : Bytes
    pub written : deps.marshal_line (gen_line_store l) ≡ ok (first ∷ rest)
    pub read : deps.unmarshal_line (first ∷ rest) ≡ ok (gen_line_store l)
    pub recycle_read : deps.parse_duration (deps.duration_string l.recycle) ≡ ok l.recycle

  -- The protobuf code gives the records of a topic and of its lines back.
  pub record TopicReadBack (t : Topic) : Type 0 where
    pub first : ℕ
    pub rest : Bytes
    pub written : deps.marshal_topic (topic_store t) ≡ ok (first ∷ rest)
    pub read : deps.unmarshal_topic (first ∷ rest) ≡ ok (topic_store t)
    pub lines : (name : Bytes) (l : Line) → lookup name t.lines ≡ some l → LineReadBack l

  pub record LineKept (t : Topic) (name : Bytes) (l : Line) (w : World S) : Type 0 where
    pub named : l.name ≡ name
    pub plain : PlainName name
    pub own : OwnKey t l
    pub valid : IsValid t.tail l
    pub recycle_stored :
        get_data deps (recycle_key t.name name) w ≡ ok (deps.duration_string l.recycle)

  -- A running topic: its head, its tail and the recycle times of its lines are stored.
  pub record TopicKept (t : Topic) (w : World S) : Type 0 where
    pub head_le : t.head ≤ t.tail
    pub tail_lt : t.tail < u64_mod
    pub head_key : t.head_key ≡ t.name ++ key_topic_head
    pub tail_key : t.tail_key ≡ t.name ++ key_topic_tail
    pub head_stored : get_data deps (t.name ++ key_topic_head) w ≡ ok (little_endian 8 t.head)
    pub tail_stored : get_data deps (t.name ++ key_topic_tail) w ≡ ok (little_endian 8 t.tail)
    pub nodup : NodupKeys t.lines
    pub lines : (name : Bytes) (l : Line) → lookup name t.lines ≡ some l → LineKept t name l w

  -- A line that is stored as it is.
  pub record LineSaved (topic : Bytes) (l : Line) (w : World S) : Type 0 where
    pub back : LineReadBack l
    pub stored : get_data deps (line_store_key topic l.name) w ≡ ok (back.first ∷ back.rest)

  -- A topic from which a restart can go on.
  pub record TopicSaved (t : Topic) (w : World S) : Type 0 where
    pub kept : TopicKept t w
    pub first : ℕ
    pub rest : Bytes
    pub topic_stored : get_data deps t.name w ≡ ok (first ∷ rest)
    pub topic_read : deps.unmarshal_topic (first ∷ rest) ≡ ok (topic_store t)
    pub lines : (name : Bytes) (l : Line) → lookup name t.lines ≡ some l → LineSaved t.name l w

  -- The keys of the topic have the values of before.
  abbrev pub KeepsOwn : Bytes → World S → World S → Type 0
  KeepsOwn topic w w' =
      (s : Bytes) → Marked s → get_data deps (topic ++ s) w' ≡ get_data deps (topic ++ s) w

  -- What a running topic has stored, key by key.
  unfoldable pub KeepsRunning : Topic → World S → World S → Type 0
  KeepsRunning t w w' =
      Same deps (t.name ++ key_topic_head) w w'
      × Same deps (t.name ++ key_topic_tail) w w'
      × ((name : Bytes) (l : Line)
          → lookup name t.lines ≡ some l
          → Same deps (recycle_key t.name name) w w')

  pub TopicKept-moved :
      (t : Topic) (w w' : World S) → KeepsRunning t w w' → TopicKept t w → TopicKept t w'
  unfolding KeepsRunning
  TopicKept-moved t w w' (a, b, c) h = record {
    head_le = h.head_le;
    tail_lt = h.tail_lt;
    head_key = h.head_key;
    tail_key = h.tail_key;
    head_stored = a ∙ h.head_stored;
    tail_stored = b ∙ h.tail_stored;
    nodup = h.nodup;
    lines = λ name l e.
        let k = h.lines name l e in
        record {
          named = k.named;
          plain = k.plain;
          own = k.own;
          valid = k.valid;
          recycle_stored = c name l e ∙ k.recycle_stored;
        };
  }

  pub LineKept-moved :
      (t : Topic) (name : Bytes) (l : Line) (w w' : World S)
      → ((k : Bytes) → Same deps k w w')
      → LineKept t name l w
      → LineKept t name l w'
  LineKept-moved t name l w w' s k = record {
    named = k.named;
    plain = k.plain;
    own = k.own;
    valid = k.valid;
    recycle_stored = s (recycle_key t.name name) ∙ k.recycle_stored;
  }

  pub LineSaved-moved :
      (topic : Bytes) (l : Line) (w w' : World S)
      → ((k : Bytes) → Same deps k w w')
      → LineSaved topic l w
      → LineSaved topic l w'
  LineSaved-moved topic l w w' s h = record {
    back = h.back;
    stored = s (line_store_key topic l.name) ∙ h.stored;
  }

  pub KeepsOwn-TopicKept :
      (t : Topic) (w w' : World S) → KeepsOwn t.name w w' → TopicKept t w → TopicKept t w'
  unfolding KeepsRunning recycle_key
  KeepsOwn-TopicKept t w w' o h =
      TopicKept-moved t w w'
        (
          o key_topic_head refl,
          o key_topic_tail refl,
          λ name l e. o (codes "/" ++ (name ++ key_line_recycle)) refl,
        )
        h

  pub KeepsOwn-TopicSaved :
      (t : Topic) (w w' : World S) → KeepsOwn t.name w w' → TopicSaved t w → TopicSaved t w'
  unfolding line_store_key
  KeepsOwn-TopicSaved t w w' o h = record {
    kept = KeepsOwn-TopicKept t w w' o h.kept;
    first = h.first;
    rest = h.rest;
    topic_stored =
        subst (λ k. get_data deps k w' ≡ get_data deps k w) (append-nil t.name) (o [] tt)
        ∙ h.topic_stored;
    topic_read = h.topic_read;
    lines = λ name l e.
        let s = h.lines name l e in
        record { back = s.back; stored = o (codes "/" ++ l.name) refl ∙ s.stored };
  }
