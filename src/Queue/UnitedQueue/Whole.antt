-- ===== src/Queue/UnitedQueue/Whole.antt =====
-- queue/uQueue.go: what is true of a running queue and its storage at every moment.
use uq.Prelude.{
  ◌≡◌, ◌≢◌, refl, sym, ap, subst, ◌∙◌, inl, inr, Bytes, List, ◌++◌, some, lookup, lookup-insert,
  insert, NodupKeys, Dict, bytes_eq, eq_of_bytes_eq, Bool-cases, codes,
}
use uq.Queue.LineData.{key_line_recycle}
use uq.Queue.Deps.{Deps, World, get_data}
use uq.Queue.Topic.{Topic, message_key}
use uq.Queue.Topic.Admin.{recycle_key}
use uq.Queue.Topic.Keys.{key_topic_head, key_topic_tail}
use uq.Queue.Topic.Owned.{PlainName}
use uq.Queue.Topic.Sound.{IsSound}
use uq.Queue.Topic.Saved.{KeepsOwn, KeepsRunning, TopicReadBack}
use uq.Queue.Topic.Durable.{IsDurable, IsDurable-moved, IsDurable-TopicKept}
use uq.Queue.UnitedQueue.{UnitedQueue}
use uq.Queue.UnitedQueue.Admin.{storage_key_word}
use uq.Queue.UnitedQueue.Reload.{contains, is_there, NamesStored, QueueKept}

pub is_there-insert :
    (name j : Bytes) (t t' : Topic) (ts : Dict Topic)
    → lookup name ts ≡ some t
    → is_there (lookup j ts) ≡ is_there (lookup j (insert name t' ts))
is_there-insert name j t t' ts e = elim (Bool-cases (bytes_eq j name)) [
  | inl same ↦
      let at_name : j ≡ name = eq_of_bytes_eq j name same in
      let there : lookup j ts ≡ some t = rw at_name e in
      let after : lookup j (insert name t' ts) ≡ some t' =
        lookup-insert name j t' ts ∙ (rw same refl) in
      ap is_there there ∙ sym (ap is_there after)
  | inr other ↦ ap is_there (sym (lookup-insert name j t' ts ∙ (rw other refl)))
]

module _ {S : Type 0} (deps : Deps S) where
  -- A topic under its name, whose operations keep to its own keys.
  pub record TopicSound (name : Bytes) (t : Topic) (w : World S) : Type 0 where
    pub named : t.name ≡ name
    pub plain : PlainName name
    pub apart : name ≢ storage_key_word
    pub sound : IsSound deps t w
    pub durable : IsDurable deps t w

  -- A queue of such topics, and the record of their names.
  pub record QueueSound (u : UnitedQueue) (w : World S) : Type 0 where
    pub nodup : NodupKeys u.topics
    pub topics : (name : Bytes) (t : Topic) → lookup name u.topics ≡ some t → TopicSound name t w
    pub names : List Bytes
    pub stored : NamesStored deps (get_data deps storage_key_word w) names
    pub listed : (name : Bytes) → contains name names ≡ is_there (lookup name u.topics)

  pub TopicSound-moved :
      (name : Bytes) (t : Topic) (w w' : World S)
      → KeepsOwn deps t.name w w'
      → TopicSound name t w
      → TopicSound name t w'
  unfolding message_key recycle_key KeepsRunning
  TopicSound-moved name t w w' o h = record {
    named = h.named;
    plain = h.plain;
    apart = h.apart;
    sound = record {
      head_le = h.sound.head_le;
      tail_lt = h.sound.tail_lt;
      head_key = h.sound.head_key;
      tail_key = h.sound.tail_key;
      served = h.sound.served;
      stored = λ i lo hi. let (d, s) = h.sound.stored i lo hi in (d, o _ refl ∙ s);
    };
    durable =
        IsDurable-moved deps t w w'
          (
            o key_topic_head refl,
            o key_topic_tail refl,
            λ j l e. o (codes "/" ++ (j ++ key_line_recycle)) refl,
          )
          h.durable;
  }

  pub QueueSound-QueueKept :
      (u : UnitedQueue) (w : World S)
      → QueueSound u w
      → ((name : Bytes) (t : Topic) → lookup name u.topics ≡ some t → TopicReadBack deps t)
      → QueueKept deps u w
  QueueSound-QueueKept u w h back = record {
    nodup = h.nodup;
    running = λ name t e.
        let x = h.topics name t e in
        record {
          named = x.named;
          plain = subst PlainName (sym x.named) x.plain;
          kept = IsDurable-TopicKept deps x.sound x.durable;
          back = back name t e;
        };
    apart = λ name t e. (h.topics name t e).apart;
    names = h.names;
    stored = h.stored;
    listed = h.listed;
  }
