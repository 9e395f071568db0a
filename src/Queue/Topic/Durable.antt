-- ===== src/Queue/Topic/Durable.antt =====
-- queue/uTopic.go: what of a topic is in the storage at every moment, so that a restart finds it.
pub mod Moves
pub mod Push
pub mod Clean
pub mod Empty
pub mod Lines
pub mod Reach
use uq.Prelude.{
  ℕ, suc, ◌+◌, ◌≡◌, ◌≢◌, refl, sym, ap, subst, ◌∙◌, inl, inr, Bytes, List, [], ◌∷◌, ◌++◌, some,
  none, arith, lookup, Dict, codes, u64_mod, lookup-insert, lookup-without, insert, without,
  NodupKeys, insert-NodupKeys, without-NodupKeys, bytes_eq, bytes_eq_refl, eq_of_bytes_eq,
  Bool-cases, if◌then◌else◌, true, false, ◌<◌, length,
}
use mathlib.Core.List.{append_cancel_left}
use uq.Utils.Errors.{ok, err, Result-cases}
use uq.Store.Interface.{Laws, Reliable}
use uq.Queue.Line.{Line}
use uq.Queue.Line.Identity.{SameIdentity}
use uq.Queue.Deps.{Deps, World, get_data, set_data}
use uq.Queue.Deps.DataLaws.{get_data-set_data, set_data_ok}
use uq.Queue.LineData.{line_store_key, key_line_recycle}
use uq.Queue.Topic.{
  Topic, message_key, little_endian, with_line, m_push, m_push_loop, m_push_end, export_tail,
}
use uq.Queue.Topic.Admin.{recycle_key}
use uq.Queue.Topic.Keys.{key_topic_head, key_topic_tail, message_key-ne-head, message_key-ne-tail}
use uq.Queue.Topic.Owned.{PlainName}
use uq.Queue.Topic.Removal.{OwnKey}
use uq.Queue.Topic.Sound.{IsSound}
use uq.Queue.Topic.Frame.{NoMessage, Same, m_push_loop-Same, m_push-Same}
use uq.Queue.Topic.Saved.{TopicKept, KeepsRunning}
use uq.Queue.Topic.LineKeys.{longer-ne-name}

module _ {S : Type 0} (deps : Deps S) where
  pub record LineOwned (t : Topic) (name : Bytes) (l : Line) (w : World S) : Type 0 where
    pub named : l.name ≡ name
    pub plain : PlainName name
    pub own : OwnKey t l
    pub recycle_stored :
        get_data deps (recycle_key t.name name) w ≡ ok (deps.duration_string l.recycle)

  -- The head, the tail and the recycle times of the lines are stored as they are.
  pub record IsDurable (t : Topic) (w : World S) : Type 0 where
    pub head_stored : get_data deps (t.name ++ key_topic_head) w ≡ ok (little_endian 8 t.head)
    pub tail_stored : get_data deps (t.name ++ key_topic_tail) w ≡ ok (little_endian 8 t.tail)
    pub nodup : NodupKeys t.lines
    pub lines : (name : Bytes) (l : Line) → lookup name t.lines ≡ some l → LineOwned t name l w

  -- A sound and durable topic is one that exportTopics saves.
  pub IsDurable-TopicKept :
      {t : Topic} {w : World S} → IsSound deps t w → IsDurable t w → TopicKept deps t w
  IsDurable-TopicKept s d = record {
    head_le = s.head_le;
    tail_lt = s.tail_lt;
    head_key = s.head_key;
    tail_key = s.tail_key;
    head_stored = d.head_stored;
    tail_stored = d.tail_stored;
    nodup = d.nodup;
    lines = λ name l e.
        let x = d.lines name l e in
        record {
          named = x.named;
          plain = x.plain;
          own = x.own;
          valid = (s.served name l e).valid;
          recycle_stored = x.recycle_stored;
        };
  }

  -- A durable topic stays so while its keys keep their values.
  pub IsDurable-moved :
      (t : Topic) (w w' : World S) → KeepsRunning deps t w w' → IsDurable t w → IsDurable t w'
  unfolding KeepsRunning
  IsDurable-moved t w w' (a, b, c) h = record {
    head_stored = a ∙ h.head_stored;
    tail_stored = b ∙ h.tail_stored;
    nodup = h.nodup;
    lines = λ name l e.
        let x = h.lines name l e in
        record {
          named = x.named;
          plain = x.plain;
          own = x.own;
          recycle_stored = c name l e ∙ x.recycle_stored;
        };
  }

  -- A line may change all but its name, its recycle time and its recycle key.
  pub with_line-IsDurable :
      (name : Bytes) (l l' : Line) (t : Topic) (w : World S)
      → lookup name t.lines ≡ some l
      → SameIdentity l l'
      → IsDurable t w
      → IsDurable (with_line deps name l' t) w
  with_line-IsDurable name l l' t w e (n, r, k) h = record {
    head_stored = h.head_stored;
    tail_stored = h.tail_stored;
    nodup = insert-NodupKeys name l' t.lines h.nodup;
    lines = λ j x f. elim (Bool-cases (bytes_eq j name)) [
      | inr other ↦
          let o = h.lines j x (ground (arith, lookup-insert name j l' t.lines)) in
          record {
            named = o.named;
            plain = o.plain;
            own = o.own;
            recycle_stored = o.recycle_stored;
          }
      | inl same ↦
          let here : l' ≡ x = ground (arith, lookup-insert name j l' t.lines) in
          let at_name : j ≡ name = eq_of_bytes_eq j name same in
          let o = h.lines name l e in
          let fresh : LineOwned (with_line deps name l' t) name l' w = record {
            named = n ∙ o.named;
            plain = o.plain;
            own = k ∙ o.own ∙ ap (recycle_key t.name) (sym n);
            recycle_stored = o.recycle_stored ∙ ap (λ z. ok (deps.duration_string z)) (sym r);
          } in
          subst (λ y. LineOwned (with_line deps name l' t) j y w) here
            (subst (λ m. LineOwned (with_line deps name l' t) m l' w) (sym at_name) fresh)
    ];
  }
