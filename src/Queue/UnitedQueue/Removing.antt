-- ===== src/Queue/UnitedQueue/Removing.antt =====
-- queue/uQueue.go: removeTopic keeps a queue sound.
use uq.Prelude.{
  ◌≡◌, refl, sym, subst, ◌∙◌, inl, inr, Bytes, Bool, true, false, some, arith, lookup,
  lookup-without, without, without-NodupKeys, bytes_eq, bytes_eq_refl, Bool-cases, Option-cases,
}
use uq.Utils.Errors.{Result, Error, ok}
use uq.Store.Interface.{Laws, Reliable}
use uq.Queue.Deps.{Deps, World}
use uq.Queue.Topic.{Topic}
use uq.Queue.Topic.Admin.{remove_topic}
use uq.Queue.Topic.Owned.{PlainName, KeepsForeign}
use uq.Queue.UnitedQueue.{UnitedQueue}
use uq.Queue.UnitedQueue.Admin.{storage_key_word}
use uq.Queue.UnitedQueue.Remove.{remove_topic_named}
use uq.Queue.UnitedQueue.Discard.{remove_topic-KeepsForeign}
use uq.Queue.UnitedQueue.Whole.{TopicSound, QueueSound}
use uq.Queue.UnitedQueue.Change.{
  names_of, NamesReadBack, export_queue_done, recorded, storage_key_word-Foreign, other_moved,
  record_moved, stored_names, unregistered, unregistered-Same, stored_names-others,
  stored_names-there,
}

module _ {S : Type 0} (deps : Deps S) (laws : Laws deps.storage)
    (reliable : Reliable deps.storage) where
  remove_done :
      (name : Bytes) (from_etcd : Bool) (u : UnitedQueue) (w : World S) (t : Topic)
      (b : NamesReadBack deps (names_of (without name u.topics)))
      → lookup name u.topics ≡ some t
      → remove_topic_named deps name from_etcd u w ≡ (
        ok tt,
        record u { topics = without name u.topics },
        (remove_topic deps t (unregistered deps laws reliable name from_etcd b.bytes w)).1,
      )
  unfolding remove_topic_named unregistered stored_names
  remove_done name from_etcd u w t b e =
      let done =
        export_queue_done deps laws reliable (record u { topics = without name u.topics }) w b in
      rw (e, remove_topic_named) (rw done (rw done refl))

  -- The topics behind a removal.
  left :
      (name : Bytes) (u : UnitedQueue) (w w' : World S)
      → PlainName name
      → KeepsForeign deps name w w'
      → ((j : Bytes) (y : Topic) → lookup j u.topics ≡ some y → TopicSound deps j y w)
      → (j : Bytes) (y : Topic) → lookup j (without name u.topics) ≡ some y
      → TopicSound deps j y w'
  left name u w w' p k ts j y f = elim (Bool-cases (bytes_eq j name)) [
    | inl same ↦ absurd (ground (arith, lookup-without name j u.topics))
    | inr other ↦
        other_moved deps laws reliable name j y w w' p
          (λ g.
            let yes_equal : bytes_eq j name ≡ true = rw g (bytes_eq_refl name) in
            let no : ⊥ = cc (yes_equal, other) in no)
          k (ts j y (ground (arith, lookup-without name j u.topics)))
  ]

  -- removeTopic keeps a queue sound, whether the topic is there or not.
  pub remove_topic_named-QueueSound :
      (name : Bytes) (from_etcd : Bool) (u : UnitedQueue) (w : World S)
      → NamesReadBack deps (names_of (without name u.topics))
      → QueueSound deps u w
      → QueueSound deps
          (remove_topic_named deps name from_etcd u w).1
          (remove_topic_named deps name from_etcd u w).2
  unfolding remove_topic_named
  remove_topic_named-QueueSound name from_etcd u w b h =
      elim (Option-cases (lookup name u.topics)) [
        | inl e ↦ rw (e, remove_topic_named) h
        | inr (t, e) ↦
            let w₁ = unregistered deps laws reliable name from_etcd b.bytes w in
            let others = λ (k : Bytes) (ne' : bytes_eq k storage_key_word ≡ false).
              unregistered-Same deps laws reliable name from_etcd b.bytes w k
              ∙ stored_names-others deps laws reliable name from_etcd b.bytes w k ne' in
            let there = λ (j : Bytes) (y : Topic) (f : lookup j u.topics ≡ some y).
              record_moved deps laws reliable j y w w₁ others (h.topics j y f) in
            let x = there name t e in
            let foreign : KeepsForeign deps name w₁ (remove_topic deps t w₁).1 =
              subst (λ m. KeepsForeign deps m w₁ (remove_topic deps t w₁).1) x.named
                (remove_topic-KeepsForeign deps laws t w₁ x.sound x.durable) in
            let u' : UnitedQueue = record u { topics = without name u.topics } in
            subst (λ (r : Result Error (Unit {0}) × UnitedQueue × World S). QueueSound deps r.1 r.2)
              (sym (remove_done name from_etcd u w t b e))
              (recorded deps laws reliable u' w₁ (remove_topic deps t w₁).1 b
                (without-NodupKeys name u.topics h.nodup)
                (foreign storage_key_word
                    (storage_key_word-Foreign deps laws reliable name x.plain x.apart)
                  ∙ unregistered-Same deps laws reliable name from_etcd b.bytes w storage_key_word
                  ∙ stored_names-there deps laws reliable name from_etcd b.bytes w)
                (left name u w₁ (remove_topic deps t w₁).1 x.plain foreign there))
      ]
