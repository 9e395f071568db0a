-- ===== src/Queue/UnitedQueue/Creation.antt =====
-- queue/uQueue.go: createTopic keeps a queue sound.
use uq.Prelude.{
  ◌≡◌, ◌≢◌, refl, sym, subst, ◌∙◌, inl, inr, Bytes, ◌∷◌, Bool, true, false, some, none, arith,
  lookup, lookup-insert, insert, without, insert-NodupKeys, bytes_eq, bytes_eq_refl, eq_of_bytes_eq,
  Bool-cases, Option-cases,
}
use uq.Utils.Errors.{Result, Error, ok}
use uq.Store.Interface.{Laws, Reliable}
use uq.Queue.Deps.{Deps, World}
use uq.Queue.Topic.{Topic}
use uq.Queue.Topic.Owned.{PlainName, KeepsForeign}
use uq.Queue.UnitedQueue.{UnitedQueue, with_topic}
use uq.Queue.UnitedQueue.Admin.{storage_key_word, new_topic, create_topic}
use uq.Queue.UnitedQueue.Create.{new_topic_lem}
use uq.Queue.UnitedQueue.Whole.{TopicSound, QueueSound}
use uq.Queue.UnitedQueue.Change.{
  names_of, NamesReadBack, export_queue_done, recorded, other_moved, record_moved, stored_names,
  registered, registered-Same, stored_names-others, stored_names-there,
}

module _ {S : Type 0} (deps : Deps S) (laws : Laws deps.storage)
    (reliable : Reliable deps.storage) where
  -- The topics behind an insertion: the new one, or one from before.
  inserted :
      (name : Bytes) (t : Topic) (u : UnitedQueue) (w w' : World S)
      → PlainName name
      → KeepsForeign deps name w w'
      → TopicSound deps name t w'
      → QueueSound deps u w
      → (j : Bytes) (y : Topic) → lookup j (insert name t u.topics) ≡ some y
      → TopicSound deps j y w'
  inserted name t u w w' p k fresh h j y f = elim (Bool-cases (bytes_eq j name)) [
    | inl same ↦
        let here : t ≡ y = ground (arith, lookup-insert name j t u.topics) in
        subst (λ z. TopicSound deps j z w') here
          (subst (λ m. TopicSound deps m t w') (sym (eq_of_bytes_eq j name same)) fresh)
    | inr other ↦
        other_moved deps laws reliable name j y w w' p
          (λ g.
            let yes_equal : bytes_eq j name ≡ true = rw g (bytes_eq_refl name) in
            let no : ⊥ = cc (yes_equal, other) in no)
          k (h.topics j y (ground (arith, lookup-insert name j t u.topics)))
  ]

  create_done :
      (name : Bytes) (persist from_etcd : Bool) (u : UnitedQueue) (w : World S) (t : Topic)
      (b : NamesReadBack deps (names_of (with_topic name t u).topics))
      → lookup name u.topics ≡ none
      → (new_topic deps name persist w).0 ≡ ok t
      → create_topic deps name persist from_etcd u w ≡ (
        ok tt,
        with_topic name t u,
        registered deps laws reliable t.name from_etcd b.bytes (new_topic deps name persist w).1,
      )
  unfolding create_topic registered stored_names
  create_done name persist from_etcd u w t b e made =
      let done =
        export_queue_done deps laws reliable (with_topic name t u) (new_topic deps name persist w).1
          b in
      rw (e, create_topic) (rw made (rw done (rw done refl)))

  -- createTopic keeps a queue sound, whether the topic is there already or not.
  pub create_topic-QueueSound :
      (name : Bytes) (persist from_etcd : Bool) (u : UnitedQueue) (w : World S)
      → PlainName name
      → name ≢ storage_key_word
      → NamesReadBack deps (name ∷ names_of (without name u.topics))
      → QueueSound deps u w
      → QueueSound deps
          (create_topic deps name persist from_etcd u w).1
          (create_topic deps name persist from_etcd u w).2
  unfolding insert create_topic
  create_topic-QueueSound name persist from_etcd u w p ne b h =
      elim (Option-cases (lookup name u.topics)) [
        | inr (t, e) ↦ rw (e, create_topic) h
        | inl e ↦
            let (t, made, n) = new_topic_lem deps laws reliable name persist w in
            let w' = (new_topic deps name persist w).1 in
            let w₃ = registered deps laws reliable t.name from_etcd b.bytes w' in
            let others = λ (k : Bytes) (ne' : bytes_eq k storage_key_word ≡ false).
              registered-Same deps laws reliable t.name from_etcd b.bytes w' k
              ∙ stored_names-others deps laws reliable t.name from_etcd b.bytes w' k ne' in
            let fresh : TopicSound deps name t w' = record {
              named = n.named;
              plain = p;
              apart = ne;
              sound = n.sound;
              durable = n.durable;
            } in
            subst (λ (r : Result Error (Unit {0}) × UnitedQueue × World S). QueueSound deps r.1 r.2)
              (sym (create_done name persist from_etcd u w t b e made))
              (recorded deps laws reliable (with_topic name t u) w' w₃ b
                (insert-NodupKeys name t u.topics h.nodup)
                (registered-Same deps laws reliable t.name from_etcd b.bytes w' storage_key_word
                  ∙ stored_names-there deps laws reliable t.name from_etcd b.bytes w')
                (λ j y f.
                  record_moved deps laws reliable j y w' w₃ others
                    (inserted name t u w w' p n.apart fresh h j y f)))
      ]
