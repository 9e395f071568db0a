-- ===== src/Queue/UnitedQueue/Runs.antt =====
-- queue/uQueue.go: any operations on the topics of a queue, the creation of topics, and then a restart.
use uq.Prelude.{
  ◌≡◌, ◌≢◌, refl, sym, subst, ◌∙◌, inl, inr, Bytes, [], ◌∷◌, ◌++◌, true, some, arith, lookup,
  lookup-insert, insert-NodupKeys, bytes_eq, bytes_eq_refl, eq_of_bytes_eq, Bool-cases, append-nil,
}
use uq.Store.Interface.{Laws, Reliable}
use uq.Queue.Deps.{Deps, World, get_data}
use uq.Queue.Topic.{Topic}
use uq.Queue.Topic.Owned.{PlainName, Foreign, Foreign-other}
use uq.Queue.Topic.Reach.{Steps, Steps-IsSound}
use uq.Queue.Topic.Apart.{Steps-KeepsForeign, Steps-name}
use uq.Queue.Topic.Saved.{TopicReadBack}
use uq.Queue.Topic.Durable.Reach.{PlainSteps, Steps-IsDurable}
use uq.Queue.UnitedQueue.{UnitedQueue, with_topic}
use uq.Queue.UnitedQueue.Admin.{storage_key_word}
use uq.Queue.UnitedQueue.Remove.{queue_close}
use uq.Queue.UnitedQueue.Load.{loads, new_united_queue}
use uq.Queue.UnitedQueue.Reload.{NamesStored, RestoredAt}
use uq.Queue.UnitedQueue.Admin.{create_topic}
use uq.Queue.UnitedQueue.Remove.{remove_topic_named}
use uq.Queue.UnitedQueue.Reload.{NamesStored, never}
use uq.Queue.UnitedQueue.Change.{names_of, NamesReadBack}
use uq.Queue.UnitedQueue.Creation.{create_topic-QueueSound}
use uq.Queue.UnitedQueue.Removing.{remove_topic_named-QueueSound}
use uq.Utils.Errors.{Error, err}
use uq.Prelude.{without, Bool, ◌∷◌}
use uq.Queue.UnitedQueue.Whole.{
  is_there-insert, TopicSound, TopicSound-moved, QueueSound, QueueSound-QueueKept,
}
use uq.Queue.UnitedQueue.Restart.{storage_key_word-PlainName, queue_close-new_united_queue}

module _ {S : Type 0} (deps : Deps S) where
  -- Topics are created and removed, and one topic after another goes through some steps of its own.
  pub data QueueSteps (u : UnitedQueue) (w : World S) : UnitedQueue → World S → Type 0 where
    rests : QueueSteps u w u w
    then_runs :
        (u' : UnitedQueue) (w' : World S) (name : Bytes) (t t' : Topic) (w'' : World S)
        → QueueSteps u w u' w'
        → lookup name u'.topics ≡ some t
        → (ss : Steps deps t w' t' w'') → PlainSteps deps ss
        → QueueSteps u w (with_topic name t' u') w''
    then_creates :
        (u' : UnitedQueue) (w' : World S) (name : Bytes) (persist from_etcd : Bool)
        → QueueSteps u w u' w'
        → PlainName name
        → name ≢ storage_key_word
        → NamesReadBack deps (name ∷ names_of (without name u'.topics))
        → QueueSteps u w
            (create_topic deps name persist from_etcd u' w').1
            (create_topic deps name persist from_etcd u' w').2
    then_removes :
        (u' : UnitedQueue) (w' : World S) (name : Bytes) (from_etcd : Bool)
        → QueueSteps u w u' w'
        → NamesReadBack deps (names_of (without name u'.topics))
        → QueueSteps u w
            (remove_topic_named deps name from_etcd u' w').1
            (remove_topic_named deps name from_etcd u' w').2

module _ {S : Type 0} (deps : Deps S) (laws : Laws deps.storage)
    (reliable : Reliable deps.storage) where
  run-QueueSound :
      (u : UnitedQueue) (w : World S) (name : Bytes) (t t' : Topic) (w' : World S)
      → QueueSound deps u w
      → lookup name u.topics ≡ some t
      → (ss : Steps deps t w t' w') → PlainSteps deps ss
      → QueueSound deps (with_topic name t' u) w'
  run-QueueSound u w name t t' w' h e ss p =
      let x = h.topics name t e in
      let foreign = Steps-KeepsForeign deps laws x.sound ss in
      let plain : PlainName t.name = subst PlainName (sym x.named) x.plain in
      let key_apart : t.name ≢ storage_key_word = λ g. x.apart (sym x.named ∙ g) in
      let fresh : TopicSound deps name t' w' = record {
        named = Steps-name deps laws x.sound ss ∙ x.named;
        plain = x.plain;
        apart = x.apart;
        sound = Steps-IsSound deps laws x.sound ss;
        durable = Steps-IsDurable deps laws reliable x.sound x.durable ss p;
      } in
      record {
        nodup = insert-NodupKeys name t' u.topics h.nodup;
        topics = λ j y f. elim (Bool-cases (bytes_eq j name)) [
          | inl same ↦
              let here : t' ≡ y = ground (arith, lookup-insert name j t' u.topics) in
              let at_name : j ≡ name = eq_of_bytes_eq j name same in
              subst (λ z. TopicSound deps j z w') here
                (subst (λ m. TopicSound deps m t' w') (sym at_name) fresh)
          | inr other ↦
              let old = h.topics j y (ground (arith, lookup-insert name j t' u.topics)) in
              let differ : t.name ≢ y.name = λ g.
                let twice : j ≡ name = sym old.named ∙ sym g ∙ x.named in
                let yes_equal : bytes_eq j name ≡ true = rw twice (bytes_eq_refl name) in
                let no : ⊥ = cc (yes_equal, other) in no in
              TopicSound-moved deps j y w w'
                (λ s m. foreign (y.name ++ s) (
                  Foreign-other t.name y.name s plain (subst PlainName (sym old.named) old.plain)
                    differ m))
                old
        ];
        names = h.names;
        stored =
            subst (λ r. NamesStored deps r h.names)
              (sym (
                foreign storage_key_word (
                  subst (Foreign t.name) (append-nil storage_key_word) (
                    Foreign-other t.name storage_key_word [] plain storage_key_word-PlainName
                      key_apart tt))))
              h.stored;
        listed = λ j. h.listed j ∙ is_there-insert name j t t' u.topics e;
      }

  QueueSteps-QueueSound :
      (u : UnitedQueue) (w : World S) (u' : UnitedQueue) (w' : World S)
      → QueueSound deps u w
      → QueueSteps deps u w u' w'
      → QueueSound deps u' w'
  QueueSteps-QueueSound u w _ _ h rests = h
  QueueSteps-QueueSound u w _ _ h (then_runs u' w' name t t' w'' ss e s p) =
      run-QueueSound u' w' name t t' w'' (QueueSteps-QueueSound u w u' w' h ss) e s p
  QueueSteps-QueueSound u w _ _ h (then_creates u' w' name persist from_etcd ss p ne b) =
      create_topic-QueueSound deps laws reliable name persist from_etcd u' w' p ne b
        (QueueSteps-QueueSound u w u' w' h ss)
  QueueSteps-QueueSound u w _ _ h (then_removes u' w' name from_etcd ss b) =
      remove_topic_named-QueueSound deps laws reliable name from_etcd u' w' b
        (QueueSteps-QueueSound u w u' w' h ss)

  -- A queue without topics over a storage without a record of them, as NewUnitedQueue makes it.
  empty-QueueSound :
      (w : World S) (e : Error)
      → get_data deps storage_key_word w ≡ err e
      → QueueSound deps (record { topics = [] }) w
  unfolding lookup
  empty-QueueSound w e none_there = record {
    nodup = tt;
    topics = λ name t f. absurd (cc f);
    names = [];
    stored = subst (λ r. NamesStored deps r []) (sym none_there) (never e);
    listed = λ name. refl;
  }

  -- Over a storage that does not fail and holds no queue yet, after any operations that start with the
  -- empty queue, in any order, on topics that are created and removed (createTopic, removeTopic, and on
  -- each topic mPush, pop, mPop, confirm, createLine, removeLine, emptyLine, empty, backup ticks and
  -- clean ticks), NewUnitedQueue on the storage that Close has closed, opened again with its content,
  -- succeeds with the same topics: no topic comes or goes, and each has its name, persistence, head,
  -- tail and keys, and the lines from before. New topics and lines have plain names, no topic has the
  -- name of the queue's own key, message ids fit in 64 bits, lines are removed with the recycle key of
  -- their creation, and the protobuf code gives back the names at each change and the records of the
  -- last queue.
  pub reachable_restart :
      {u : UnitedQueue} {w w' : World S} (e : Error) (reopen : S → S)
      → ((k : Bytes) (s : S)
          → deps.storage.get k (reopen (deps.storage.close s)) ≡ deps.storage.get k s)
      → get_data deps storage_key_word w ≡ err e
      → QueueSteps deps (record { topics = [] }) w u w'
      → ((name : Bytes) (t : Topic) → lookup name u.topics ≡ some t → TopicReadBack deps t)
      → (u' : UnitedQueue) × (w'' : World S) × (new_united_queue deps
            (record { stored = reopen (queue_close deps u w').1.stored; sent = [] })
          ≡ loads (u', w''))
        × ((name : Bytes) → RestoredAt (lookup name u.topics) (lookup name u'.topics))
  reachable_restart {u = u} {w = w} {w' = w'} e reopen opened none_there ss back =
      queue_close-new_united_queue deps laws reliable u w' reopen opened (
        QueueSound-QueueKept deps u w'
          (QueueSteps-QueueSound _ w u w' (empty-QueueSound w e none_there) ss) back)
