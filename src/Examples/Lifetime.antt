-- ===== src/Examples/Lifetime.antt =====
-- A queue from its first start on an empty storage to its close and the start after it.
use uq.Queue.LineData.{export_line, export_recycle}
use uq.Queue.Topic.Admin.{new_line}
use uq.Queue.Topic.{export_head, export_topic}
use uq.Prelude.{
  ◌≡◌, refl, subst, inl, inr, Bytes, codes, [], ◌∷◌, arith, some, lookup, bytes_eq, insert, without,
  lookup-insert, false, Bool-cases, pos,
}
use uq.Utils.Errors.{ok, err, new_error, err_internal_error, Result, Error}
use uq.Store.MemStore.{MemStore, new_mem_store, set, get}
use uq.Queue.Deps.{World, get_data}
use uq.Queue.Topic.{Topic}
use uq.Queue.Topic.Admin.{create_line}
use uq.Queue.Topic.Saved.{LineReadBack, TopicReadBack}
use uq.Queue.UnitedQueue.{UnitedQueue, with_topic}
use uq.Queue.UnitedQueue.Change.{NamesReadBack}
use uq.Queue.UnitedQueue.Runs.{QueueSteps, rests, then_runs, then_creates, reachable_restart}
use uq.Queue.UnitedQueue.Admin.{
  storage_key_word, blank_topic, new_topic, create_topic, export_queue,
}
use uq.Queue.UnitedQueue.Remove.{queue_close}
use uq.Queue.UnitedQueue.Load.{loads, new_united_queue}
use uq.Queue.UnitedQueue.Reload.{written, RestoredAt}
use uq.Queue.Deps.{set_data}
use uq.Queue.Topic.{Outcome, returns, blocks, m_push, m_push_loop, export_tail}
use uq.Queue.Topic.Reach.{Steps, start, onto, pushes, creates}
use uq.Queue.Topic.Durable.Reach.{PlainSteps}
use uq.Examples.Topics.{two_texts, topic_at}
use uq.Examples.Restarts.{durable-Laws, durable-Reliable, on_disk, line_back, the_line}

-- A queue from its first start: it gets the topic "t", the line "x" and two messages.
abbrev no_topics : UnitedQueue
no_topics = record { topics = [] }

abbrev new_world : World MemStore
new_world = record { stored = new_mem_store; sent = [] }

abbrev first_queue : UnitedQueue
first_queue = (create_topic on_disk (codes "t") false false no_topics new_world).1

abbrev first_world : World MemStore
first_world = (create_topic on_disk (codes "t") false false no_topics new_world).2

names_back : NamesReadBack on_disk (codes "t" ∷ [])
names_back = record {
  bytes = codes "queue";
  wrote = refl;
  reads = written b'q' (codes "ueue") (codes "t" ∷ []) refl;
}

first_steps : QueueSteps on_disk no_topics new_world first_queue first_world
unfolding without
first_steps =
    then_creates no_topics new_world (codes "t") false false rests (refl, tt) (λ e. absurd (cc e))
      names_back

abbrev first_topic : Topic
first_topic = blank_topic on_disk (codes "t") false

abbrev world_of :
    Outcome (Result Error (Unit {0}) × Topic × World MemStore) → World MemStore → World MemStore
world_of (returns (r, t, w)) v = w
world_of blocks v = v

abbrev lined_world : World MemStore
lined_world =
    world_of (create_line on_disk (codes "x") (pos 10) false first_topic first_world) first_world

lined :
    create_line on_disk (codes "x") (pos 10) false first_topic first_world
    ≡ returns (ok tt, topic_at 0 0 0, lined_world)
unfolding create_line lookup blank_topic new_line export_line set export_recycle export_topic
lined = refl

abbrev full_topic : Topic
full_topic = (m_push on_disk two_texts (topic_at 0 0 0) lined_world).1

abbrev full_world : World MemStore
full_world = (m_push on_disk two_texts (topic_at 0 0 0) lined_world).2

topic_steps : Steps on_disk first_topic first_world full_topic full_world
topic_steps =
    onto _ _ _ _ (onto _ _ _ _ start (creates (codes "x") (pos 10) false (ok tt) _ _ lined))
      (pushes two_texts (omega arith))

topic_steps_plain : PlainSteps on_disk topic_steps
unfolding topic_steps
topic_steps_plain = ((tt, (refl, tt)), tt)

abbrev full : UnitedQueue
full = with_topic (codes "t") full_topic first_queue

full_steps : QueueSteps on_disk no_topics new_world full full_world
unfolding lookup bytes_eq create_topic new_topic export_head set_data set export_tail export_queue
full_steps =
    then_runs first_queue first_world (codes "t") first_topic full_topic full_world first_steps refl
      topic_steps topic_steps_plain

full_back : TopicReadBack on_disk full_topic
unfolding m_push m_push_loop set_data set export_tail
full_back = record {
  first = b't';
  rest = codes "opic";
  written = refl;
  read = refl;
  lines = λ name l e. subst (LineReadBack on_disk) (the_line name l e).1 line_back;
}

first_queue_made : first_queue ≡ with_topic (codes "t") first_topic no_topics
unfolding create_topic new_topic lookup export_head set_data set export_tail export_queue
first_queue_made = refl

only_put : (j k : Bytes) (x x' y : Topic) → lookup j (insert k x (insert k x' [])) ≡ some y → x ≡ y
unfolding lookup
only_put j k x x' y e = elim (Bool-cases (bytes_eq j k)) [
  | inl same ↦ ground (arith, lookup-insert k j x (insert k x' []))
  | inr other ↦
      absurd (ground (arith, lookup-insert k j x (insert k x' []), lookup-insert k j x' []))
]

full_backs : (name : Bytes) (t : Topic) → lookup name full.topics ≡ some t → TopicReadBack on_disk t
full_backs name t e =
    let put =
      subst (λ (q : UnitedQueue). lookup name (insert (codes "t") full_topic q.topics) ≡ some t)
        first_queue_made e in
    subst (TopicReadBack on_disk) (only_put name (codes "t") full_topic first_topic t put) full_back

nothing_stored :
    get_data on_disk storage_key_word new_world
    ≡ err (new_error err_internal_error (codes "Data Not Existed"))
unfolding get_data get lookup new_mem_store
nothing_stored = refl

reachable_restart_example :
    (u : UnitedQueue) × (w : World MemStore) × (new_united_queue on_disk
        (record { stored = (queue_close on_disk full full_world).1.stored; sent = [] })
      ≡ loads (u, w))
    × ((name : Bytes) → RestoredAt (lookup name full.topics) (lookup name u.topics))
reachable_restart_example =
    reachable_restart on_disk durable-Laws durable-Reliable _ (λ m. m) (λ k s. refl) nothing_stored
      full_steps full_backs
