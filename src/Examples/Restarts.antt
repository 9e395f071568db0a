-- ===== src/Examples/Restarts.antt =====
-- A queue with the topic "t", its line "x" and one message, over a storage that keeps its content when
-- it is closed.
use uq.Prelude.{
  ◌≡◌, ◌≢◌, refl, sym, subst, inl, inr, Bytes, codes, [], ◌∷◌, ◌++◌, arith, some, lookup, bytes_eq,
  false, Bool-cases, pos, eq_of_bytes_eq,
}
use uq.Utils.Errors.{ok}
use uq.Store.Interface.{Storage, Laws, Reliable}
use uq.Store.MemStore.{
  MemStore, new_mem_store, mem_storage, mem_storage-Laws, mem_storage-Reliable, set, get,
}
use uq.Queue.Line.{Line}
use uq.Queue.Deps.{Deps, World, get_data}
use uq.Queue.LineData.{gen_line_store}
use uq.Queue.Topic.{Topic, little_endian}
use uq.Queue.Topic.Admin.{recycle_key}
use uq.Queue.Topic.Keys.{key_topic_head, key_topic_tail}
use uq.Queue.Topic.Saved.{LineKept, TopicKept, LineReadBack, TopicReadBack, topic_store}
use uq.Queue.UnitedQueue.{UnitedQueue}
use uq.Queue.UnitedQueue.Admin.{storage_key_word}
use uq.Queue.UnitedQueue.Remove.{queue_close}
use uq.Queue.UnitedQueue.Load.{loads, new_united_queue}
use uq.Queue.UnitedQueue.SaveAll.{IsRunning}
use uq.Queue.UnitedQueue.Reload.{contains, is_there, written, QueueKept, RestoredAt}
use uq.Queue.UnitedQueue.Restart.{queue_close-new_united_queue}
use uq.Queue.Deps.{set_data}
use uq.Queue.Topic.{m_push, m_push_loop, export_tail}
use uq.Queue.Topic.Sound.{IsSound, IsServed}
use uq.Queue.Topic.Reach.{Steps, start, onto, pushes}
use uq.Queue.Topic.Apart.{Steps-IsSound_other}
use uq.Queue.Topic.Saving.{exported}
use uq.Queue.Topic.Durable.{LineOwned, IsDurable}
use uq.Queue.Topic.Durable.Reach.{PlainSteps}
use uq.Queue.UnitedQueue.LoadTopic.{TopicLoaded}
use uq.Queue.UnitedQueue.Recover.{reachable_reload}
use uq.Examples.Topics.{
  two_texts, only_line, IsServed-topic_at, line_at, topic_at, line_at-IsValid, with_storage,
}
use uq.Examples.Queues.{one_topic}

-- A store on a disk: Close leaves the data in place.
abbrev pub durable : Storage MemStore
durable = record mem_storage { close = λ m. m }

pub durable-Laws : Laws durable
durable-Laws = record {
  not_found = mem_storage-Laws.not_found;
  get-set = mem_storage-Laws.get-set;
  get-set_err = mem_storage-Laws.get-set_err;
  get-del = mem_storage-Laws.get-del;
  get-del_err = mem_storage-Laws.get-del_err;
}

pub durable-Reliable : Reliable durable
durable-Reliable = record {
  set_ok = mem_storage-Reliable.set_ok;
  del_ok = mem_storage-Reliable.del_ok;
}

-- Records with one text each.
abbrev pub on_disk : Deps MemStore
on_disk = record (with_storage durable) {
  marshal_line = λ s. ok (codes "line");
  marshal_topic = λ s. ok (codes "topic");
  marshal_queue = λ s. ok (codes "queue");
  unmarshal_line = λ s. ok (gen_line_store (line_at 0));
  unmarshal_topic = λ s. ok (topic_store (topic_at 0 0 1));
  unmarshal_queue = λ s. ok (record { topics = codes "t" ∷ [] });
  parse_duration = λ s. ok (pos 10);
}

abbrev running_store : MemStore
running_store =
    (set (codes "t:head") (little_endian 8 0)
      (set (codes "t:tail") (little_endian 8 1)
        (set (codes "t/x:recycle") (codes "10ns")
          (set (codes "t:0") (codes "one")
            (set storage_key_word (codes "queue") new_mem_store).1).1).1).1).1

abbrev running_world : World MemStore
running_world = record { stored = running_store; sent = [] }

pub the_line :
    (name : Bytes) (l : Line)
    → lookup name (topic_at 0 0 1).lines ≡ some l
    → (name ≡ codes "x") × (line_at 0 ≡ l)
unfolding lookup
the_line name l e = elim (Bool-cases (bytes_eq name (codes "x"))) [
  | inl b ↦ (eq_of_bytes_eq name (codes "x") b, ground (arith, e, b))
  | inr b ↦ absurd (ground (arith, e, b))
]

the_topic :
    (name : Bytes) (t : Topic)
    → lookup name one_topic.topics ≡ some t
    → (name ≡ codes "t") × (topic_at 0 0 1 ≡ t)
unfolding lookup
the_topic name t e = elim (Bool-cases (bytes_eq name (codes "t"))) [
  | inl b ↦ (eq_of_bytes_eq name (codes "t") b, ground (arith, e, b))
  | inr b ↦ absurd (ground (arith, e, b))
]

line_kept : LineKept on_disk (topic_at 0 0 1) (codes "x") (line_at 0) running_world
unfolding recycle_key get_data get set lookup bytes_eq
line_kept = record {
  named = refl;
  plain = (refl, tt);
  own = refl;
  valid = line_at-IsValid 0 1 (omega arith) (omega arith);
  recycle_stored = refl;
}

pub line_back : LineReadBack on_disk (line_at 0)
line_back = record {
  first = b'l';
  rest = codes "ine";
  written = refl;
  read = refl;
  recycle_read = refl;
}

topic_kept : TopicKept on_disk (topic_at 0 0 1) running_world
unfolding get_data get set lookup bytes_eq
topic_kept = record {
  head_le = omega arith;
  tail_lt = omega arith;
  head_key = refl;
  tail_key = refl;
  head_stored = refl;
  tail_stored = refl;
  nodup = (refl, tt);
  lines = λ name l e.
      let (n, same) = the_line name l e in
      subst (λ x. LineKept on_disk (topic_at 0 0 1) name x running_world) same
        (subst (λ m. LineKept on_disk (topic_at 0 0 1) m (line_at 0) running_world) (sym n)
          line_kept);
}

topic_back : TopicReadBack on_disk (topic_at 0 0 1)
topic_back = record {
  first = b't';
  rest = codes "opic";
  written = refl;
  read = refl;
  lines = λ name l e. subst (LineReadBack on_disk) (the_line name l e).1 line_back;
}

topic-IsRunning : IsRunning on_disk (codes "t") (topic_at 0 0 1) running_world
topic-IsRunning = record { named = refl; plain = (refl, tt); kept = topic_kept; back = topic_back }

queue_kept : QueueKept on_disk one_topic running_world
unfolding get_data get set lookup bytes_eq
queue_kept = record {
  nodup = (refl, tt);
  running = λ name t e.
      let (n, same) = the_topic name t e in
      subst (λ x. IsRunning on_disk name x running_world) same
        (subst (λ m. IsRunning on_disk m (topic_at 0 0 1) running_world) (sym n) topic-IsRunning);
  apart = λ name t e f. absurd (cc ((the_topic name t e).0, f));
  names = codes "t" ∷ [];
  stored = written b'q' (codes "ueue") (codes "t" ∷ []) refl;
  listed = λ name. listed_at name;
}
  where
    listed_at :
        (name : Bytes) → contains name (codes "t" ∷ []) ≡ is_there (lookup name one_topic.topics)
    listed_at name = ground arith

queue_close-new_united_queue_example :
    (u' : UnitedQueue) × (w' : World MemStore) × (new_united_queue on_disk
        (record { stored = (queue_close on_disk one_topic running_world).1.stored; sent = [] })
      ≡ loads (u', w'))
    × ((name : Bytes) → RestoredAt (lookup name one_topic.topics) (lookup name u'.topics))
queue_close-new_united_queue_example =
    queue_close-new_united_queue on_disk durable-Laws durable-Reliable one_topic running_world
      (λ m. m) (λ k s. refl) queue_kept

-- The topic with no message yet.
abbrev blank_store : MemStore
blank_store =
    (set (codes "t:head") (little_endian 8 0)
      (set (codes "t:tail") (little_endian 8 0)
        (set (codes "t/x:recycle") (codes "10ns") new_mem_store).1).1).1

abbrev blank_world : World MemStore
blank_world = record { stored = blank_store; sent = [] }

blank-IsSound : IsSound on_disk (topic_at 0 0 0) blank_world
blank-IsSound = record {
  head_le = omega arith;
  tail_lt = omega arith;
  head_key = refl;
  tail_key = refl;
  served = λ name l e.
      subst (IsServed (topic_at 0 0 0)) (only_line 0 0 0 name l e)
        (IsServed-topic_at 0 0 0 (omega arith) (omega arith) (omega arith));
  stored = λ i lo hi. absurd (omega (arith, hi));
}

blank_line : LineOwned on_disk (topic_at 0 0 0) (codes "x") (line_at 0) blank_world
unfolding recycle_key get_data get set lookup bytes_eq
blank_line = record { named = refl; plain = (refl, tt); own = refl; recycle_stored = refl }

blank-IsDurable : IsDurable on_disk (topic_at 0 0 0) blank_world
unfolding get_data get set lookup bytes_eq
blank-IsDurable = record {
  head_stored = refl;
  tail_stored = refl;
  nodup = (refl, tt);
  lines = λ name l e.
      let (n, same) = the_line name l e in
      subst (λ x. LineOwned on_disk (topic_at 0 0 0) name x blank_world) same
        (subst (λ m. LineOwned on_disk (topic_at 0 0 0) m (line_at 0) blank_world) (sym n)
          blank_line);
}

abbrev grown_topic : Topic
grown_topic = (m_push on_disk two_texts (topic_at 0 0 0) blank_world).1

abbrev grown_world : World MemStore
grown_world = (m_push on_disk two_texts (topic_at 0 0 0) blank_world).2

grown : Steps on_disk (topic_at 0 0 0) blank_world grown_topic grown_world
grown = onto _ _ _ _ start (pushes two_texts (omega arith))

grown_plain : PlainSteps on_disk grown
unfolding grown
grown_plain = (tt, tt)

grown_back : TopicReadBack on_disk grown_topic
unfolding m_push m_push_loop set_data set export_tail
grown_back = record {
  first = b't';
  rest = codes "opic";
  written = refl;
  read = refl;
  lines = λ name l e. subst (LineReadBack on_disk) (the_line name l e).1 line_back;
}

reachable_reload_example :
    TopicLoaded on_disk grown_topic (exported on_disk grown_topic grown_world)
reachable_reload_example =
    reachable_reload on_disk durable-Laws durable-Reliable blank-IsSound blank-IsDurable grown
      grown_plain grown_back

-- A second topic.
abbrev other_topic : Topic
other_topic = record {
  name = codes "u";
  persist = false;
  lines = [];
  head = 0;
  head_key = codes "u" ++ key_topic_head;
  tail = 0;
  tail_key = codes "u" ++ key_topic_tail;
  quit = false;
}

other-IsSound : IsSound on_disk other_topic blank_world
unfolding lookup
other-IsSound = record {
  head_le = omega arith;
  tail_lt = omega arith;
  head_key = refl;
  tail_key = refl;
  served = λ name l e. absurd (cc e);
  stored = λ i lo hi. absurd (omega (arith, hi));
}

names_differ : (topic_at 0 0 0).name ≢ other_topic.name
names_differ e = absurd (ground (arith, e))

Steps-IsSound_other_example : IsSound on_disk other_topic grown_world
Steps-IsSound_other_example =
    Steps-IsSound_other on_disk durable-Laws other_topic (refl, tt) (refl, tt) names_differ
      blank-IsSound other-IsSound grown
