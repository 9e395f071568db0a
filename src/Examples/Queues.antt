-- ===== src/Examples/Queues.antt =====
-- A queue with the topic "t", its line "x" and one message.
use uq.Prelude.{◌≡◌, refl, codes, [], ◌∷◌, some, lookup, bytes_eq, arith}
use mathlib.Core.List.{cons-ne-nil}
use uq.Utils.Errors.{ok}
use uq.Utils.Strings.{split_slash, acatui, trim_slash_prefix, trim_slash_suffix, format_uint}
use uq.Store.MemStore.{MemStore, new_mem_store, set, get}
use uq.Queue.Line.{pop}
use uq.Queue.Deps.{World, get_data}
use uq.Queue.Topic.{topic_pop, topic_data, message_key}
use uq.Queue.UnitedQueue.{UnitedQueue, trim_key, queue_pop, queue_confirm}
use uq.Queue.UnitedQueue.RoundTrip.{queue_pop-queue_confirm}
use uq.Examples.Topics.{in_memory, line_at, topic_at, line_at-IsValid}

abbrev pub one_topic : UnitedQueue
one_topic = record { topics = (codes "t", topic_at 0 0 1) ∷ [] }

abbrev pub one_stored : World MemStore
one_stored = record { stored = (set (codes "t:0") (codes "one") new_mem_store).1; sent = [] }

key_split : split_slash (trim_key (codes "/t/x")) ≡ codes "t" ∷ codes "x" ∷ []
unfolding split_slash trim_key trim_slash_suffix trim_slash_prefix
key_split = refl

popped_key :
    (queue_pop in_memory (codes "/t/x") 3 one_topic one_stored).0 ≡ ok (codes "t/x/0", codes "one")
unfolding queue_pop topic_pop pop get_data message_key lookup bytes_eq trim_key split_slash set get
    topic_data acatui trim_slash_suffix trim_slash_prefix format_uint
popped_key = refl

topic_there : lookup (codes "t") one_topic.topics ≡ some (topic_at 0 0 1)
unfolding lookup bytes_eq
topic_there = refl

line_there : lookup (codes "x") (topic_at 0 0 1).lines ≡ some (line_at 0)
unfolding lookup bytes_eq
line_there = refl

queue_pop-queue_confirm_example :
    (queue_confirm in_memory
      (codes "t/x/0")
      (queue_pop in_memory (codes "/t/x") 3 one_topic one_stored).1).0
    ≡ ok tt
queue_pop-queue_confirm_example =
    queue_pop-queue_confirm in_memory (codes "/t/x") 3 one_topic one_stored (codes "t") (codes "x")
      (topic_at 0 0 1) (line_at 0) (codes "t/x/0") (codes "one") key_split (cons-ne-nil _ _)
      topic_there line_there (line_at-IsValid 0 1 (omega arith) (omega arith)) refl popped_key
