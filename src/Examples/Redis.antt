-- ===== src/Examples/Redis.antt =====
-- The redis server at concrete inputs, in front of a queue that is stored in memory.
use uq.Prelude.{
  ℕ, ◌≤◌, ◌≡◌, ◌≢◌, refl, codes, [], ◌∷◌, ◌++◌, arith, length, All, negsuc, lookup, bytes_eq, some,
  ◌∙◌,
}
use uq.Utils.Strings.{itoa, contains_any, split_slash, trim_slash_prefix, trim_slash_suffix}
use uq.Store.MemStore.{MemStore, set, mem_storage-Laws}
use uq.Queue.Interface.{Live, united}
use uq.Entry.{ends, Ended, Runtime, done, crashes}
use uq.Entry.Bufio.{got}
use uq.Entry.Redis.Client.{read_reply}
use uq.Entry.Redis.Client.Replies.{IsReadable, read_reply-write_reply}
use uq.Entry.Redis.Session.{
  Reply, multi_bulks, text, write_reply, Command, status, multi_bulks, crlf, command_bytes,
  read_command, read_line,
}
use uq.Entry.Redis.Server.{process, serve, handler_conn}
use uq.Entry.Redis.RoundTrip.{read_command-command_bytes}
use uq.Entry.Redis.Pipeline.{commands_bytes, process_all, handler_conn-commands_bytes}
use uq.Entry.Redis.Safe.{process-Safe}
use uq.Entry.Redis.Ends.{CommandHangs, handler_conn-serve}
use uq.Entry.Redis.Terminator.{read_line_any}
use uq.Entry.Redis.Malformed.{handler_conn_minus}
use uq.Examples.Topics.{in_memory, topic_at, line_at, empty_world, empty_topic-IsSound}
use uq.Entry.Redis.Delivery.{qmpop, PlainKey, process-qmpush, process-pushed_popped}
use uq.Entry.Redis.Handlers.{answer, popped_bulks}
use uq.Queue.Line.Order.{numbered}
use uq.Queue.Deps.{set_data}
use uq.Queue.Topic.{m_push, m_push_loop, export_tail}
use uq.Queue.UnitedQueue.{trim_key, multi_push, first_empty}
use uq.Queue.UnitedQueue.Delivery.{keyed}
use uq.Examples.Queues.{one_topic, one_stored}

-- A gigabyte of room, and answers for texts that are not ASCII.
abbrev pub machine : Runtime
machine = record {
  room = 1073741824;
  to_upper_other = λ s. s;
  fields_other = λ s. s ∷ [];
  atoi_error = λ s. codes "strconv.ParseInt: " ++ s;
}

abbrev pub live : Live MemStore
live = record { queue = one_topic; world = one_stored }

abbrev get_x : Command
get_x = record { args = codes "get" ∷ codes "t/x" ∷ [] }

abbrev push_two : Command
push_two = record { args = codes "QMPUSH" ∷ codes "t" ∷ codes "two" ∷ codes "three" ∷ [] }

abbrev pub ticks : ℕ → ℕ
ticks left = 7

get_x-fits : All (λ arg. length arg ≤ 1073741824) get_x.args
get_x-fits = (omega arith, (omega arith, tt))

push_two-fits : All (λ arg. length arg ≤ 1073741824) push_two.args
push_two-fits = (omega arith, (omega arith, (omega arith, (omega arith, tt))))

read_command-command_bytes_example :
    read_command machine (command_bytes push_two ++ command_bytes get_x)
    ≡ got push_two (command_bytes get_x)
read_command-command_bytes_example =
    read_command-command_bytes machine (omega arith) push_two (command_bytes get_x) push_two-fits
      (omega arith)

handler_conn-commands_bytes_example :
    handler_conn machine (united in_memory) ticks (commands_bytes (push_two ∷ get_x ∷ [])) live
    ≡ process_all machine (omega arith) (united in_memory) ticks (push_two ∷ get_x ∷ []) live
handler_conn-commands_bytes_example =
    handler_conn-commands_bytes machine (omega arith) (united in_memory) ticks
      (push_two ∷ get_x ∷ []) live ((push_two-fits, omega arith), ((get_x-fits, omega arith), tt))

process-Safe_example : process machine (united in_memory) push_two 7 live ≢ crashes
process-Safe_example = process-Safe machine (united in_memory) push_two 7 live

handler_conn-serve_example :
    (serve machine (united in_memory) 1000 ticks (codes "*1\r\n$4\r\nINFO") live
      ≡ handler_conn machine (united in_memory) ticks (codes "*1\r\n$4\r\nINFO") live)
    × Ended
        (CommandHangs machine (united in_memory))
        (handler_conn machine (united in_memory) ticks (codes "*1\r\n$4\r\nINFO") live)
handler_conn-serve_example =
    handler_conn-serve machine (united in_memory) 1000 ticks (codes "*1\r\n$4\r\nINFO") live
      (omega arith)

read_line_any_example :
    read_line (codes "12" ++ b'x' ∷ b'\n' ∷ codes "rest") ≡ got (codes "12") (codes "rest")
read_line_any_example =
    read_line_any (codes "12") (codes "rest") b'x' (refl, (refl, tt)) refl (omega arith)

handler_conn_minus_example :
    handler_conn machine (united in_memory) ticks (b'*' ∷ (itoa (negsuc 0) ++ (crlf ++ []))) live
    ≡ ends crashes
handler_conn_minus_example =
    handler_conn_minus machine (united in_memory) ticks 0 [] live (omega arith)

abbrev fresh : Live MemStore
fresh = record { queue = record { topics = (codes "t", topic_at 0 0 0) ∷ [] }; world = empty_world }

abbrev filled : Live MemStore
filled = ((united in_memory).multi_push (codes "/t") (codes "one" ∷ codes "two" ∷ []) fresh).1

topic_key : trim_key (codes "/t") ≡ codes "t"
unfolding trim_key trim_slash_suffix trim_slash_prefix
topic_key = refl

line_parts : split_slash (trim_key (codes "/t/x")) ≡ codes "t" ∷ codes "x" ∷ []
unfolding split_slash trim_key trim_slash_suffix trim_slash_prefix
line_parts = refl

topic_found : lookup (codes "t") fresh.queue.topics ≡ some (topic_at 0 0 0)
unfolding lookup bytes_eq
topic_found = refl

line_found : lookup (codes "x") (topic_at 0 0 0).lines ≡ some (line_at 0)
unfolding lookup bytes_eq
line_found = refl

plain_topic : PlainKey (codes "/t")
unfolding contains_any
plain_topic = refl

plain_line : PlainKey (codes "/t/x")
unfolding contains_any
plain_line = refl

push_done :
    answer ((united in_memory).multi_push (codes "/t") (codes "one" ∷ codes "two" ∷ []) fresh)
    ≡ done (status (codes "OK"), filled)
unfolding multi_push first_empty lookup bytes_eq m_push m_push_loop set_data set export_tail
    trim_key trim_slash_suffix trim_slash_prefix
push_done = refl

process-pushed_popped_example :
    (after : Live MemStore) × (process machine (united in_memory) (qmpop (codes "/t/x") 5) 7 filled
      ≡ done (
        multi_bulks (
            some (
              popped_bulks
                (keyed (trim_key (codes "/t/x")) (numbered 0 (codes "one" ∷ codes "two" ∷ []))))),
        after,
      ))
process-pushed_popped_example =
    process-pushed_popped machine in_memory mem_storage-Laws (codes "/t") (codes "/t/x")
      (codes "one") (codes "two" ∷ []) fresh filled (codes "t") (codes "x") (topic_at 0 0 0)
      (line_at 0) 5 3 7 plain_topic plain_line topic_key line_parts topic_found line_found
      empty_topic-IsSound refl (λ p. refl) (omega arith) (omega arith) (omega arith)
      (process-qmpush machine (united in_memory) (codes "/t") (codes "one") (codes "two" ∷ []) 3
          fresh plain_topic
        ∙ push_done)

-- A list of two texts, as a client reads it.
abbrev two_bulks : Reply
two_bulks = multi_bulks (some (text (codes "t/x/0") ∷ text (codes "one") ∷ []))

two_bulks-IsReadable : IsReadable machine two_bulks
two_bulks-IsReadable =
    (((omega arith, omega arith), ((omega arith, omega arith), tt)), omega arith, omega arith)

read_reply-write_reply_example :
    read_reply machine (write_reply two_bulks ++ codes "+OK") ≡ got two_bulks (codes "+OK")
read_reply-write_reply_example =
    read_reply-write_reply machine two_bulks (codes "+OK") two_bulks-IsReadable
