-- ===== src/Examples/Memcached.antt =====
-- The memcached server at concrete inputs, in front of a queue that is stored in memory.
use uq.Prelude.{
  ◌≡◌, ◌≢◌, refl, Bytes, bytes_eq, lookup, codes, List, [], ◌++◌, true, false, arith, Dict,
}
use uq.Utils.Errors.{ok}
use uq.Utils.Strings.{split_slash, trim_slash_suffix, trim_slash_prefix, format_uint}
use uq.Queue.Line.{pop}
use uq.Store.MemStore.{MemStore, set, get}
use uq.Queue.Interface.{Live, united}
use uq.Queue.Deps.{set_data, get_data}
use uq.Queue.UnitedQueue.{queue_push, queue_pop, trim_key}
use uq.Queue.Topic.{push, topic_pop, topic_data, export_tail}
use uq.Entry.{Ended, crashes}
use uq.Entry.Memcached.Input.{is_space}
use uq.Entry.Memcached.Request.{Item, asked, read}
use uq.Entry.Memcached.Process.{process}
use uq.Entry.Memcached.Server.{and_more, serve, handler_conn}
use uq.Entry.Memcached.Lines.{Word}
use uq.Entry.Memcached.RoundTrip.{set_bytes, get_bytes, set_request, read-set_bytes}
use uq.Entry.Memcached.Safe.{process-read}
use uq.Entry.Memcached.Ends.{RequestHangs, handler_conn_ends}
use uq.Entry.Memcached.Answers.{stored_reply, value_bytes, serve-set_bytes, serve-get_bytes}
use uq.Examples.Topics.{in_memory}
use uq.Examples.Redis.{machine, live, ticks}

abbrev in_order : Dict Item → List (Bytes × Item)
in_order m = m

topic_name-Word : Word (codes "t")
unfolding is_space
topic_name-Word = (λ h. absurd (cc (h)), ((refl, refl), tt))

line_name-Word : Word (codes "t/x")
unfolding is_space
line_name-Word = (λ h. absurd (cc (h)), ((refl, refl), ((refl, refl), ((refl, refl), tt))))

read-set_bytes_example :
    read machine (set_bytes true (codes "t") 0 30 (codes "a\r\nb") true ++ codes "get t/x\r\n")
    ≡ asked (set_request true (codes "t") 0 30 (codes "a\r\nb") true) (codes "get t/x\r\n")
read-set_bytes_example =
    read-set_bytes machine true (codes "t") 0 30 (codes "a\r\nb") true (codes "get t/x\r\n")
      topic_name-Word (omega arith) (omega arith) (omega arith) (omega arith)

process-read_example :
    process (united in_memory) (set_request true (codes "t") 0 30 (codes "two") false) 7 live
    ≢ crashes
process-read_example =
    process-read (united in_memory) machine
      (set_bytes true (codes "t") 0 30 (codes "two") false ++ []) []
      (set_request true (codes "t") 0 30 (codes "two") false) 7 live
      (read-set_bytes machine true (codes "t") 0 30 (codes "two") false [] topic_name-Word
        (omega arith) (omega arith) (omega arith) (omega arith))

handler_conn_ends_example :
    (serve machine in_order (united in_memory) 1000 ticks (codes "get t/x\r\nquit\r\n") live
      ≡ handler_conn machine in_order (united in_memory) ticks (codes "get t/x\r\nquit\r\n") live)
    × Ended
        (RequestHangs machine in_order (united in_memory))
        (handler_conn machine in_order (united in_memory) ticks (codes "get t/x\r\nquit\r\n") live)
handler_conn_ends_example =
    handler_conn_ends machine in_order (united in_memory) 1000 ticks (codes "get t/x\r\nquit\r\n")
      live (omega arith)

abbrev pushed : Live MemStore
pushed = ((united in_memory).push (codes "t") (codes "two") live).1

push_ok : (united in_memory).push (codes "t") (codes "two") live ≡ (ok tt, pushed)
unfolding queue_push push set_data lookup bytes_eq set trim_key trim_slash_suffix trim_slash_prefix
    export_tail
push_ok = refl

serve-set_bytes_example :
    serve machine in_order
      (united in_memory)
      9
      ticks
      (set_bytes true (codes "t") 0 30 (codes "two") false ++ codes "quit\r\n")
      live
    ≡ and_more machine in_order
        (united in_memory)
        (stored_reply machine in_order (united in_memory) false)
        (serve machine in_order (united in_memory) 8 ticks (codes "quit\r\n") pushed)
serve-set_bytes_example =
    serve-set_bytes machine in_order (united in_memory) 8 ticks (codes "t") 0 30 (codes "two") false
      (codes "quit\r\n") live pushed topic_name-Word (omega arith) (omega arith) (omega arith)
      (omega arith) push_ok

abbrev popped : Live MemStore
popped = ((united in_memory).pop (codes "t/x") 7 live).1

pop_ok : (united in_memory).pop (codes "t/x") 7 live ≡ (ok (codes "t/x/0", codes "one"), popped)
unfolding queue_pop topic_pop lookup bytes_eq get split_slash trim_key trim_slash_suffix
    trim_slash_prefix pop topic_data get_data set format_uint
pop_ok = refl

serve-get_bytes_example :
    serve machine in_order
      (united in_memory)
      9
      ticks
      (get_bytes (codes "t/x") [] ++ codes "quit\r\n")
      live
    ≡ and_more machine in_order
        (united in_memory)
        (value_bytes machine in_order (united in_memory) (codes "t/x") (codes "one"))
        (serve machine in_order (united in_memory) 8 ticks (codes "quit\r\n") popped)
serve-get_bytes_example =
    serve-get_bytes machine in_order (united in_memory) 8 ticks (codes "t/x") (codes "t/x/0")
      (codes "one") (codes "quit\r\n") live popped line_name-Word (omega arith) refl pop_ok
