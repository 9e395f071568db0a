-- ===== src/Entry/Redis/Server.antt =====
-- entry/redisEntry.go: the choice of the handler, and the loop over a connection.
use uq.Prelude.{
  ℕ, zero, suc, Bytes, bytes_eq, codes, [], ◌++◌, ◌||◌, none, some, if◌then◌else◌, length,
}
use uq.Utils.Errors.{ok, err}
use uq.Queue.Interface.{MessageQueue}
use uq.Entry.{Runtime, Handled, done, hangs, crashes, Session, ends, cut_off}
use uq.Entry.Bufio.{got, failed, panics}
use uq.Entry.Redis.Session.{Command, Reply, read_command, write_reply}
use uq.Entry.Redis.Command.{name, verify_command}
use uq.Entry.Redis.Handlers.{
  error_reply, bad_request, on_qadd, on_qpush, on_qmpush, on_qpop, on_qmpop, on_qdel, on_qmdel,
  on_qempty, on_info, on_undefined,
}

module _ {Q : Type 0} (go : Runtime) (mq : MessageQueue Q) where
  -- The handler of the command with the name `n`.
  unfoldable pub handler : Bytes → Command → ℕ → Q → Handled (Reply × Q)
  handler n cmd now q =
      if bytes_eq n (codes "ADD") || bytes_eq n (codes "QADD")
      then on_qadd go mq cmd q
      else if bytes_eq n (codes "SET") || bytes_eq n (codes "QPUSH")
      then on_qpush go mq cmd q
      else if bytes_eq n (codes "MSET") || bytes_eq n (codes "QMPUSH")
      then on_qmpush go mq cmd q
      else if bytes_eq n (codes "GET") || bytes_eq n (codes "QPOP")
      then on_qpop go mq cmd now q
      else if bytes_eq n (codes "MGET") || bytes_eq n (codes "QMPOP")
      then on_qmpop go mq cmd now q
      else if bytes_eq n (codes "DEL") || bytes_eq n (codes "QDEL")
      then on_qdel go mq cmd q
      else if bytes_eq n (codes "MDEL") || bytes_eq n (codes "QMDEL")
      then on_qmdel go mq cmd q
      else if bytes_eq n (codes "EMPTY") || bytes_eq n (codes "QEMPTY")
      then on_qempty go mq cmd q
      else if bytes_eq n (codes "INFO") || bytes_eq n (codes "QINFO")
      then on_info go mq cmd q
      else on_undefined go mq cmd q

  unfoldable pub command_handler : Command → ℕ → Q → Handled (Reply × Q)
  command_handler cmd now q = elim (name go cmd) [ none ↦ crashes | some n ↦ handler n cmd now q ]

  unfoldable pub process : Command → ℕ → Q → Handled (Reply × Q)
  process cmd now q = elim (verify_command go cmd) [
    | err e ↦ done (error_reply (bad_request e), q)
    | ok _ ↦ command_handler cmd now q
  ]

  -- What is written, and then what the rest of the session writes.
  abbrev pub then_writes : Bytes → Session (Bytes × Q) → Session (Bytes × Q)
  then_writes out (ends (done (more, q))) = ends (done (out ++ more, q))
  then_writes out (ends hangs) = ends hangs
  then_writes out (ends crashes) = ends crashes
  then_writes out cut_off = cut_off

  abbrev pub then_serve : Handled (Reply × Q) → (Q → Session (Bytes × Q)) → Session (Bytes × Q)
  then_serve (done (rep, q)) rest = then_writes (write_reply rep) (rest q)
  then_serve hangs rest = ends hangs
  then_serve crashes rest = ends crashes

  -- The rounds of handlerConn, at most `fuel`: the bytes that are written. `clock` is the time at which
  -- a command is handled, by how much of the input is left then.
  unfoldable pub serve : ℕ → (ℕ → ℕ) → Bytes → Q → Session (Bytes × Q)
  serve zero clock input q = cut_off
  serve (suc fuel) clock input q = elim (read_command go input) [
    | failed e ↦ ends (done ([], q))
    | panics ↦ ends crashes
    | got cmd rest ↦ then_serve (process cmd (clock (length rest)) q) (serve fuel clock rest)
  ]

  -- handlerConn: a command takes at least one byte, so there are at most as many as bytes, and one
  -- round more finds the end of the input.
  unfoldable pub handler_conn : (ℕ → ℕ) → Bytes → Q → Session (Bytes × Q)
  handler_conn clock input q = serve (suc (length input)) clock input q
