-- ===== src/Entry/Redis/Pipeline.antt =====
-- A session on the bytes of whole commands handles these commands, one after the other.
use uq.Prelude.{
  ℕ, zero, suc, ◌*◌, ◌^◌, ◌≤◌, ◌<◌, ◌≡◌, refl, ap, fun_ext, Bytes, List, [], ◌∷◌, ◌++◌, All, arith,
  length, length-append,
}
use uq.Queue.Interface.{MessageQueue}
use uq.Entry.{Runtime, done, Session, ends}
use uq.Entry.Bufio.{failed, eof, read_byte}
use uq.Entry.Redis.Session.{Command, command_bytes, skip_byte, read_command}
use uq.Entry.Redis.Server.{process, then_serve, serve, handler_conn}
use uq.Entry.Redis.RoundTrip.{Fits, read_command-command_bytes}

unfoldable pub commands_bytes : List Command → Bytes
commands_bytes [] = []
commands_bytes (cmd ∷ cmds) = command_bytes cmd ++ commands_bytes cmds

module _ (go : Runtime) (limit : go.room < 2 ^ 63) where
  abbrev pub CommandFits : Command → Type 0
  CommandFits cmd = All (Fits go limit) cmd.args × (24 * length cmd.args ≤ go.room)

  module _ {Q : Type 0} (mq : MessageQueue Q) where
    -- What the commands do, each on the queue that the one before leaves; the replies in their order.
    unfoldable pub process_all : (ℕ → ℕ) → List Command → Q → Session (Bytes × Q)
    process_all clock [] q = ends (done ([], q))
    process_all clock (cmd ∷ cmds) q =
        then_serve go mq (process go mq cmd (clock (length (commands_bytes cmds))) q)
          (process_all clock cmds)

    read_command_end : read_command go [] ≡ failed eof
    unfolding read_command skip_byte read_byte
    read_command_end = refl

    serve-commands_bytes :
        (fuel : ℕ) (clock : ℕ → ℕ) (cmds : List Command) (q : Q)
        → All CommandFits cmds
        → length cmds < fuel
        → serve go mq fuel clock (commands_bytes cmds) q ≡ process_all clock cmds q
    unfolding serve commands_bytes process_all
    serve-commands_bytes zero clock cmds q h b = absurd (omega (arith, b))
    serve-commands_bytes (suc fuel) clock [] q h b = rw (read_command_end, serve) refl
    serve-commands_bytes (suc fuel) clock (cmd ∷ cmds) q (h, hs) b =
        rw (read_command-command_bytes go limit cmd (commands_bytes cmds) h.0 h.1, serve)
          (ap (then_serve go mq (process go mq cmd (clock (length (commands_bytes cmds))) q))
            (fun_ext λ q'. serve-commands_bytes fuel clock cmds q' hs (omega (arith, b))))

    length-commands_bytes : (cmds : List Command) → length cmds ≤ length (commands_bytes cmds)
    unfolding commands_bytes command_bytes
    length-commands_bytes [] = omega arith
    length-commands_bytes (cmd ∷ cmds) =
        let more = commands_bytes cmds in
        omega (arith, length-commands_bytes cmds, length-append {0} (command_bytes cmd) more)

    -- handlerConn on the bytes of commands, sent in one piece, whose arguments can be allocated: it
    -- handles every command in order, each on the queue that the one before leaves, writes the replies
    -- in the same order and then ends with the connection.
    pub handler_conn-commands_bytes :
        (clock : ℕ → ℕ) (cmds : List Command) (q : Q)
        → All CommandFits cmds
        → handler_conn go mq clock (commands_bytes cmds) q ≡ process_all clock cmds q
    unfolding handler_conn
    handler_conn-commands_bytes clock cmds q h =
        serve-commands_bytes (suc (length (commands_bytes cmds))) clock cmds q h
          (omega (arith, length-commands_bytes cmds))
