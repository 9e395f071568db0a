-- ===== src/Entry/Redis/Handlers.antt =====
-- entry/redisQueue.go: the handler of each command. A handler takes the queue `q` and returns it with
-- the reply; `now` is the clock.
use uq.Prelude.{ℕ, Bytes, codes, List, [], ◌∷◌, ◌++◌, map, none, some}
use uq.Utils.Errors.{Result, ok, err, Error, new_error, error_text, err_bad_request}
use uq.Queue.Topic.{Outcome, returns, blocks}
use uq.Queue.Stats.{to_redis_strings}
use uq.Queue.Interface.{MessageQueue}
use uq.Entry.{Runtime, Handled, done, hangs, crashes}
use uq.Entry.Redis.Session.{Command, Bulk, text, Reply, status, error, multi_bulks}
use uq.Entry.Redis.Command.{string_at, arg_at, int_at, args_from, command_text}

unfoldable pub error_reply : Error → Reply
error_reply e = error (error_text e)

abbrev pub bad_request : Bytes → Error
bad_request why = new_error err_bad_request why

-- The reply of a call that returns an error only.
abbrev pub plain_reply : Result Error (Unit {0}) → Reply
plain_reply (ok _) = status (codes "OK")
plain_reply (err e) = error_reply e

abbrev pub answer : {Q : Type 0} → Result Error (Unit {0}) × Q → Handled (Reply × Q)
answer (r, q) = done (plain_reply r, q)

abbrev pub answer_outcome :
    {Q : Type 0} → Outcome (Result Error (Unit {0}) × Q) → Handled (Reply × Q)
answer_outcome (returns (r, q)) = done (plain_reply r, q)
answer_outcome blocks = hangs

-- The elements for popped messages: the bytes and then the key of each.
abbrev pub popped_bulks : List (Bytes × Bytes) → List Bulk
popped_bulks [] = []
popped_bulks ((key, bytes) ∷ got) = text bytes ∷ text key ∷ popped_bulks got

abbrev confirmed_bulk : Result Error (Unit {0}) → Bulk
confirmed_bulk (ok _) = text (codes "OK")
confirmed_bulk (err e) = text (error_text e)

module _ {Q : Type 0} (go : Runtime) (mq : MessageQueue Q) where
  unfoldable pub on_qadd : Command → Q → Handled (Reply × Q)
  on_qadd cmd q = answer_outcome (mq.create (string_at 1 cmd) (string_at 2 cmd) q)

  unfoldable pub on_qpush : Command → Q → Handled (Reply × Q)
  on_qpush cmd q = elim (arg_at 2 cmd) [
    | err e ↦ done (error_reply (bad_request e), q)
    | ok val ↦ answer (mq.push (string_at 1 cmd) val q)
  ]

  unfoldable pub on_qmpush : Command → Q → Handled (Reply × Q)
  on_qmpush cmd q = elim (args_from 2 cmd.args) [
    | none ↦ crashes
    | some vals ↦ answer (mq.multi_push (string_at 1 cmd) vals q)
  ]

  unfoldable pub on_qpop : Command → ℕ → Q → Handled (Reply × Q)
  on_qpop cmd now q =
      let (r, q') = mq.pop (string_at 1 cmd) now q in
      elim r [
        | err e ↦ done (error_reply e, q')
        | ok (key, bytes) ↦ done (multi_bulks (some (popped_bulks ((key, bytes) ∷ []))), q')
      ]

  unfoldable pub on_qmpop : Command → ℕ → Q → Handled (Reply × Q)
  on_qmpop cmd now q = elim (int_at go 2 cmd) [
    | err e ↦ done (error_reply (bad_request e), q)
    | ok n ↦
        let (r, q') = mq.multi_pop (string_at 1 cmd) n now q in
        elim r [
          | err e ↦ done (error_reply e, q')
          | ok got ↦ done (multi_bulks (some (popped_bulks got)), q')
        ]
  ]

  unfoldable pub on_qdel : Command → Q → Handled (Reply × Q)
  on_qdel cmd q = answer (mq.confirm (string_at 1 cmd) q)

  unfoldable pub on_qmdel : Command → Q → Handled (Reply × Q)
  on_qmdel cmd q = elim (args_from 1 cmd.args) [
    | none ↦ crashes
    | some keys ↦
        let (rs, q') = mq.multi_confirm keys q in
        done (multi_bulks (some (map confirmed_bulk rs)), q')
  ]

  unfoldable pub on_qempty : Command → Q → Handled (Reply × Q)
  on_qempty cmd q = answer (mq.empty (string_at 1 cmd) q)

  unfoldable pub on_info : Command → Q → Handled (Reply × Q)
  on_info cmd q = elim (mq.stat (string_at 1 cmd) q) [
    | err e ↦ done (error_reply e, q)
    | ok qs ↦ done (multi_bulks (some (map (λ s. text s) (to_redis_strings qs))), q)
  ]

  unfoldable pub on_undefined : Command → Q → Handled (Reply × Q)
  on_undefined cmd q =
      done (error_reply (bad_request (codes "command not supported: " ++ command_text cmd)), q)
