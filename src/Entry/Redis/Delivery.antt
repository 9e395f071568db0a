-- ===== src/Entry/Redis/Delivery.antt =====
-- Messages that go in through QMPUSH and come out through QMPOP, with UnitedQueue behind the server.
use uq.Prelude.{
  ℕ, ◌+◌, ◌≤◌, ◌<◌, ◌^◌, ◌≡◌, refl, sym, ap, subst, ◌∙◌, Bytes, bytes_eq, codes, List, [], ◌∷◌,
  true, false, some, arith, u64_mod, length, lookup, is_pos, ltb, leb, pos,
}
use uq.Utils.Errors.{Result, ok, err, Error}
use uq.Utils.Strings.{split_slash, format_uint, contains_any}
use uq.Utils.Strings.Digits.{atoi-format_uint}
use uq.Store.Interface.{Laws}
use uq.Queue.Line.{Line}
use uq.Queue.Line.Pop.{is_due}
use uq.Queue.Line.Order.{numbered}
use uq.Queue.Deps.{Deps}
use uq.Queue.Topic.{Topic}
use uq.Queue.Topic.Sound.{IsSound}
use uq.Queue.UnitedQueue.{trim_key}
use uq.Queue.UnitedQueue.Delivery.{keyed, multi_push-multi_pop}
use uq.Queue.Interface.{MessageQueue, Live, united}
use uq.Entry.{Runtime, Handled, done, hangs, crashes}
use uq.Entry.Redis.Session.{Command, Reply, status, multi_bulks}
use uq.Entry.Redis.Command.{
  name, nth, to_upper, upper, ascii, string_at, int_at, args_from, verify_command, verify_key,
  allows, at_least, at_most,
}
use uq.Entry.Redis.Handlers.{on_qmpush, on_qmpop, plain_reply, answer, error_reply, popped_bulks}
use uq.Entry.Redis.Server.{process, command_handler, handler}

abbrev pub qmpush : Bytes → List Bytes → Command
qmpush key ds = record { args = codes "QMPUSH" ∷ key ∷ ds }

abbrev pub qmpop : Bytes → ℕ → Command
qmpop key n = record { args = codes "QMPOP" ∷ key ∷ format_uint n ∷ [] }

-- A key that verifyCommand takes.
abbrev pub PlainKey : Bytes → Type 0
PlainKey key = contains_any key (codes "#[] ") ≡ false

module _ {Q : Type 0} (go : Runtime) (mq : MessageQueue Q) where
  verified_push :
      (key d : Bytes) (ds : List Bytes)
      → PlainKey key
      → verify_command go (qmpush key (d ∷ ds)) ≡ ok tt
  unfolding verify_command name nth to_upper upper ascii lookup bytes_eq allows at_least at_most
      verify_key string_at
  verified_push key d ds h =
      let count : leb 3 (length (qmpush key (d ∷ ds)).args) ≡ true = ground arith in
      let keyed : ltb 1 (length (qmpush key (d ∷ ds)).args) ≡ true = ground arith in
      rw count (rw keyed (rw h refl))

  pub process-qmpush :
      (key d : Bytes) (ds : List Bytes) (now : ℕ) (q : Q)
      → PlainKey key
      → process go mq (qmpush key (d ∷ ds)) now q ≡ answer (mq.multi_push key (d ∷ ds) q)
  unfolding process command_handler name nth to_upper upper ascii handler bytes_eq on_qmpush
      args_from string_at
  process-qmpush key d ds now q h = rw (verified_push key d ds h, process) refl

  verified_pop : (key : Bytes) (n : ℕ) → PlainKey key → verify_command go (qmpop key n) ≡ ok tt
  unfolding verify_command name nth to_upper upper ascii lookup bytes_eq allows at_least at_most
      verify_key string_at
  verified_pop key n h = rw h refl

  int_at_printed : (key : Bytes) (n : ℕ) → n < 2 ^ 63 → int_at go 2 (qmpop key n) ≡ ok (pos n)
  unfolding int_at nth
  int_at_printed key n b = rw (atoi-format_uint n b, int_at) refl

  handled_pop :
      (key : Bytes) (n now : ℕ) (q : Q)
      → PlainKey key
      → process go mq (qmpop key n) now q ≡ on_qmpop go mq (qmpop key n) now q
  unfolding process command_handler name nth to_upper upper ascii handler bytes_eq
  handled_pop key n now q h = rw (verified_pop key n h, process) refl

  process-qmpop :
      (key : Bytes) (n now : ℕ) (q : Q) (got : List (Bytes × Bytes))
      → PlainKey key
      → n < 2 ^ 63
      → (mq.multi_pop key (pos n) now q).0 ≡ ok got
      → process go mq (qmpop key n) now q
        ≡ done (multi_bulks (some (popped_bulks got)), (mq.multi_pop key (pos n) now q).1)
  unfolding on_qmpop string_at nth
  process-qmpop key n now q got h b e =
      handled_pop key n now q h ∙ rw (int_at_printed key n b, on_qmpop) (rw e refl)

-- A reply of OK says that the call had no error.
plain_reply_ok : (r : Result Error (Unit {0})) → plain_reply r ≡ status (codes "OK") → r ≡ ok tt
unfolding error_reply
plain_reply_ok (ok tt) h = refl
plain_reply_ok (err e) h = absurd (cc (h))

reply_of : {Q : Type 0} → Reply × Q → Handled (Reply × Q) → Reply × Q
reply_of other (done rq) = rq
reply_of other hangs = other
reply_of other crashes = other

done-injective : {Q : Type 0} (x y : Reply × Q) → done x ≡ done y → x ≡ y
unfolding reply_of
done-injective x y h = ap (reply_of x) h

module _ {S : Type 0} (go : Runtime) (deps : Deps S) (laws : Laws deps.storage) where
  -- When QMPUSH of one or more messages to a sound topic is answered with OK, and a line of it had read
  -- everything before and has no message due, QMPOP on that line, of at least as many messages and an
  -- int64, is answered with these messages in their order, each followed by its key. The keys are
  -- without spaces, brackets and number signs, and the ids stay below 2 ^ 64.
  pub process-pushed_popped :
      (push_key pop_key d : Bytes) (ds : List Bytes) (live live' : Live S) (topic line : Bytes)
      (t : Topic) (l : Line) (n before now : ℕ)
      → PlainKey push_key
      → PlainKey pop_key
      → trim_key push_key ≡ topic
      → split_slash (trim_key pop_key) ≡ topic ∷ line ∷ []
      → lookup topic live.queue.topics ≡ some t
      → lookup line t.lines ≡ some l
      → IsSound deps t live.world
      → l.head ≡ t.tail
      → (is_pos l.recycle ≡ true → is_due now l.inflight ≡ false)
      → t.tail + length (d ∷ ds) < u64_mod
      → length (d ∷ ds) ≤ n
      → n < 2 ^ 63
      → process go (united deps) (qmpush push_key (d ∷ ds)) before live
        ≡ done (status (codes "OK"), live')
      → (after : Live S) × (process go (united deps) (qmpop pop_key n) now live'
          ≡ done (
            multi_bulks (some (popped_bulks (keyed (trim_key pop_key) (numbered t.tail (d ∷ ds))))),
            after,
          ))
  process-pushed_popped push_key pop_key d ds live live' topic line t l n before now hp hq same
        parts f g sound at due b k m h =
      let mq = united deps in
      let pushed =
        done-injective _ _ (sym (process-qmpush go mq push_key d ds before live hp) ∙ h) in
      let sent = plain_reply_ok _ (ap (λ x. x.0) pushed) in
      let there =
        multi_push-multi_pop deps laws push_key pop_key (d ∷ ds) live.queue live.world topic line t
          l n now same parts f g sound at due b (omega arith) k sent in
      let popped : (mq.multi_pop pop_key (pos n) now live').0
          ≡ ok (keyed (trim_key pop_key) (numbered t.tail (d ∷ ds))) =
        subst
          (λ x.
            (mq.multi_pop pop_key (pos n) now x).0
            ≡ ok (keyed (trim_key pop_key) (numbered t.tail (d ∷ ds))))
          (ap (λ x. x.1) pushed) there in
      (
        (mq.multi_pop pop_key (pos n) now live').1,
        process-qmpop go mq pop_key n now live' _ hq m popped,
      )
