-- ===== src/Entry/Redis/Safe.antt =====
-- A command that has been read never makes its handler panic.
use uq.Prelude.{
  ℕ, zero, suc, ◌≤◌, ◌≡◌, ◌≢◌, refl, sym, ap, ◌∙◌, inl, inr, Bytes, bytes_eq, eq_of_bytes_eq, codes,
  List, [], ◌∷◌, Bool, true, false, ◌||◌, Option, none, some, arith, leb, length, lookup,
  if◌then◌else◌, Bool-cases, Option-cases,
}
use uq.Utils.Errors.{Result, ok, err, Result-cases, Error}
use uq.Queue.Topic.{Outcome, returns, blocks}
use uq.Queue.Interface.{MessageQueue}
use uq.Entry.{Runtime, Handled, done, crashes}
use uq.Entry.Redis.Session.{Command}
use uq.Entry.Redis.Command.{
  name, args_from, arg_at, int_at, verify_command, allows, at_least, verify_key, command_rules,
  Rule, rule, string_at, bad_command, wrong_argument_count,
}
use uq.Entry.Redis.Handlers.{
  on_qadd, on_qpush, on_qmpush, on_qpop, on_qmpop, on_qdel, on_qmdel, on_qempty, on_info,
  on_undefined, answer, answer_outcome,
}
use uq.Entry.Redis.Server.{handler, command_handler, process}

abbrev Safe : {A : Type 0} → Handled A → Type 0
Safe h = h ≢ crashes

done-Safe : {A : Type 0} (a : A) → Safe (done a)
done-Safe a h = absurd (cc (h))

args_from_some : (n : ℕ) (args : List Bytes) → n ≤ length args → args_from n args ≢ none
unfolding args_from
args_from_some zero args h = λ e. absurd (cc (e))
args_from_some (suc n) [] h = absurd (omega (arith, h))
args_from_some (suc n) (arg ∷ args) h = args_from_some n args (omega (arith, h))

Safe-elim :
    {A B : Type 0} (r : Result A B) {C : Type 0} (f : A → Handled C) (g : B → Handled C)
    → ((a : A) → Safe (f a))
    → ((b : B) → Safe (g b))
    → Safe (elim r [ err a ↦ f a | ok b ↦ g b ])
Safe-elim (ok b) f g hf hg = hg b
Safe-elim (err a) f g hf hg = hf a

answer-Safe : {Q : Type 0} (rq : Result Error (Unit {0}) × Q) → Safe (answer rq)
answer-Safe (r, q) = done-Safe _

answer_outcome-Safe :
    {Q : Type 0} (o : Outcome (Result Error (Unit {0}) × Q)) → Safe (answer_outcome o)
answer_outcome-Safe (returns (r, q)) = done-Safe _
answer_outcome-Safe blocks = λ h. absurd (cc (h))

module _ {Q : Type 0} (go : Runtime) (mq : MessageQueue Q) where
  on_qadd-Safe : (cmd : Command) (q : Q) → Safe (on_qadd go mq cmd q)
  unfolding on_qadd
  on_qadd-Safe cmd q = answer_outcome-Safe (mq.create (string_at 1 cmd) (string_at 2 cmd) q)

  on_qpush-Safe : (cmd : Command) (q : Q) → Safe (on_qpush go mq cmd q)
  unfolding on_qpush
  on_qpush-Safe cmd q =
      Safe-elim (arg_at 2 cmd) _ _ (λ e. done-Safe _)
        (λ val. answer-Safe (mq.push (string_at 1 cmd) val q))

  on_qmpush-Safe : (cmd : Command) (q : Q) → 2 ≤ length cmd.args → Safe (on_qmpush go mq cmd q)
  unfolding on_qmpush
  on_qmpush-Safe cmd q h = elim (Option-cases (args_from 2 cmd.args)) [
    | inl e ↦ absurd (args_from_some 2 cmd.args h e)
    | inr (vals, e) ↦ rw (e, on_qmpush) (answer-Safe (mq.multi_push (string_at 1 cmd) vals q))
  ]

  on_qpop-Safe : (cmd : Command) (now : ℕ) (q : Q) → Safe (on_qpop go mq cmd now q)
  unfolding on_qpop
  on_qpop-Safe cmd now q =
      Safe-elim (mq.pop (string_at 1 cmd) now q).0 _ _ (λ e. done-Safe _) (λ kv. done-Safe _)

  on_qmpop-Safe : (cmd : Command) (now : ℕ) (q : Q) → Safe (on_qmpop go mq cmd now q)
  unfolding on_qmpop
  on_qmpop-Safe cmd now q =
      Safe-elim (int_at go 2 cmd) _ _ (λ e. done-Safe _)
        λ n.
          Safe-elim (mq.multi_pop (string_at 1 cmd) n now q).0 _ _ (λ e. done-Safe _)
            (λ got. done-Safe _)

  on_qdel-Safe : (cmd : Command) (q : Q) → Safe (on_qdel go mq cmd q)
  unfolding on_qdel
  on_qdel-Safe cmd q = answer-Safe (mq.confirm (string_at 1 cmd) q)

  on_qmdel-Safe : (cmd : Command) (q : Q) → 1 ≤ length cmd.args → Safe (on_qmdel go mq cmd q)
  unfolding on_qmdel
  on_qmdel-Safe cmd q h = elim (Option-cases (args_from 1 cmd.args)) [
    | inl e ↦ absurd (args_from_some 1 cmd.args h e)
    | inr (keys, e) ↦ rw (e, on_qmdel) (done-Safe _)
  ]

  on_qempty-Safe : (cmd : Command) (q : Q) → Safe (on_qempty go mq cmd q)
  unfolding on_qempty
  on_qempty-Safe cmd q = answer-Safe (mq.empty (string_at 1 cmd) q)

  on_info-Safe : (cmd : Command) (q : Q) → Safe (on_info go mq cmd q)
  unfolding on_info
  on_info-Safe cmd q =
      Safe-elim (mq.stat (string_at 1 cmd) q) _ _ (λ e. done-Safe _) (λ qs. done-Safe _)

  on_undefined-Safe : (cmd : Command) (q : Q) → Safe (on_undefined go mq cmd q)
  unfolding on_undefined
  on_undefined-Safe cmd q = done-Safe _

  -- A command that the rule of the name `n` lets pass has the least count of arguments.
  abbrev Counted : Bytes → Command → Type 0
  Counted n cmd =
      (r : Rule) → lookup n command_rules ≡ some r → at_least r.min_count (length cmd.args) ≡ true

  one_of_two :
      (n a b : Bytes) (r : Option Rule)
      → lookup a command_rules ≡ r
      → lookup b command_rules ≡ r
      → (bytes_eq n a || bytes_eq n b) ≡ true
      → lookup n command_rules ≡ r
  one_of_two n a b r ha hb h = elim (Bool-cases (bytes_eq n a)) [
    | inl e ↦ ap (λ x. lookup x command_rules) (eq_of_bytes_eq n a e) ∙ ha
    | inr e ↦
        let same : n ≡ b = eq_of_bytes_eq n b (ground arith) in
        ap (λ x. lookup x command_rules) same ∙ hb
  ]

  Counted-least :
      (n a b : Bytes) (cmd : Command) (lo : ℕ)
      → lookup a command_rules ≡ some (rule lo none)
      → lookup b command_rules ≡ some (rule lo none)
      → Counted n cmd
      → (bytes_eq n a || bytes_eq n b) ≡ true
      → lo ≤ length cmd.args
  unfolding at_least
  Counted-least n a b cmd lo ha hb count h =
      let c : leb lo (length cmd.args) ≡ true = count (rule lo none) (one_of_two n a b _ ha hb h) in
      grind arith

  handler-Safe :
      (n : Bytes) (cmd : Command) (now : ℕ) (q : Q)
      → Counted n cmd
      → Safe (handler go mq n cmd now q)
  unfolding handler
  handler-Safe n cmd now q count =
      let pushes : (bytes_eq n (codes "MSET") || bytes_eq n (codes "QMPUSH")) ≡ true
          → Safe (on_qmpush go mq cmd q) =
        λ h. on_qmpush-Safe cmd q (
          omega (
            arith,
            Counted-least n (codes "MSET") (codes "QMPUSH") cmd 3 (unfold lookup bytes_eq in refl)
                (unfold lookup bytes_eq in refl) count h,
          )) in
      let dels : (bytes_eq n (codes "MDEL") || bytes_eq n (codes "QMDEL")) ≡ true
          → Safe (on_qmdel go mq cmd q) =
        λ h. on_qmdel-Safe cmd q (
          omega (
            arith,
            Counted-least n (codes "MDEL") (codes "QMDEL") cmd 2 (unfold lookup bytes_eq in refl)
                (unfold lookup bytes_eq in refl) count h,
          )) in
      ground (
        arith,
        pushes,
        dels,
        on_qadd-Safe cmd q,
        on_qpush-Safe cmd q,
        on_qpop-Safe cmd now q,
        on_qmpop-Safe cmd now q,
        on_qdel-Safe cmd q,
        on_qempty-Safe cmd q,
        on_info-Safe cmd q,
        on_undefined-Safe cmd q,
      )

  named_checked :
      (n : Bytes) (cmd : Command) (r : Rule)
      → name go cmd ≡ some n
      → lookup n command_rules ≡ some r
      → verify_command go cmd
        ≡ (if allows r (length cmd.args) then verify_key cmd else err wrong_argument_count)
  unfolding verify_command
  named_checked n cmd r hn hr = rw (hn, verify_command) (rw hr refl)

  refused_count :
      (cmd : Command) (b : Bool) (u : Unit {0})
      → (if b then verify_key cmd else err wrong_argument_count) ≡ ok u
      → b ≡ true
  refused_count cmd true u h = refl
  refused_count cmd false u h = absurd (cc (h))

  verified-Counted :
      (n : Bytes) (cmd : Command) (u : Unit {0})
      → name go cmd ≡ some n
      → verify_command go cmd ≡ ok u
      → Counted n cmd
  unfolding allows
  verified-Counted n cmd u hn hv r hr =
      let allowed = refused_count cmd _ u (sym (named_checked n cmd r hn hr) ∙ hv) in ground arith

  unnamed_bad : (cmd : Command) → name go cmd ≡ none → verify_command go cmd ≡ err bad_command
  unfolding verify_command
  unnamed_bad cmd h = rw (h, verify_command) refl

  -- No command makes `process` panic, whatever the queue returns: what a handler takes from the
  -- arguments without a test of its own is there once the command has been verified.
  pub process-Safe : (cmd : Command) (now : ℕ) (q : Q) → process go mq cmd now q ≢ crashes
  unfolding process command_handler
  process-Safe cmd now q = elim (Result-cases (verify_command go cmd)) [
    | inr (e, h) ↦ rw (h, process) (done-Safe _)
    | inl (u, h) ↦ elim (Option-cases (name go cmd)) [
      | inl e ↦ absurd (cc (h, unnamed_bad cmd e))
      | inr (n, e) ↦
          rw (h, process)
            (rw (e, command_handler) (handler-Safe n cmd now q (verified-Counted n cmd u e h)))
    ]
  ]
