-- ===== src/Entry/Redis/Ends.antt =====
-- A session ends: each round takes a byte of the input at least.
use uq.Prelude.{
  ℕ, zero, suc, ◌≤◌, ◌<◌, ◌≡◌, refl, ap, subst, fun_ext, Bytes, [], ◌∷◌, ◌++◌, arith, length, Bool,
  true, false, ◌==◌, if◌then◌else◌, Option, none, some, ℤ, inl, inr,
}
use uq.Utils.Strings.{atoi}
use uq.Queue.Interface.{MessageQueue}
use uq.Entry.{
  Runtime, Handled, done, hangs, crashes, Session, Ended, has_closed, has_crashed, waits,
}
use uq.Entry.Bufio.{
  Reader, Read-cases, illegal_byte, bad_number, got, failed, panics, buffer_size, read_byte,
  read_slice, read_full, make,
}
use uq.Entry.Bufio.Shrinks.{
  Left, Fewer, and_read-Left, and_read-Fewer, Left-mono, Left-Fewer, Fewer-Left, read_byte-Fewer,
  read_slice-Left, read_full-Left, make-Left,
}
use uq.Entry.Redis.Session.{
  Command, Reply, write_reply, crlf, skip_byte, skip_bytes, cut_two, read_line, read_int, read_args,
  read_command,
}
use uq.Entry.Redis.Server.{process, then_writes, then_serve, serve, handler_conn}

skip_byte-Fewer : (c : ℕ) (s : Bytes) → Fewer (length s) (skip_byte c s)
unfolding skip_byte
skip_byte-Fewer c s =
    and_read-Fewer _ (read_byte s) _ (read_byte-Fewer s) (λ tmp rest h. same tmp rest h (tmp == c))
  where
    same :
        (tmp : ℕ) (rest : Bytes)
        → length rest < length s
        → (b : Bool) → Fewer (length s) (if b then got tt rest else failed (illegal_byte tmp c))
    same tmp rest h true = h
    same tmp rest h false = tt

skip_byte-Left : (c : ℕ) (s : Bytes) → Left (length s) (skip_byte c s)
skip_byte-Left c s = Fewer-Left (length s) (skip_byte c s) (skip_byte-Fewer c s)

skip_bytes-Left : (cs s : Bytes) → Left (length s) (skip_bytes cs s)
unfolding skip_bytes
skip_bytes-Left [] s = omega arith
skip_bytes-Left (c ∷ cs) s =
    and_read-Left _ (skip_byte c s) _ (skip_byte-Left c s)
      λ _ rest h. Left-mono _ _ (skip_bytes cs rest) (skip_bytes-Left cs rest) h

read_line-Left : (s : Bytes) → Left (length s) (read_line s)
unfolding read_line
read_line-Left s =
    and_read-Left _ (read_slice buffer_size s) _ (read_slice-Left buffer_size s)
      (λ line rest h. cut rest h (cut_two line))
  where
    cut :
        (rest : Bytes)
        → length rest ≤ length s
        → (o : Option Bytes) → Left (length s) (elim o [ none ↦ panics | some l ↦ got l rest ])
    cut rest h none = tt
    cut rest h (some l) = h

read_int-Left : (s : Bytes) → Left (length s) (read_int s)
unfolding read_int
read_int-Left s =
    and_read-Left _ (read_line s) _ (read_line-Left s)
      (λ line rest h. number line rest h (atoi line))
  where
    number :
        (line rest : Bytes)
        → length rest ≤ length s
        → (o : Option ℤ)
        → Left (length s) (elim o [ none ↦ failed (bad_number line) | some i ↦ got i rest ])
    number line rest h none = tt
    number line rest h (some i) = h

module _ (go : Runtime) where
  -- A read that starts behind what another has left.
  then_Left :
      {A : Type 0} (n : ℕ) (m : Reader A) (s : Bytes)
      → ((t : Bytes) → Left (length t) (m t))
      → length s ≤ n
      → Left n (m s)
  then_Left n m s h b = Left-mono _ _ (m s) (h s) b

  read_args-Left : (n : ℕ) (s : Bytes) → Left (length s) (read_args go n s)
  unfolding read_args
  read_args-Left zero s = omega arith
  read_args-Left (suc n) s =
      let total = length s in
      and_read-Left total (skip_byte b'$' s) _ (skip_byte-Left b'$' s) λ _ s₁ h₁.
        and_read-Left total (read_int s₁) _ (then_Left total read_int s₁ read_int-Left h₁)
          λ size s₂ h₂.
            and_read-Left total (make go 1 size s₂) _
              (then_Left total (make go 1 size) s₂ (make-Left go 1 size) h₂)
              λ k s₃ h₃.
                and_read-Left total (read_full k s₃) _
                  (then_Left total (read_full k) s₃ (read_full-Left k) h₃)
                  λ arg s₄ h₄.
                    and_read-Left total (skip_bytes crlf s₄) _
                      (then_Left total (skip_bytes crlf) s₄ (skip_bytes-Left crlf) h₄)
                      λ _ s₅ h₅.
                        and_read-Left total (read_args go n s₅) _
                          (then_Left total (read_args go n) s₅ (read_args-Left n) h₅)
                          λ args s₆ h₆. h₆

  -- A command that is read takes at least one byte.
  read_command-Fewer : (s : Bytes) → Fewer (length s) (read_command go s)
  unfolding read_command
  read_command-Fewer s =
      and_read-Fewer (length s) (skip_byte b'*' s) _ (skip_byte-Fewer b'*' s) λ _ s₁ h₁.
        Left-Fewer (length s₁) (length s) _
          (and_read-Left (length s₁) (read_int s₁) _ (read_int-Left s₁) λ count s₂ h₂.
            and_read-Left (length s₁) (make go 24 count s₂) _
              (then_Left (length s₁) (make go 24 count) s₂ (make-Left go 24 count) h₂)
              λ n s₃ h₃.
                and_read-Left (length s₁) (read_args go n s₃) _
                  (then_Left (length s₁) (read_args go n) s₃ (read_args-Left n) h₃)
                  λ args s₄ h₄. h₄)
          h₁

  read_command_takes :
      (s rest : Bytes) (cmd : Command) → read_command go s ≡ got cmd rest → length rest < length s
  read_command_takes s rest cmd h = subst (Fewer (length s)) h (read_command-Fewer s)

  module _ {Q : Type 0} (mq : MessageQueue Q) where
    -- Two sessions with more rounds than bytes do the same.
    serve_enough :
        (fuel k : ℕ) (clock : ℕ → ℕ) (input : Bytes) (q : Q)
        → length input < fuel
        → length input < k
        → serve go mq fuel clock input q ≡ serve go mq k clock input q
    unfolding serve
    serve_enough zero k clock input q h b = absurd (omega (arith, h))
    serve_enough fuel zero clock input q h b = absurd (omega (arith, b))
    serve_enough (suc fuel) (suc k) clock input q h b = elim (Read-cases (read_command go input)) [
      | inl (cmd, rest, e) ↦
          let takes = read_command_takes input rest cmd e in
          rw (e, serve)
            (ap (then_serve go mq (process go mq cmd (clock (length rest)) q)) (
              fun_ext λ q'.
                serve_enough fuel k clock rest q' (omega (arith, h, takes))
                  (omega (arith, b, takes))))
      | inr (inl (err, e)) ↦ rw (e, serve) refl
      | inr (inr e) ↦ rw (e, serve) refl
    ]

    -- The queue has a call that waits for ever, in the handler of some command.
    abbrev pub CommandHangs : Type 0
    CommandHangs = (cmd : Command) × (now : ℕ) × (q : Q) × (process go mq cmd now q ≡ hangs)

    then_writes-Ended :
        {H : Type 0} (out : Bytes) {s : Session (Bytes × Q)}
        → Ended H s
        → Ended H (then_writes go mq out s)
    then_writes-Ended out (has_closed (more, q)) = has_closed (out ++ more, q)
    then_writes-Ended out has_crashed = has_crashed
    then_writes-Ended out (waits h) = waits h

    then_serve-Ended :
        (cmd : Command) (now : ℕ) (q : Q) (h : Handled (Reply × Q)) (rest : Q → Session (Bytes × Q))
        → process go mq cmd now q ≡ h
        → ((q' : Q) → Ended CommandHangs (rest q'))
        → Ended CommandHangs (then_serve go mq h rest)
    then_serve-Ended cmd now q (done (rep, q')) rest e f =
        then_writes-Ended (write_reply rep) (f q')
    then_serve-Ended cmd now q hangs rest e f = waits (cmd, now, q, e)
    then_serve-Ended cmd now q crashes rest e f = has_crashed

    serve-Ended :
        (fuel : ℕ) (clock : ℕ → ℕ) (input : Bytes) (q : Q)
        → length input < fuel
        → Ended CommandHangs (serve go mq fuel clock input q)
    unfolding serve
    serve-Ended zero clock input q h = absurd (omega (arith, h))
    serve-Ended (suc fuel) clock input q h = elim (Read-cases (read_command go input)) [
      | inl (cmd, rest, e) ↦
          let takes = read_command_takes input rest cmd e in
          rw (e, serve)
            (then_serve-Ended cmd (clock (length rest)) q _ (serve go mq fuel clock rest) refl
              (λ q'. serve-Ended fuel clock rest q' (omega (arith, h, takes))))
      | inr (inl (err, e)) ↦ rw (e, serve) (has_closed ([], q))
      | inr (inr e) ↦ rw (e, serve) has_crashed
    ]

    -- On every input that ends with the connection, the rounds of handlerConn come to an end: one more
    -- round than the input has bytes is enough for the session not to be cut off, and with more rounds
    -- it does the same. At its end the session has closed, or the process has panicked, or it waits for
    -- ever, and then because the handler of some command does so in some state of the queue.
    pub handler_conn-serve :
        (fuel : ℕ) (clock : ℕ → ℕ) (input : Bytes) (q : Q)
        → length input < fuel
        → (serve go mq fuel clock input q ≡ handler_conn go mq clock input q)
          × Ended CommandHangs (handler_conn go mq clock input q)
    unfolding handler_conn
    handler_conn-serve fuel clock input q h = (
      serve_enough fuel (suc (length input)) clock input q h (omega arith),
      serve-Ended (suc (length input)) clock input q (omega arith),
    )
