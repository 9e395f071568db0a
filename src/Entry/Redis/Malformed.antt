-- ===== src/Entry/Redis/Malformed.antt =====
-- A count of arguments below 0.
use uq.Prelude.{ℕ, suc, ◌<◌, ◌^◌, ◌≡◌, refl, Bytes, ◌∷◌, ◌++◌, some, true, arith, ltb, negsuc}
use uq.Utils.Strings.{format_uint, atoi, within_int, itoa}
use uq.Utils.Strings.Decimal.{parse_uint-format_uint}
use uq.Utils.Strings.Digits.{format_uint-IsDigit, length-format_uint}
use uq.Queue.Interface.{MessageQueue}
use uq.Entry.{Runtime, crashes, ends}
use uq.Entry.Bufio.{got, panics, and_read, make}
use uq.Entry.Redis.Terminator.{read_line_any}
use uq.Entry.Redis.Session.{crlf, read_int, read_command}
use uq.Entry.Redis.RoundTrip.{skip_byte_lem, All-NoNewline}
use uq.Entry.Redis.Server.{serve, handler_conn}

atoi_minus : (n : ℕ) → n < 2 ^ 63 → atoi (itoa (negsuc n)) ≡ some (negsuc n)
unfolding atoi within_int itoa
atoi_minus n h =
    let fits : ltb n (2 ^ 63) ≡ true = ground arith in
    rw (parse_uint-format_uint (suc n) (omega (arith, h))) (rw fits refl)

read_int_minus :
    (n : ℕ) (rest : Bytes)
    → n < 2 ^ 63
    → read_int (itoa (negsuc n) ++ (crlf ++ rest)) ≡ got (negsuc n) rest
unfolding read_int itoa
read_int_minus n rest h =
    let line : Bytes = b'-' ∷ format_uint (suc n) in
    rw
      (read_line_any line rest b'\r'
        (refl, All-NoNewline (format_uint (suc n)) (format_uint-IsDigit (suc n))) refl
        (omega (arith, length-format_uint (suc n))))
      (rw (atoi_minus n h, and_read) refl)

module _ (go : Runtime) where
  read_command_minus :
      (n : ℕ) (rest : Bytes)
      → n < 2 ^ 63
      → read_command go (b'*' ∷ (itoa (negsuc n) ++ (crlf ++ rest))) ≡ panics
  unfolding read_command
  read_command_minus n rest h =
      rw (skip_byte_lem b'*' (itoa (negsuc n) ++ (crlf ++ rest)))
        (rw (read_int_minus n rest h) (unfold make in refl))

  -- A client that sends a count of arguments below 0, as the first bytes of a session, makes the
  -- server panic, whatever the queue is and whatever follows.
  pub handler_conn_minus :
      {Q : Type 0} (mq : MessageQueue Q) (clock : ℕ → ℕ) (n : ℕ) (rest : Bytes) (q : Q)
      → n < 2 ^ 63
      → handler_conn go mq clock (b'*' ∷ (itoa (negsuc n) ++ (crlf ++ rest))) q ≡ ends crashes
  unfolding handler_conn serve
  handler_conn_minus mq clock n rest q h = rw (read_command_minus n rest h, serve) refl
