-- ===== src/Entry/Redis/Buffer/Parses.antt =====
-- parseCommand reads what bytes writes, as readCommand does.
use uq.Prelude.{
  ℕ, ◌*◌, ◌^◌, ◌≤◌, ◌<◌, ◌≡◌, refl, Bytes, List, [], ◌∷◌, ◌++◌, ◌==◌, true, pos, leb, length,
  append_assoc, arith, All, ap,
}
use uq.Utils.Strings.{itoa_quick}
use uq.Utils.Strings.Digits.{atoi-itoa_quick, itoa_quick-IsDigit}
use uq.Entry.{Runtime}
use uq.Entry.Bufio.Laws.{NoNewline}
use uq.Entry.Redis.Session.{Command, crlf, args_bytes, command_bytes}
use uq.Entry.Redis.RoundTrip.{All-NoNewline, Fits}
use uq.Entry.Redis.Terminator.{cut_two_lem}
use uq.Entry.Redis.Buffer.{
  parsed, and_parse, read_to_newline, number_of, expect, read_number, made, take_bytes, parse_args,
  parse_command,
}

expect_lem : (c : ℕ) (s : Bytes) → expect c (c ∷ s) ≡ parsed tt s
unfolding expect
expect_lem c s = let same : (c == c) ≡ true = ground arith in rw same refl

read_to_newline-crlf :
    (s rest : Bytes)
    → All NoNewline s
    → read_to_newline (s ++ (crlf ++ rest)) ≡ parsed (s ++ crlf) rest
unfolding read_to_newline
read_to_newline-crlf [] rest h = refl
read_to_newline-crlf (c ∷ s) rest (h, hs) = rw (h, read_to_newline-crlf s rest hs) refl

number_of-itoa_quick : (n : ℕ) → n < 2 ^ 63 → number_of (itoa_quick n) ≡ pos n
unfolding number_of
number_of-itoa_quick n h = rw (atoi-itoa_quick n h, number_of) refl

read_number_printed :
    (n : ℕ) (rest : Bytes)
    → n < 2 ^ 63
    → read_number (itoa_quick n ++ (crlf ++ rest)) ≡ parsed (pos n) rest
unfolding read_number
read_number_printed n rest h =
    rw
      (read_to_newline-crlf (itoa_quick n) rest
        (All-NoNewline (itoa_quick n) (itoa_quick-IsDigit n)))
      (rw (cut_two_lem (itoa_quick n) b'\r' b'\n', and_parse)
        (ap (λ i. parsed i rest) (number_of-itoa_quick n h)))

made_fits :
    (go : Runtime) (size n : ℕ) (s : Bytes)
    → size * n ≤ go.room
    → made go size (pos n) s ≡ parsed n s
unfolding made
made_fits go size n s h = let fits : leb (size * n) go.room ≡ true = ground arith in rw fits refl

take_bytes_lem : (s rest : Bytes) → take_bytes (length s) (s ++ rest) ≡ parsed s rest
unfolding take_bytes
take_bytes_lem [] rest = refl
take_bytes_lem (c ∷ s) rest = rw (take_bytes_lem s rest) refl

module _ (go : Runtime) (limit : go.room < 2 ^ 63) where
  args_regrouped :
      (arg : Bytes) (args : List Bytes) (rest : Bytes)
      → args_bytes (arg ∷ args) ++ rest
        ≡ b'$' ∷ (itoa_quick (length arg) ++ (crlf ++ (arg ++ (crlf ++ (args_bytes args ++ rest)))))
  unfolding args_bytes
  args_regrouped arg args rest = simp append_assoc

  parse_args-args_bytes :
      (args : List Bytes) (rest : Bytes)
      → All (Fits go limit) args
      → parse_args go (length args) (args_bytes args ++ rest) ≡ parsed args rest
  unfolding parse_args
  parse_args-args_bytes [] rest h = unfold args_bytes in refl
  parse_args-args_bytes (arg ∷ args) rest (h, hs) =
      let more : Bytes = args_bytes args ++ rest in
      rw (args_regrouped arg args rest) (
        rw (expect_lem b'$' (itoa_quick (length arg) ++ (crlf ++ (arg ++ (crlf ++ more))))) (
          rw (read_number_printed (length arg) (arg ++ (crlf ++ more)) (omega (arith, h, limit))) (
            rw (made_fits go 1 (length arg) (arg ++ (crlf ++ more)) (omega (arith, h))) (
              rw (take_bytes_lem arg (crlf ++ more)) (
                rw (read_to_newline-crlf [] more tt)
                  (rw (parse_args-args_bytes args rest hs) refl))))))

  -- A command whose arguments can be allocated is parsed from its bytes, and what stands behind them is
  -- left.
  pub parse_command-command_bytes :
      (cmd : Command) (rest : Bytes)
      → All (Fits go limit) cmd.args
      → 24 * length cmd.args ≤ go.room
      → parse_command go (command_bytes cmd ++ rest) ≡ parsed cmd rest
  unfolding parse_command
  parse_command-command_bytes cmd rest h b =
      let more : Bytes = args_bytes cmd.args ++ rest in
      let count = length cmd.args in
      rw (command_regrouped cmd rest) (
        rw (expect_lem b'*' (itoa_quick count ++ (crlf ++ more))) (
          rw (read_number_printed count more (omega (arith, b, limit)))
            (rw (made_fits go 24 count more b) (rw (parse_args-args_bytes cmd.args rest h) refl))))
    where
      command_regrouped :
          (cmd : Command) (rest : Bytes)
          → command_bytes cmd ++ rest
            ≡ b'*' ∷ (itoa_quick (length cmd.args) ++ (crlf ++ (args_bytes cmd.args ++ rest)))
      command_regrouped cmd rest = unfold command_bytes in simp append_assoc
