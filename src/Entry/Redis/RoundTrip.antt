-- ===== src/Entry/Redis/RoundTrip.antt =====
-- readCommand reads back what bytes writes.
use uq.Prelude.{
  ℕ, ◌*◌, ◌^◌, ◌≤◌, ◌<◌, ◌≡◌, refl, Bytes, List, [], ◌∷◌, ◌++◌, true, arith, ◌==◌, All, length, pos,
  append_assoc,
}
use uq.Utils.Strings.{itoa_quick}
use uq.Utils.Strings.Digits.{IsDigit, atoi-itoa_quick, itoa_quick-IsDigit, length-itoa_quick}
use uq.Entry.{Runtime}
use uq.Entry.Bufio.{got, and_read, read_byte}
use uq.Entry.Bufio.Laws.{NoNewline, read_full_lem, make_fits}
use uq.Entry.Redis.Terminator.{read_line_any}
use uq.Entry.Redis.Session.{
  Command, crlf, args_bytes, command_bytes, skip_byte, skip_bytes, read_int, read_args,
  read_command,
}

pub skip_byte_lem : (c : ℕ) (s : Bytes) → skip_byte c (c ∷ s) ≡ got tt s
unfolding skip_byte read_byte
skip_byte_lem c s = let same : (c == c) ≡ true = ground arith in rw same refl

skip_bytes_lem : (cs s : Bytes) → skip_bytes cs (cs ++ s) ≡ got tt s
unfolding skip_bytes
skip_bytes_lem [] s = refl
skip_bytes_lem (c ∷ cs) s = rw (skip_byte_lem c (cs ++ s)) (skip_bytes_lem cs s)

pub All-NoNewline : (s : Bytes) → All IsDigit s → All NoNewline s
All-NoNewline [] h = tt
All-NoNewline (c ∷ s) (h, hs) = (ground arith, All-NoNewline s hs)

-- A number behind which a line ends.
pub read_int_printed :
    (n : ℕ) (rest : Bytes)
    → n < 2 ^ 63
    → read_int (itoa_quick n ++ (crlf ++ rest)) ≡ got (pos n) rest
unfolding read_int
read_int_printed n rest b =
    rw
      (read_line_any (itoa_quick n) rest b'\r' (All-NoNewline (itoa_quick n) (itoa_quick-IsDigit n))
        refl (omega (arith, length-itoa_quick n)))
      (rw (atoi-itoa_quick n b, and_read) refl)

module _ (go : Runtime) (limit : go.room < 2 ^ 63) where
  abbrev pub Fits : Bytes → Type 0
  Fits arg = length arg ≤ go.room

  args_regrouped :
      (arg : Bytes) (args : List Bytes) (rest : Bytes)
      → args_bytes (arg ∷ args) ++ rest
        ≡ b'$' ∷ (itoa_quick (length arg) ++ (crlf ++ (arg ++ (crlf ++ (args_bytes args ++ rest)))))
  unfolding args_bytes
  args_regrouped arg args rest = simp append_assoc

  -- The loop of readCommand reads as many arguments as were written.
  read_args-args_bytes :
      (args : List Bytes) (rest : Bytes)
      → All Fits args
      → read_args go (length args) (args_bytes args ++ rest) ≡ got args rest
  unfolding read_args
  read_args-args_bytes [] rest h = unfold args_bytes in refl
  read_args-args_bytes (arg ∷ args) rest (h, hs) =
      let more : Bytes = args_bytes args ++ rest in
      let read = read_int_printed (length arg) (arg ++ (crlf ++ more)) (omega (arith, h, limit)) in
      rw (args_regrouped arg args rest) (
        rw (skip_byte_lem b'$' (itoa_quick (length arg) ++ (crlf ++ (arg ++ (crlf ++ more))))) (
          rw read (
            rw (make_fits go 1 (length arg) (arg ++ (crlf ++ more)) (omega (arith, h))) (
              rw (read_full_lem arg (crlf ++ more))
                (rw (skip_bytes_lem crlf more) (rw (read_args-args_bytes args rest hs) refl))))))

  -- A command whose arguments can be allocated is read back from its bytes, and what stands behind
  -- them is left for the next command.
  pub read_command-command_bytes :
      (cmd : Command) (rest : Bytes)
      → All Fits cmd.args
      → 24 * length cmd.args ≤ go.room
      → read_command go (command_bytes cmd ++ rest) ≡ got cmd rest
  unfolding read_command
  read_command-command_bytes cmd rest h b =
      let more : Bytes = args_bytes cmd.args ++ rest in
      let count = length cmd.args in
      rw (command_regrouped cmd rest) (
        rw (skip_byte_lem b'*' (itoa_quick count ++ (crlf ++ more))) (
          rw (read_int_printed count more (omega (arith, b, limit)))
            (rw (make_fits go 24 count more b) (rw (read_args-args_bytes cmd.args rest h) refl))))
    where
      command_regrouped :
          (cmd : Command) (rest : Bytes)
          → command_bytes cmd ++ rest
            ≡ b'*' ∷ (itoa_quick (length cmd.args) ++ (crlf ++ (args_bytes cmd.args ++ rest)))
      command_regrouped cmd rest = unfold command_bytes in simp append_assoc
