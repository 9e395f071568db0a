-- ===== src/Entry/Redis/Buffer.antt =====
-- entry/redisCommand.go: parseCommand, which reads a command from a bytes.Buffer, and the accessors of a
-- command that no handler calls.
pub mod Parses
use uq.Prelude.{
  ℕ, zero, suc, ◌+◌, ◌-◌, ◌*◌, ◌^◌, ◌≤◌, ◌<◌, ◌≡◌, refl, Bytes, codes, List, [], ◌∷◌, ◌++◌, ◌==◌,
  ◌||◌, Bool, true, false, if◌then◌else◌, Option, none, some, ℤ, pos, negsuc, ltb, leb, u64_mod,
  length, append_assoc, arith, All,
}
use uq.Utils.Errors.{Result, ok, err}
use uq.Utils.Strings.{atoi, itoa_quick, parse_uint}
use uq.Utils.Strings.Digits.{atoi-itoa_quick, itoa_quick-IsDigit}
use uq.Entry.{Runtime}
use uq.Entry.Bufio.Laws.{NoNewline}
use uq.Entry.Redis.Session.{Command, crlf, args_bytes, command_bytes, cut_two}
use uq.Entry.Redis.Command.{nth, out_of_range}
use uq.Entry.Redis.RoundTrip.{All-NoNewline, Fits}
use uq.Entry.Redis.Terminator.{cut_two_lem}

-- `nothing` is a nil command with a nil error: the first byte, or that of an argument, is another one.
pub data Parsed (A : Type 0) : Type 0 where
  parsed : A → Bytes → Parsed A
  nothing : Parsed A
  ended : Parsed A
  too_short : Parsed A
  panics : Parsed A

abbrev pub and_parse : {A B : Type 0} → Parsed A → (A → Bytes → Parsed B) → Parsed B
and_parse (parsed a s) f = f a s
and_parse nothing f = nothing
and_parse ended f = ended
and_parse too_short f = too_short
and_parse panics f = panics

-- ReadBytes('\n')
read_to_newline : Bytes → Parsed Bytes
read_to_newline [] = ended
read_to_newline (c ∷ s) =
    let more = and_parse (read_to_newline s) (λ line rest. parsed (c ∷ line) rest) in
    if c == b'\n' then parsed (c ∷ []) s else more

-- Is a text that Atoi refuses a number that is too large? It is refused at the first byte that is no
-- digit, or at the digit that takes it past an uint64.
too_large : Bytes → ℕ → Bool
too_large [] n = true
too_large (c ∷ s) n =
    if ltb c b'0' || ltb b'9' c
    then false
    else if ltb (u64_mod - 1) (n * 10 + (c - b'0'))
    then true
    else too_large s (n * 10 + (c - b'0'))

digits_too_large : Bytes → Bool
unfolding too_large
digits_too_large [] = false
digits_too_large (c ∷ s) = too_large (c ∷ s) 0

-- The value that Atoi returns beside an error: 0, or the int nearest to a number that is too large.
beside_error : Bytes → ℤ
unfolding digits_too_large
beside_error [] = pos 0
beside_error (c ∷ s) =
    if c == b'-'
    then (if digits_too_large s then negsuc (2 ^ 63 - 1) else pos 0)
    else if c == b'+'
    then (if digits_too_large s then pos (2 ^ 63 - 1) else pos 0)
    else if digits_too_large (c ∷ s)
    then pos (2 ^ 63 - 1)
    else pos 0

-- n, _ := strconv.Atoi(text)
number_of : Bytes → ℤ
number_of s = elim (atoi s) [ none ↦ beside_error s | some i ↦ i ]

-- A byte that must be `c`: another one is `nothing`, and so is the end an error.
expect : ℕ → Bytes → Parsed (Unit {0})
expect c [] = ended
expect c (d ∷ s) = if d == c then parsed tt s else nothing

-- A line, and the number before its last two bytes.
read_number : Bytes → Parsed ℤ
read_number s =
    and_parse (read_to_newline s)
      λ line rest. elim (cut_two line) [ none ↦ panics | some text ↦ parsed (number_of text) rest ]

-- make, with `size` bytes for each element.
made : Runtime → ℕ → ℤ → Bytes → Parsed ℕ
made go size (negsuc n) s = panics
made go size (pos n) s = if leb (size * n) go.room then parsed n s else panics

-- Read of as many bytes as asked for.
take_bytes : ℕ → Bytes → Parsed Bytes
take_bytes zero s = parsed [] s
take_bytes (suc n) [] = too_short
take_bytes (suc n) (c ∷ s) = and_parse (take_bytes n s) λ b rest. parsed (c ∷ b) rest

module _ (go : Runtime) where
  parse_args : ℕ → Bytes → Parsed (List Bytes)
  parse_args zero s = parsed [] s
  parse_args (suc n) s = and_parse (expect b'$' s) λ _ s₁. and_parse (read_number s₁) λ size s₂.
      and_parse (made go 1 size s₂) λ k s₃. and_parse (take_bytes k s₃) λ arg s₄.
        and_parse (read_to_newline s₄)
          λ _ s₅. and_parse (parse_args n s₅) λ args s₆. parsed (arg ∷ args) s₆

  -- parseCommand
  pub parse_command : Bytes → Parsed Command
  parse_command s = and_parse (expect b'*' s) λ _ s₁. and_parse (read_number s₁) λ count s₂.
      and_parse (made go 24 count s₂)
        λ n s₃. and_parse (parse_args n s₃) λ args s₄. parsed (record { args = args }) s₄

-- uint64AtIndex; the error is its text.
unfoldable pub uint64_at : (Bytes → Bytes) → ℕ → Command → Result Bytes ℕ
unfolding out_of_range
uint64_at parse_error i cmd = elim (nth i cmd.args) [
  | none ↦ err (out_of_range i cmd)
  | some arg ↦ elim (parse_uint arg) [ none ↦ err (parse_error arg) | some n ↦ ok n ]
]

-- int64AtIndex: strconv.ParseInt(arg, 10, 0), which reads what Atoi reads.
unfoldable pub int64_at : (Bytes → Bytes) → ℕ → Command → Result Bytes ℤ
unfolding out_of_range
int64_at parse_error i cmd = elim (nth i cmd.args) [
  | none ↦ err (out_of_range i cmd)
  | some arg ↦ elim (atoi arg) [ none ↦ err (parse_error arg) | some n ↦ ok n ]
]
