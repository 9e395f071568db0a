-- ===== src/Entry/Redis/Session.antt =====
-- entry/redisCommand.go and entry/redisSession.go: a command, its bytes, how a session reads it, and
-- how it writes a reply. An error in reading is logged only, and ends the session.
use uq.Prelude.{
  ℕ, zero, suc, Bytes, codes, List, [], ◌∷◌, ◌++◌, ◌==◌, if◌then◌else◌, Option, none, some, ℤ,
  length,
}
use uq.Utils.Strings.{itoa_quick, itoa_quick_int, format_uint, atoi}
use uq.Entry.{Runtime}
use uq.Entry.Bufio.{
  illegal_byte, bad_number, got, failed, panics, Reader, and_read, ◌>>=◌, buffer_size, read_byte,
  read_slice, read_full, make,
}

-- The attributes of a command hold its session and its time, which nothing reads.
pub record Command : Type 0 where
  pub args : List Bytes

abbrev pub crlf : Bytes
crlf = b'\r' ∷ b'\n' ∷ []

-- bytes: the arguments, each behind its length.
unfoldable pub args_bytes : List Bytes → Bytes
args_bytes [] = []
args_bytes (arg ∷ args) =
    b'$' ∷ (itoa_quick (length arg) ++ (crlf ++ (arg ++ (crlf ++ args_bytes args))))

unfoldable pub command_bytes : Command → Bytes
unfolding args_bytes
command_bytes cmd = b'*' ∷ (itoa_quick (length cmd.args) ++ (crlf ++ args_bytes cmd.args))

unfoldable pub skip_byte : ℕ → Reader (Unit {0})
skip_byte c = do tmp ← read_byte; λ s. if tmp == c then got tt s else failed (illegal_byte tmp c)

unfoldable pub skip_bytes : Bytes → Reader (Unit {0})
skip_bytes [] s = got tt s
skip_bytes (c ∷ cs) s = and_read (skip_byte c s) (λ _ s'. skip_bytes cs s')

-- line[:len(line)-2], which panics on a line of one byte.
unfoldable pub cut_two : Bytes → Option Bytes
cut_two [] = none
cut_two (c ∷ []) = none
cut_two (c ∷ d ∷ []) = some []
cut_two (c ∷ d ∷ e ∷ s) = elim (cut_two (d ∷ e ∷ s)) [ none ↦ none | some line ↦ some (c ∷ line) ]

-- readLine returns no error for a bad terminator: the error is set, and then the return sets it to nil.
unfoldable pub read_line : Reader Bytes
read_line = do
  line ← read_slice buffer_size
  λ s. elim (cut_two line) [ none ↦ panics | some l ↦ got l s ]

unfoldable pub read_int : Reader ℤ
read_int = do
  line ← read_line
  λ s. elim (atoi line) [ none ↦ failed (bad_number line) | some i ↦ got i s ]

module _ (go : Runtime) where
  -- The loop of readCommand.
  unfoldable pub read_args : ℕ → Reader (List Bytes)
  read_args zero s = got [] s
  read_args (suc n) s = and_read (skip_byte b'$' s) λ _ s₁. and_read (read_int s₁) λ size s₂.
      and_read (make go 1 size s₂) λ k s₃. and_read (read_full k s₃) λ arg s₄.
        and_read (skip_bytes crlf s₄)
          λ _ s₅. and_read (read_args n s₅) λ args s₆. got (arg ∷ args) s₆

  -- A slice header has 24 bytes.
  unfoldable pub read_command : Reader Command
  read_command s = and_read (skip_byte b'*' s) λ _ s₁. and_read (read_int s₁) λ count s₂.
      and_read (make go 24 count s₂)
        λ n s₃. and_read (read_args n s₃) λ args s₄. got (record { args = args }) s₄

-- An element of a multi bulk reply: a string or a byte slice, an int, a uint64, or nil.
pub data Bulk : Type 0 where
  text : Bytes → Bulk
  int : ℤ → Bulk
  uint : ℕ → Bulk
  nil : Bulk

-- entry/redisReply.go: a reply; a nil slice of bulks is `none`.
pub data Reply : Type 0 where
  status : Bytes → Reply
  error : Bytes → Reply
  integer : ℤ → Reply
  bulk : Option Bytes → Reply
  multi_bulks : Option (List Bulk) → Reply

unfoldable pub bulk_bytes : Bytes → Bytes
bulk_bytes b = b'$' ∷ (itoa_quick (length b) ++ (crlf ++ (b ++ crlf)))

unfoldable pub element_bytes : Bulk → Bytes
unfolding bulk_bytes
element_bytes (text b) = bulk_bytes b
element_bytes (int i) = b':' ∷ (itoa_quick_int i ++ crlf)
element_bytes (uint n) = b':' ∷ (format_uint n ++ crlf)
element_bytes nil = codes "$-1" ++ crlf

unfoldable pub elements_bytes : List Bulk → Bytes
unfolding element_bytes
elements_bytes [] = []
elements_bytes (b ∷ bs) = element_bytes b ++ elements_bytes bs

-- writeReply: the bytes that go to the connection.
unfoldable pub write_reply : Reply → Bytes
unfolding bulk_bytes elements_bytes
write_reply (status s) = b'+' ∷ (s ++ crlf)
write_reply (error s) = b'-' ∷ (s ++ crlf)
write_reply (integer i) = b':' ∷ (itoa_quick_int i ++ crlf)
write_reply (bulk none) = codes "$-1" ++ crlf
write_reply (bulk (some b)) = bulk_bytes b
write_reply (multi_bulks none) = codes "*-1" ++ crlf
write_reply (multi_bulks (some [])) = codes "*0" ++ crlf
write_reply (multi_bulks (some (b ∷ bs))) =
    b'*' ∷ (itoa_quick (length (b ∷ bs)) ++ (crlf ++ elements_bytes (b ∷ bs)))
