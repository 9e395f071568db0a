-- ===== src/Entry/Redis/Client.antt =====
-- entry/redisSession.go: readReply, by which a client reads what writeReply writes, and readRDB,
-- readInt64 and peekByte. The server calls none of them.
pub mod Replies
use uq.Prelude.{
  ℕ, zero, suc, Bytes, List, [], ◌∷◌, ◌++◌, ◌==◌, if◌then◌else◌, Option, none, some, ℤ, pos, negsuc,
}
use uq.Utils.Strings.{atoi}
use uq.Entry.{Runtime}
use uq.Entry.Bufio.{
  ReadError, illegal_byte, bad_number, bad_flag, got, failed, panics, Read, Reader, and_read, ◌>>=◌,
  ◌>>◌, read_byte, read_full, make,
}
use uq.Entry.Redis.Session.{
  Reply, Bulk, status, error, integer, bulk, multi_bulks, text, nil, crlf, skip_byte, read_line,
  read_int,
}

-- A call of skipBytes whose error is dropped: it reads on to the first byte that differs, that one
-- included, or to the end.
unfoldable pub skip_quietly : Bytes → Bytes → Bytes
skip_quietly [] s = s
skip_quietly (c ∷ cs) [] = []
skip_quietly (c ∷ cs) (d ∷ s) = if d == c then skip_quietly cs s else s

-- The value of an element of a multi bulk reply, behind its size.
read_element_of : Runtime → ℤ → Reader Bulk
read_element_of go (negsuc zero) s = got nil (skip_quietly crlf s)
read_element_of go (negsuc (suc n)) s = panics
read_element_of go (pos n) s =
    and_read (make go 1 (pos n) s)
      λ k s₁. and_read (read_full k s₁) λ arg s₂. got (text arg) (skip_quietly crlf s₂)

module _ (go : Runtime) where
  -- The loop over the elements.
  unfoldable pub read_elements : ℕ → Reader (List Bulk)
  unfolding read_element_of
  read_elements zero s = got [] s
  read_elements (suc n) s = and_read (skip_byte b'$' s) λ _ s₁. and_read (read_int s₁) λ size s₂.
      and_read (read_element_of go size s₂)
        λ b s₃. and_read (read_elements n s₃) λ bs s₄. got (b ∷ bs) s₄

  -- An interface value has 16 bytes.
  read_bulks : ℤ → Reader Reply
  read_bulks (negsuc zero) s = got (multi_bulks none) s
  read_bulks (negsuc (suc n)) s = panics
  read_bulks (pos n) s =
      and_read (make go 16 (pos n) s)
        λ k s₁. and_read (read_elements k s₁) λ bs s₂. got (multi_bulks (some bs)) s₂

  read_bulk : Reader Reply
  read_bulk s = and_read (read_int s) λ size s₁.
      and_read (make go 1 size s₁)
        λ n s₂. and_read (read_full n s₂) λ b s₃. got (bulk (some b)) (skip_quietly crlf s₃)

  read_flagged : ℕ → Reader Reply
  unfolding read_bulks read_bulk
  read_flagged c =
      if c == b'+'
      then (λ s. and_read (read_line s) (λ line s₁. got (status line) s₁))
      else if c == b'-'
      then (λ s. and_read (read_line s) (λ line s₁. got (error line) s₁))
      else if c == b':'
      then (λ s. and_read (read_int s) (λ i s₁. got (integer i) s₁))
      else if c == b'$'
      then read_bulk
      else if c == b'*'
      then (λ s. and_read (read_int s) read_bulks)
      else (λ s. failed (bad_flag c))

  -- readReply
  unfoldable pub read_reply : Reader Reply
  unfolding read_flagged
  read_reply s = and_read (read_byte s) read_flagged

-- readInt64: strconv.ParseInt(line, 10, 64), which is Atoi where an int has 64 bits.
unfoldable pub read_int64 : Reader ℤ
read_int64 = do
  line ← read_line
  λ s. elim (atoi line) [ none ↦ failed (bad_number line) | some i ↦ got i s ]

-- The bytes that readRDB hands to its writer; a size below 0 is none.
unfoldable pub read_rdb : Reader Bytes
read_rdb = do
  skip_byte b'$'
  size ← read_int64
  elim size [ pos n ↦ read_full n | negsuc n ↦ λ s. got [] s ]

-- peekByte: 0 where there is no byte; it never fails.
unfoldable pub peek_byte : Bytes → ℕ
peek_byte [] = 0
peek_byte (c ∷ s) = c
