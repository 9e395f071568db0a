-- ===== src/Entry/Bufio.antt =====
-- Reading a connection through a bufio.Reader, as the entries do. The input is the bytes that come
-- in until the connection ends.
pub mod Laws
pub mod Shrinks
use uq.Prelude.{
  ℕ, zero, suc, Bytes, [], ◌∷◌, ◌==◌, if◌then◌else◌, ◌*◌, leb, ℤ, pos, negsuc, ◌≡◌, ◌⊎◌, inl, inr,
  refl,
}
use uq.Entry.{Runtime}

pub data ReadError : Type 0 where
  eof : ReadError
  too_long : ReadError
  illegal_byte : ℕ → ℕ → ReadError
  bad_number : Bytes → ReadError
  bad_flag : ℕ → ReadError

-- The result of a read with the rest of the input; or an error; or a panic.
pub data Read (A : Type 0) : Type 0 where
  got : A → Bytes → Read A
  failed : ReadError → Read A
  panics : Read A

abbrev pub Reader : Type 0 → Type 0
Reader A = Bytes → Read A

abbrev pub and_read : {A B : Type 0} → Read A → (A → Reader B) → Read B
and_read (got a s) f = f a s
and_read (failed e) f = failed e
and_read panics f = panics

infixl 5 ◌>>=◌ ◌>>◌
abbrev pub ◌>>=◌ : {A B : Type 0} → Reader A → (A → Reader B) → Reader B
◌>>=◌ m f s = and_read (m s) f

abbrev pub ◌>>◌ : {A B : Type 0} → Reader A → Reader B → Reader B
m >> k = m >>= λ _. k

-- The size of the buffer of a bufio.Reader.
abbrev pub buffer_size : ℕ
buffer_size = 4096

unfoldable pub read_byte : Reader ℕ
read_byte [] = failed eof
read_byte (c ∷ s) = got c s

-- ReadSlice('\n'): the line with its newline, which must be in the first `room` bytes.
unfoldable pub read_slice : ℕ → Reader Bytes
read_slice zero s = failed too_long
read_slice (suc room) [] = failed eof
read_slice (suc room) (c ∷ s) =
    let more = and_read (read_slice room s) (λ line rest. got (c ∷ line) rest) in
    if c == b'\n' then got (c ∷ []) s else more

-- io.ReadFull
unfoldable pub read_full : ℕ → Reader Bytes
read_full zero s = got [] s
read_full (suc n) [] = failed eof
read_full (suc n) (c ∷ s) = and_read (read_full n s) (λ bytes rest. got (c ∷ bytes) rest)

-- make([]byte, n) and the like, with `size` bytes for each element.
unfoldable pub make : Runtime → ℕ → ℤ → Reader ℕ
make go size (negsuc n) s = panics
make go size (pos n) s = if leb (size * n) go.room then got n s else panics

pub Read-cases :
    {A : Type 0} (r : Read A)
    → ((a : A) × (rest : Bytes) × (r ≡ got a rest))
      ⊎ ((e : ReadError) × (r ≡ failed e))
      ⊎ (r ≡ panics)
Read-cases (got a rest) = inl (a, rest, refl)
Read-cases (failed e) = inr (inl (e, refl))
Read-cases panics = inr (inr refl)
