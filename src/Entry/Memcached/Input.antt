-- ===== src/Entry/Memcached/Input.antt =====
-- The reads of the memcached server: a line of any length, a body, and what ends it; strings.Fields.
use uq.Prelude.{
  ℕ, zero, suc, Bytes, List, [], ◌∷◌, Bool, true, false, ◌==◌, ◌&&◌, ◌||◌, leb, ltb, if◌then◌else◌,
  Option, none, some, length,
}
use uq.Entry.{Runtime}
use uq.Entry.Bufio.{buffer_size}

-- ReadString('\n'): the line with its newline, and the rest; `none` where the input ends before.
unfoldable pub read_string : Bytes → Option (Bytes × Bytes)
read_string [] = none
read_string (c ∷ s) =
    let more = read_string s in
    if c == b'\n'
    then some (c ∷ [], s)
    else elim more [ none ↦ none | some (line, rest) ↦ some (c ∷ line, rest) ]

-- strings.HasSuffix(s, "\r\n")
unfoldable pub ends_crlf : Bytes → Bool
ends_crlf [] = false
ends_crlf (c ∷ []) = false
ends_crlf (c ∷ d ∷ []) = (c == b'\r') && (d == b'\n')
ends_crlf (c ∷ d ∷ e ∷ s) = ends_crlf (d ∷ e ∷ s)

-- io.ReadFull; an error where fewer bytes come in.
unfoldable pub read_body : ℕ → Bytes → Option (Bytes × Bytes)
read_body zero s = some ([], s)
read_body (suc n) [] = none
read_body (suc n) (c ∷ s) = elim (read_body n s) [
  | none ↦ none
  | some (body, rest) ↦ some (c ∷ body, rest)
]

-- Whether a byte is white space, for strings.Fields of an ASCII text.
unfoldable pub is_space : ℕ → Bool
is_space c = (leb 9 c && leb c 13) || (c == 32)

unfoldable pub is_ascii : Bytes → Bool
is_ascii [] = true
is_ascii (c ∷ s) = ltb c 128 && is_ascii s

abbrev pub field_and : Bytes → List Bytes → List Bytes
field_and [] ws = ws
field_and (c ∷ w) ws = (c ∷ w) ∷ ws

-- The word that a text starts with, which is empty before a space, and the fields behind it.
unfoldable pub split_fields : Bytes → Bytes × List Bytes
unfolding is_space
split_fields [] = ([], [])
split_fields (c ∷ s) =
    let (w, ws) = split_fields s in if is_space c then ([], field_and w ws) else (c ∷ w, ws)

unfoldable pub fields : Runtime → Bytes → List Bytes
unfolding is_ascii split_fields
fields go s =
    let (w, ws) = split_fields s in if is_ascii s then field_and w ws else go.fields_other s

-- The line that ReadLine finds in the first `room` bytes, without its newline.
unfoldable pub line_within : ℕ → Bytes → Option (Bytes × Bytes)
line_within zero s = none
line_within (suc room) [] = none
line_within (suc room) (c ∷ s) =
    let more = line_within room s in
    if c == b'\n'
    then some ([], s)
    else elim more [ none ↦ none | some (line, rest) ↦ some (c ∷ line, rest) ]

-- A line without the carriage return that it may end with.
unfoldable pub drop_return : Bytes → Bytes
drop_return [] = []
drop_return (c ∷ []) = if c == b'\r' then [] else c ∷ []
drop_return (c ∷ d ∷ s) = c ∷ drop_return (d ∷ s)

unfoldable pub split_at : ℕ → Bytes → Bytes × Bytes
split_at zero s = ([], s)
split_at (suc n) [] = ([], [])
split_at (suc n) (c ∷ s) = let (a, b) = split_at n s in (c ∷ a, b)

-- A full buffer without a newline: a carriage return at its end is put back.
unfoldable pub full_buffer : Bytes × Bytes → Bytes × Bytes
unfolding drop_return
full_buffer (buffer, rest) =
    let kept = drop_return buffer in
    if length kept == length buffer then (buffer, rest) else (kept, b'\r' ∷ rest)

-- ReadLine: a line; or a full buffer; or what stands before the end of the input; `none` at the end.
unfoldable pub read_rest_of_line : Bytes → Option (Bytes × Bytes)
unfolding line_within drop_return split_at full_buffer
read_rest_of_line s = elim (line_within buffer_size s) [
  | some (line, rest) ↦ some (drop_return line, rest)
  | none ↦
      if leb buffer_size (length s)
      then some (full_buffer (split_at buffer_size s))
      else elim s [ [] ↦ none | (c ∷ t) ↦ some (c ∷ t, []) ]
]
