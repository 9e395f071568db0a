-- ===== src/Entry/Memcached/Request.antt =====
-- entry/mcEntry.go: a request, and how `read` takes it off the connection.
use uq.Prelude.{
  ℕ, zero, suc, Bytes, bytes_eq, codes, List, [], ◌∷◌, ◌++◌, Bool, false, ◌&&◌, ◌||◌, not, ltb,
  if◌then◌else◌, Option, none, some, ℤ, pos, negsuc, length,
}
use uq.Utils.Errors.{Error, new_error, err_bad_request, error_text}
use uq.Utils.Strings.{atoi, contains}
use uq.Entry.{Runtime, max_body_length}
use uq.Entry.Memcached.Input.{read_string, ends_crlf, read_body, fields, read_rest_of_line}

pub record Item : Type 0 where
  pub flag : ℤ
  pub exp_time : ℤ
  pub body : Bytes

-- A nil item is `none`.
pub record Request : Type 0 where
  pub cmd : Bytes
  pub keys : List Bytes
  pub item : Option Item
  pub no_reply : Bool

-- A request, or the error that refuses it, with the rest of the input; or a panic.
pub data Asked (A : Type 0) : Type 0 where
  asked : A → Bytes → Asked A
  refused : Error → Bytes → Asked A
  panics : Asked A

abbrev pub bad : {A : Type 0} → Bytes → Bytes → Asked A
bad why rest = refused (new_error err_bad_request why) rest

-- handlerConn leaves the session on an error whose text contains EOF.
unfoldable pub is_eof : Error → Bool
is_eof e = contains (error_text e) (codes "EOF")

-- The errors of io: nothing comes in, or less than is asked for.
abbrev pub eof_text : Bytes
eof_text = codes "EOF"

abbrev pub short_text : Bytes → Bytes
short_text [] = eof_text
short_text (c ∷ s) = codes "unexpected EOF"

abbrev pub plain_request : Bytes → List Bytes → Request
plain_request cmd keys = record { cmd = cmd; keys = keys; item = none; no_reply = false }

-- The number that a part holds.
unfoldable pub number : {A : Type 0} → Runtime → Bytes → Bytes → Bytes → (ℤ → Asked A) → Asked A
number go what part rest k = elim (atoi part) [
  | none ↦ bad (what ++ (codes " atoi failed: " ++ go.atoi_error part)) rest
  | some n ↦ k n
]

-- make([]byte, length), and then the body and the empty line behind it.
unfoldable pub read_item : Runtime → (Item → Request) → ℤ → ℤ → ℤ → Bytes → Asked Request
read_item go with_item flag exp_time (negsuc n) s = panics
read_item go with_item flag exp_time (pos n) s =
    if ltb go.room n then panics else elim (read_body n s) [
      | none ↦ bad (codes "readfull failed: " ++ short_text s) []
      | some (body, s₁) ↦ elim (read_rest_of_line s₁) [
        | none ↦ bad (codes "readline failed: " ++ eof_text) []
        | some (line, s₂) ↦ elim line [
          | [] ↦ asked (with_item (record { flag = flag; exp_time = exp_time; body = body })) s₂
          | (c ∷ t) ↦ bad (codes "bad data chunk") s₂
        ]
      ]
    ]

abbrev pub noreply : Bytes
noreply = codes "noreply"

-- parts[i], where there are more than `i` parts.
abbrev pub part : ℕ → List Bytes → Bytes
part i [] = []
part zero (p ∷ ps) = p
part (suc i) (p ∷ ps) = part i ps

abbrev pub last_part : List Bytes → Bytes
last_part [] = []
last_part (p ∷ []) = p
last_part (p ∷ q ∷ ps) = last_part (q ∷ ps)

abbrev pub above_max : ℤ → Bool
above_max (pos n) = ltb max_body_length n
above_max (negsuc n) = false

abbrev pub set_request_of : List Bytes → Item → Request
set_request_of parts item = record {
  cmd = part 0 parts;
  keys = part 1 parts ∷ [];
  item = some item;
  no_reply = ltb 5 (length parts) && bytes_eq (part 5 parts) noreply;
}

-- From the length on.
unfoldable pub read_sized : Runtime → List Bytes → Bytes → ℤ → ℤ → ℤ → Asked Request
unfolding read_item
read_sized go parts s flag exp_time size =
    if above_max size
    then bad (codes "bad data length") s
    else if ltb 5 (length parts) && not (bytes_eq (part 5 parts) noreply)
    then bad (codes "cmd parts error: > 5 or part[5] != noreply") s
    else read_item go (set_request_of parts) flag exp_time size s

unfoldable pub read_numbers : Runtime → List Bytes → Bytes → Asked Request
unfolding number read_sized
read_numbers go parts s = number go (codes "flag") (part 2 parts) s λ flag.
    number go (codes "exptime") (part 3 parts) s λ exp_time.
      number go (codes "length") (part 4 parts) s λ size. read_sized go parts s flag exp_time size

unfoldable pub read_set : Runtime → List Bytes → Bytes → Asked Request
unfolding read_numbers
read_set go parts s =
    if ltb (length parts) 5 || ltb 7 (length parts)
    then bad (codes "cmd parts error: < 5 or > 7") s
    else read_numbers go parts s

unfoldable pub read_get : List Bytes → Bytes → Asked Request
read_get [] s = bad (codes "cmd parts error: < 2") s
read_get (cmd ∷ []) s = bad (codes "cmd parts error: < 2") s
read_get (cmd ∷ key ∷ keys) s = asked (plain_request cmd (key ∷ keys)) s

unfoldable pub read_delete : List Bytes → Bytes → Asked Request
read_delete parts s =
    if ltb (length parts) 2 || ltb 4 (length parts)
    then bad (codes "cmd parts error: < 2 or > 4") s
    else asked
        (record {
          cmd = part 0 parts;
          keys = part 1 parts ∷ [];
          item = none;
          no_reply = ltb 2 (length parts) && bytes_eq (last_part parts) noreply;
        })
        s

abbrev pub one_of : Bytes → List Bytes → Bool
one_of s [] = false
one_of s (t ∷ ts) = bytes_eq s t || one_of s ts

abbrev pub gets : List Bytes
gets = codes "get" ∷ codes "gets" ∷ codes "stats" ∷ []

abbrev pub sets : List Bytes
sets = codes "set" ∷ codes "add" ∷ []

abbrev pub deletes : List Bytes
deletes = codes "delete" ∷ []

-- The commands that `read` takes without looking at their parts.
abbrev pub others : List Bytes
others =
    codes "quit"
    ∷ codes "version"
    ∷ codes "flush_all"
    ∷ codes "replace"
    ∷ codes "cas"
    ∷ codes "append"
    ∷ codes "prepend"
    ∷ codes "incr"
    ∷ codes "decr"
    ∷ codes "verbosity"
    ∷ []

-- The switch over the command, the first of the parts.
unfoldable pub read_parts : Runtime → List Bytes → Bytes → Asked Request
unfolding read_set read_get read_delete
read_parts go [] s = bad (codes "cmd fields error < 1") s
read_parts go (cmd ∷ args) s =
    if one_of cmd gets
    then read_get (cmd ∷ args) s
    else if one_of cmd sets
    then read_set go (cmd ∷ args) s
    else if one_of cmd deletes
    then read_delete (cmd ∷ args) s
    else if one_of cmd others
    then asked (plain_request cmd []) s
    else bad (codes "unknow command: " ++ cmd) s

unfoldable pub read : Runtime → Bytes → Asked Request
read go input = elim (read_string input) [
  | none ↦ bad eof_text []
  | some (line, s) ↦
      if ends_crlf line
      then read_parts go (fields go line) s
      else bad (codes "has not suffix \\r\\n") s
]
