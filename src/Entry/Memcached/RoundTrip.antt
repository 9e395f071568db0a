-- ===== src/Entry/Memcached/RoundTrip.antt =====
-- `read` takes a well-formed `set`, `add` or `get` off the connection.
use uq.Prelude.{
  ℕ, ◌^◌, ◌≤◌, ◌<◌, ◌≡◌, refl, sym, ap, ◌∙◌, Bytes, bytes_eq, codes, List, [], ◌∷◌, ◌++◌, Bool,
  true, false, ltb, some, arith, All, All-append, append_assoc, length, pos,
}
use uq.Utils.Strings.{format_uint, join}
use uq.Utils.Strings.Digits.{IsDigit, format_uint-IsDigit, atoi-format_uint}
use uq.Utils.Strings.Decimal.{format_uint-ne-nil}
use uq.Entry.{Runtime, max_body_length}
use uq.Entry.Bufio.Laws.{NoNewline}
use uq.Entry.Memcached.Input.{is_space, read_string}
use uq.Entry.Memcached.Request.{
  Item, Request, asked, noreply, read_item, read_set, read_numbers, read_sized, read_parts, number,
  read, plain_request, read_get,
}
use uq.Entry.Memcached.Lines.{
  crlf, Plain, Word, read_string_line, ends_crlf_lem, read_body_lem, read_rest_of_line_empty,
  All-join, fields-join,
}

Plain-NoNewline : (c : ℕ) → Plain c → NoNewline c
unfolding is_space
Plain-NoNewline c (h, a) = ground arith

-- A line of words is split at its spaces, and its parts are taken from there.
read_words :
    (go : Runtime) (w : Bytes) (ws : List Bytes) (rest : Bytes)
    → All Word (w ∷ ws)
    → read go (join (codes " ") (w ∷ ws) ++ (crlf ++ rest)) ≡ read_parts go (w ∷ ws) rest
unfolding read
read_words go w ws rest h =
    let text = join (codes " ") (w ∷ ws) in
    let line : Bytes = text ++ b'\r' ∷ [] in
    let whole : read_string (text ++ (crlf ++ rest)) ≡ some (text ++ crlf, rest) =
      ap read_string (sym (append_assoc text (b'\r' ∷ []) (b'\n' ∷ rest)))
      ∙ read_string_line line rest (
          All-append NoNewline text (b'\r' ∷ []) (All-join Plain-NoNewline refl (w ∷ ws) h)
            (refl, tt))
      ∙ ap (λ x. some (x, rest)) (append_assoc text (b'\r' ∷ []) (b'\n' ∷ [])) in
    rw (whole, read) (rw (ends_crlf_lem text) (rw (fields-join go w ws h) refl))

digit-Plain : (c : ℕ) → IsDigit c → Plain c
unfolding is_space
digit-Plain c (lo, hi) = (ground arith, ground arith)

digits-Plain : (s : Bytes) → All IsDigit s → All Plain s
digits-Plain [] h = tt
digits-Plain (c ∷ s) (h, hs) = (digit-Plain c h, digits-Plain s hs)

format_uint-Word : (n : ℕ) → Word (format_uint n)
format_uint-Word n = (format_uint-ne-nil n, digits-Plain (format_uint n) (format_uint-IsDigit n))

abbrev pub storage_verb : Bool → Bytes
storage_verb true = codes "set"
storage_verb false = codes "add"

abbrev pub silence : Bool → List Bytes
silence true = noreply ∷ []
silence false = []

abbrev pub set_words : Bool → Bytes → ℕ → ℕ → Bytes → Bool → List Bytes
set_words sets key flag exp_time body silent =
    storage_verb sets
    ∷ key
    ∷ format_uint flag
    ∷ format_uint exp_time
    ∷ format_uint (length body)
    ∷ silence silent

-- What a client sends to store `body` under `key`.
unfoldable pub set_bytes : Bool → Bytes → ℕ → ℕ → Bytes → Bool → Bytes
set_bytes sets key flag exp_time body silent =
    join (codes " ") (set_words sets key flag exp_time body silent) ++ (crlf ++ (body ++ crlf))

abbrev pub storing : Bool → Bytes → Bool → Item → Request
storing sets key silent item = record {
  cmd = storage_verb sets;
  keys = key ∷ [];
  item = some item;
  no_reply = silent;
}

abbrev pub item_of : ℕ → ℕ → Bytes → Item
item_of flag exp_time body = record { flag = pos flag; exp_time = pos exp_time; body = body }

abbrev pub set_request : Bool → Bytes → ℕ → ℕ → Bytes → Bool → Request
set_request sets key flag exp_time body silent =
    storing sets key silent (item_of flag exp_time body)

verb-Word : (sets : Bool) → Word (storage_verb sets)
unfolding is_space
verb-Word true = (λ h. absurd (cc (h)), ((refl, refl), ((refl, refl), ((refl, refl), tt))))
verb-Word false = (λ h. absurd (cc (h)), ((refl, refl), ((refl, refl), ((refl, refl), tt))))

silence-Word : (silent : Bool) → All Word (silence silent)
unfolding is_space
silence-Word true = (
  (
    λ h. absurd (cc (h)),
    (
      (refl, refl),
      (
        (refl, refl),
        ((refl, refl), ((refl, refl), ((refl, refl), ((refl, refl), ((refl, refl), tt))))),
      ),
    ),
  ),
  tt,
)
silence-Word false = tt

-- What a client sends to get the first of the keys; the second names its id.
unfoldable pub get_bytes : Bytes → List Bytes → Bytes
get_bytes key keys = join (codes " ") (codes "get" ∷ key ∷ keys) ++ crlf

module _ (go : Runtime) where
  read_item_whole :
      (with_item : Item → Request) (flag exp_time : ℕ) (body rest : Bytes)
      → length body ≤ go.room
      → read_item go with_item
          (pos flag)
          (pos exp_time)
          (pos (length body))
          (body ++ (crlf ++ rest))
        ≡ asked (with_item (record { flag = pos flag; exp_time = pos exp_time; body = body })) rest
  unfolding read_item
  read_item_whole with_item flag exp_time body rest h =
      let fits : ltb go.room (length body) ≡ false = ground arith in
      rw fits (rw (read_body_lem body (crlf ++ rest)) (rw (read_rest_of_line_empty rest) refl))

  read_set_words :
      (sets : Bool) (key : Bytes) (flag exp_time : ℕ) (body : Bytes) (silent : Bool) (rest : Bytes)
      → flag < 2 ^ 63
      → exp_time < 2 ^ 63
      → length body ≤ max_body_length
      → length body ≤ go.room
      → read_set go (set_words sets key flag exp_time body silent) (body ++ (crlf ++ rest))
        ≡ asked (set_request sets key flag exp_time body silent) rest
  unfolding read_set bytes_eq number read_numbers read_sized
  read_set_words sets key flag exp_time body true rest hf he hb hr =
      let small : ltb max_body_length (length body) ≡ false = ground arith in
      let size = atoi-format_uint (length body) (omega (arith, hb)) in
      rw (atoi-format_uint flag hf, read_set, read_numbers, number)
        (rw (atoi-format_uint exp_time he, number)
          (rw (size, number)
            (rw (small, read_sized)
              (read_item_whole (storing sets key true) flag exp_time body rest hr))))
  read_set_words sets key flag exp_time body false rest hf he hb hr =
      let small : ltb max_body_length (length body) ≡ false = ground arith in
      let size = atoi-format_uint (length body) (omega (arith, hb)) in
      rw (atoi-format_uint flag hf, read_set, read_numbers, number)
        (rw (atoi-format_uint exp_time he, number)
          (rw (size, number)
            (rw (small, read_sized)
              (read_item_whole (storing sets key false) flag exp_time body rest hr))))

  -- A `set` or an `add` with a key of plain characters, a flag and an expiry time from 0 on, and a body
  -- that is not too long and can be allocated, with or without `noreply`: `read` gives back the request
  -- with these parts, and leaves what stands behind it for the next request.
  pub read-set_bytes :
      (sets : Bool) (key : Bytes) (flag exp_time : ℕ) (body : Bytes) (silent : Bool) (rest : Bytes)
      → Word key
      → flag < 2 ^ 63
      → exp_time < 2 ^ 63
      → length body ≤ max_body_length
      → length body ≤ go.room
      → read go (set_bytes sets key flag exp_time body silent ++ rest)
        ≡ asked (set_request sets key flag exp_time body silent) rest
  unfolding set_bytes
  read-set_bytes sets key flag exp_time body silent rest hk hf he hb hr =
      ap (read go) regrouped
      ∙ (read_words go (storage_verb sets) _ (body ++ (crlf ++ rest)) words
          ∙ (taken sets ∙ read_set_words sets key flag exp_time body silent rest hf he hb hr))
    where
      line : Bytes
      line = join (codes " ") (set_words sets key flag exp_time body silent)

      regrouped :
          (line ++ (crlf ++ (body ++ crlf))) ++ rest ≡ line ++ (crlf ++ (body ++ (crlf ++ rest)))
      regrouped = simp append_assoc

      words : All Word (set_words sets key flag exp_time body silent)
      words = (
        verb-Word sets,
        (
          hk,
          (
            format_uint-Word flag,
            (format_uint-Word exp_time, (format_uint-Word (length body), silence-Word silent)),
          ),
        ),
      )

      taken :
          (sets : Bool)
          → read_parts go (set_words sets key flag exp_time body silent) (body ++ (crlf ++ rest))
            ≡ read_set go (set_words sets key flag exp_time body silent) (body ++ (crlf ++ rest))
      taken true = unfold read_parts bytes_eq in refl
      taken false = unfold read_parts bytes_eq in refl

  pub read-get_bytes :
      (key : Bytes) (keys : List Bytes) (rest : Bytes)
      → All Word (key ∷ keys)
      → read go (get_bytes key keys ++ rest) ≡ asked (plain_request (codes "get") (key ∷ keys)) rest
  unfolding get_bytes
  read-get_bytes key keys rest h =
      ap (read go) (append_assoc (join (codes " ") (codes "get" ∷ key ∷ keys)) crlf rest)
      ∙ (read_words go (codes "get") (key ∷ keys) rest (get-Word, h)
          ∙ unfold read_parts bytes_eq read_get in refl)
    where
      get-Word : Word (codes "get")
      get-Word =
          unfold is_space in
          (λ h. absurd (cc (h)), ((refl, refl), ((refl, refl), ((refl, refl), tt))))
