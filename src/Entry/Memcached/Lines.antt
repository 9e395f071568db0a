-- ===== src/Entry/Memcached/Lines.antt =====
-- What the reads of the memcached server return on the text of a request.
use uq.Prelude.{
  ℕ, ◌≡◌, ◌≢◌, refl, ap, ◌∙◌, Bytes, codes, List, [], ◌∷◌, ◌++◌, true, false, ltb, some, All,
  All-append, append_assoc, append-nil, length,
}
use uq.Utils.Strings.{join}
use uq.Entry.{Runtime}
use uq.Entry.Bufio.Laws.{NoNewline}
use uq.Entry.Memcached.Input.{
  read_string, ends_crlf, read_body, is_space, is_ascii, field_and, split_fields, fields,
  line_within, drop_return, read_rest_of_line,
}

abbrev pub crlf : Bytes
crlf = b'\r' ∷ b'\n' ∷ []

pub read_string_line :
    (s rest : Bytes)
    → All NoNewline s
    → read_string (s ++ b'\n' ∷ rest) ≡ some (s ++ b'\n' ∷ [], rest)
unfolding read_string
read_string_line [] rest h = refl
read_string_line (c ∷ s) rest (h, hs) = rw h (rw (read_string_line s rest hs) refl)

pub ends_crlf_lem : (s : Bytes) → ends_crlf (s ++ crlf) ≡ true
unfolding ends_crlf
ends_crlf_lem [] = refl
ends_crlf_lem (c ∷ []) = refl
ends_crlf_lem (c ∷ d ∷ []) = refl
ends_crlf_lem (c ∷ d ∷ e ∷ s) = ends_crlf_lem (d ∷ e ∷ s)

pub read_body_lem : (s rest : Bytes) → read_body (length s) (s ++ rest) ≡ some (s, rest)
unfolding read_body
read_body_lem [] rest = refl
read_body_lem (c ∷ s) rest = rw (read_body_lem s rest) refl

pub read_rest_of_line_empty : (rest : Bytes) → read_rest_of_line (crlf ++ rest) ≡ some ([], rest)
unfolding read_rest_of_line line_within drop_return
read_rest_of_line_empty rest = refl

-- A byte of a word: ASCII, and no white space.
abbrev pub Plain : ℕ → Type 0
Plain c = (is_space c ≡ false) × (ltb c 128 ≡ true)

abbrev pub Word : Bytes → Type 0
Word w = (w ≢ []) × All Plain w

split_fields_word :
    (w s w' : Bytes) (ws : List Bytes)
    → All Plain w
    → split_fields s ≡ (w', ws)
    → split_fields (w ++ s) ≡ (w ++ w', ws)
unfolding split_fields
split_fields_word [] s w' ws h e = e
split_fields_word (c ∷ w) s w' ws ((h, a), hs) e = rw (split_fields_word w s w' ws hs e) (rw h refl)

field_and_word : (w : Bytes) (ws : List Bytes) → w ≢ [] → field_and w ws ≡ w ∷ ws
field_and_word [] ws h = absurd (h refl)
field_and_word (c ∷ w) ws h = refl

split_fields_space :
    (s w : Bytes) (ws : List Bytes)
    → w ≢ []
    → split_fields s ≡ (w, ws)
    → split_fields (32 ∷ s) ≡ ([], w ∷ ws)
unfolding split_fields is_space
split_fields_space s w ws h e = rw e (rw (field_and_word w ws h) refl)

split_fields-join :
    (w : Bytes) (ws : List Bytes)
    → All Word (w ∷ ws)
    → split_fields (join (codes " ") (w ∷ ws) ++ crlf) ≡ (w, ws)
unfolding join
split_fields-join w [] ((h, hw), hs) =
    split_fields_word w crlf [] [] hw (unfold split_fields is_space in refl)
    ∙ ap (λ x. (x, [])) (append-nil w)
split_fields-join w (v ∷ ws) ((h, hw), (hv, hs)) =
    let text = join (codes " ") (v ∷ ws) in
    let rest = split_fields_space (text ++ crlf) v ws hv.0 (split_fields-join v ws (hv, hs)) in
    ap split_fields (append_assoc w (32 ∷ text) crlf)
    ∙ split_fields_word w (32 ∷ (text ++ crlf)) [] (v ∷ ws) hw rest
    ∙ ap (λ x. (x, v ∷ ws)) (append-nil w)

Ascii : ℕ → Type 0
Ascii c = ltb c 128 ≡ true

is_ascii-All : (s : Bytes) → All Ascii s → is_ascii s ≡ true
unfolding is_ascii Ascii
is_ascii-All [] h = refl
is_ascii-All (c ∷ s) (h, hs) = rw h (is_ascii-All s hs)

All-Plain : {P : ℕ → Type 0} (w : Bytes) → ((c : ℕ) → Plain c → P c) → All Plain w → All P w
All-Plain [] f h = tt
All-Plain (c ∷ w) f (h, hs) = (f c h, All-Plain w f hs)

pub All-join :
    {P : ℕ → Type 0}
    → ((c : ℕ) → Plain c → P c)
    → P 32
    → (ws : List Bytes) → All Word ws
    → All P (join (codes " ") ws)
unfolding join
All-join f p [] h = tt
All-join f p (w ∷ []) ((h, hw), hs) = All-Plain w f hw
All-join {P} f p (w ∷ v ∷ ws) ((h, hw), hs) =
    All-append P w _ (All-Plain w f hw) (p, All-join f p (v ∷ ws) hs)

-- strings.Fields gives back words that are joined by spaces.
pub fields-join :
    (go : Runtime) (w : Bytes) (ws : List Bytes)
    → All Word (w ∷ ws)
    → fields go (join (codes " ") (w ∷ ws) ++ crlf) ≡ w ∷ ws
unfolding fields
fields-join go w ws h =
    let text = join (codes " ") (w ∷ ws) in
    let plain : is_ascii (text ++ crlf) ≡ true = is_ascii-All (text ++ crlf) (
      unfold Ascii in
      All-append Ascii text crlf (All-join (λ c p. p.1) refl (w ∷ ws) h) (refl, (refl, tt))) in
    rw (split_fields-join w ws h) (rw plain (field_and_word w ws h.0.0))
