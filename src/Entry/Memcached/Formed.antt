-- ===== src/Entry/Memcached/Formed.antt =====
-- What every request that `read` returns has: a key, and an item, where its command needs one.
use uq.Prelude.{
  ℕ, ◌<◌, ◌≤◌, ◌++◌, refl, ◌≡◌, ◌≢◌, ap, subst, inl, inr, Bytes, bytes_eq, codes, List, [], ◌∷◌,
  Bool, true, false, ◌||◌, ◌&&◌, not, none, some, ℤ, pos, negsuc, arith, length, ltb, if◌then◌else◌,
  Option-cases, Bool-cases,
}
use uq.Utils.Errors.{Error, new_error, error_map, error_text, err_bad_request}
use uq.Utils.Strings.{
  atoi, contains, has_prefix, itoa_quick, itoa_table, table_at, format_uint, digits,
}
use uq.Entry.{Runtime}
use uq.Entry.Memcached.Input.{read_string, fields, read_body, read_rest_of_line}
use uq.Entry.Memcached.Request.{
  Item, Request, Asked, asked, refused, panics, bad, number, read_item, read_get, read_set,
  read_sized, read_numbers, read_delete, one_of, gets, sets, deletes, read_parts, read, part,
  set_request_of, above_max, noreply, is_eof, eof_text, others, plain_request,
}
use uq.Entry.Memcached.Shrinks.{Rest, read_string-Rest, read_body-Rest, read_rest_of_line-Rest}

-- A request with a command that needs a key has one, and a `set` or an `add` has an item.
abbrev pub Formed : Request → Type 0
Formed req =
    ((one_of req.cmd gets || one_of req.cmd sets || one_of req.cmd deletes) ≡ true → req.keys ≢ [])
    × (one_of req.cmd gets ≡ false → one_of req.cmd sets ≡ true → req.item ≢ none)

-- A read that leaves fewer than `n` bytes, or fails at the end of the input; its request is formed.
pub data AskedFormed (n : ℕ) : Asked Request → Type 0 where
  is_formed : (req : Request) (s : Bytes) → Formed req → length s < n → AskedFormed n (asked req s)
  is_refused : (e : Error) (s : Bytes) → length s < n → AskedFormed n (refused e s)
  at_end : (e : Error) (s : Bytes) → is_eof e ≡ true → AskedFormed n (refused e s)
  has_panicked : AskedFormed n panics

bad_formed : {n : ℕ} (why s : Bytes) → length s < n → AskedFormed n (bad why s)
bad_formed why s b = is_refused _ s b

cons_filled : {A : Type 0} (x : A) (xs : List A) → (x ∷ xs) ≢ []
cons_filled x xs h = absurd (cc (h))

some_filled : {A : Type 0} (x : A) → some x ≢ none
some_filled x h = absurd (cc (h))

set_request_of-Formed : (parts : List Bytes) (item : Item) → Formed (set_request_of parts item)
set_request_of-Formed parts item = (λ k. cons_filled _ _, λ e f. some_filled item)

module _ {n : ℕ} where
  if_AskedFormed :
      (b : Bool) (x y : Asked Request)
      → AskedFormed n x
      → AskedFormed n y
      → AskedFormed n (if b then x else y)
  if_AskedFormed true x y hx hy = hx
  if_AskedFormed false x y hx hy = hy

  number-AskedFormed :
      (go : Runtime) (what p s : Bytes) (k : ℤ → Asked Request)
      → length s < n
      → ((i : ℤ) → AskedFormed n (k i))
      → AskedFormed n (number go what p s k)
  unfolding number
  number-AskedFormed go what p s k b h = elim (Option-cases (atoi p)) [
    | inl e ↦ rw (e, number) (bad_formed _ s b)
    | inr (i, e) ↦ rw (e, number) (h i)
  ]

  item_line-AskedFormed :
      (with_item : Item → Request) (item : Item) (line s : Bytes)
      → Formed (with_item item)
      → length s < n
      → AskedFormed n
          (elim line [ [] ↦ asked (with_item item) s | (c ∷ t) ↦ bad (codes "bad data chunk") s ])
  item_line-AskedFormed with_item item [] s h b = is_formed _ s h b
  item_line-AskedFormed with_item item (c ∷ t) s h b = bad_formed _ s b

  read_item-AskedFormed :
      (go : Runtime) (with_item : Item → Request) (flag exp_time size : ℤ) (s : Bytes)
      → length s < n
      → ((item : Item) → Formed (with_item item))
      → AskedFormed n (read_item go with_item flag exp_time size s)
  unfolding read_item
  read_item-AskedFormed go with_item flag exp_time (negsuc i) s b h = has_panicked
  read_item-AskedFormed go with_item flag exp_time (pos i) s b h =
      elim (Bool-cases (ltb go.room i)) [
        | inl e ↦ rw e has_panicked
        | inr e ↦ elim (Option-cases (read_body i s)) [
          | inl f ↦ rw e (rw f (bad_formed _ _ (omega (arith, b))))
          | inr ((body, s₁), f) ↦
              let b₁ : length s₁ ≤ length s = subst (Rest (length s)) f (read_body-Rest i s) in
              elim (Option-cases (read_rest_of_line s₁)) [
                | inl g ↦ rw e (rw f (rw g (bad_formed _ _ (omega (arith, b)))))
                | inr ((line, s₂), g) ↦
                    let b₂ : length s₂ ≤ length s₁ =
                      subst (Rest (length s₁)) g (read_rest_of_line-Rest s₁) in
                    rw e (
                      rw f (
                        rw g (
                          item_line-AskedFormed with_item _ line s₂ (h _)
                            (omega (arith, b, b₁, b₂)))))
              ]
        ]
      ]

  read_get-AskedFormed :
      (parts : List Bytes) (s : Bytes)
      → length s < n
      → one_of (part 0 parts) gets ≡ true
      → AskedFormed n (read_get parts s)
  unfolding read_get
  read_get-AskedFormed [] s b h = bad_formed _ s b
  read_get-AskedFormed (cmd ∷ []) s b h = bad_formed _ s b
  read_get-AskedFormed (cmd ∷ key ∷ keys) s b h =
      is_formed _ s (λ k. cons_filled _ _, λ e. absurd (cc (e, h))) b

  read_delete-AskedFormed :
      (cmd : Bytes) (args : List Bytes) (s : Bytes)
      → length s < n
      → one_of cmd sets ≡ false
      → AskedFormed n (read_delete (cmd ∷ args) s)
  unfolding read_delete
  read_delete-AskedFormed cmd args s b h =
      if_AskedFormed _ _ _ (bad_formed _ s b)
        (is_formed _ s (λ k. cons_filled _ _, λ e f. absurd (cc (f, h))) b)

  read_sized-AskedFormed :
      (go : Runtime) (parts : List Bytes) (s : Bytes) (flag exp_time size : ℤ)
      → length s < n
      → AskedFormed n (read_sized go parts s flag exp_time size)
  unfolding read_sized
  read_sized-AskedFormed go parts s flag exp_time size b =
      if_AskedFormed (above_max size) _ _ (bad_formed (codes "bad data length") s b) (
        if_AskedFormed (ltb 5 (length parts) && not (bytes_eq (part 5 parts) noreply)) _ _
          (bad_formed (codes "cmd parts error: > 5 or part[5] != noreply") s b)
          (read_item-AskedFormed go (set_request_of parts) flag exp_time size s b
            (set_request_of-Formed parts)))

  read_numbers-AskedFormed :
      (go : Runtime) (parts : List Bytes) (s : Bytes)
      → length s < n
      → AskedFormed n (read_numbers go parts s)
  unfolding read_numbers
  read_numbers-AskedFormed go parts s b =
      number-AskedFormed go (codes "flag") (part 2 parts) s _ b λ flag.
        number-AskedFormed go (codes "exptime") (part 3 parts) s _ b λ exp_time.
          number-AskedFormed go (codes "length") (part 4 parts) s
            (read_sized go parts s flag exp_time) b
            λ size. read_sized-AskedFormed go parts s flag exp_time size b

  read_set-AskedFormed :
      (go : Runtime) (parts : List Bytes) (s : Bytes)
      → length s < n
      → AskedFormed n (read_set go parts s)
  unfolding read_set
  read_set-AskedFormed go parts s b =
      if_AskedFormed _ _ _ (bad_formed _ s b) (read_numbers-AskedFormed go parts s b)

  read_parts-AskedFormed :
      (go : Runtime) (parts : List Bytes) (s : Bytes)
      → length s < n
      → AskedFormed n (read_parts go parts s)
  unfolding read_parts
  read_parts-AskedFormed go [] s b = bad_formed _ s b
  read_parts-AskedFormed go (cmd ∷ args) s b = elim (Bool-cases (one_of cmd gets)) [
    | inl g ↦ rw g (read_get-AskedFormed (cmd ∷ args) s b g)
    | inr g ↦ elim (Bool-cases (one_of cmd sets)) [
      | inl t ↦ rw g (rw t (read_set-AskedFormed go (cmd ∷ args) s b))
      | inr t ↦ elim (Bool-cases (one_of cmd deletes)) [
        | inl d ↦ rw g (rw t (rw d (read_delete-AskedFormed cmd args s b t)))
        | inr d ↦ rw g (rw t (rw d (other-AskedFormed cmd s b g t d)))
      ]
    ]
  ]
    where
      other-AskedFormed :
          (cmd s : Bytes)
          → length s < n
          → one_of cmd gets ≡ false
          → one_of cmd sets ≡ false
          → one_of cmd deletes ≡ false
          → AskedFormed n (
              if one_of cmd others
              then asked (plain_request cmd []) s
              else bad (codes "unknow command: " ++ cmd) s)
      other-AskedFormed cmd s b g t d =
          if_AskedFormed _ _ _
            (is_formed _ s (λ k. absurd (ground arith), λ e f. absurd (cc (f, t))) b)
            (bad_formed _ s b)

eof_at_end : is_eof (new_error err_bad_request eof_text) ≡ true
unfolding is_eof error_text new_error error_map itoa_quick contains has_prefix table_at itoa_table
    format_uint digits
eof_at_end = refl

-- Every request that is read is formed, and takes a byte at least.
pub read-AskedFormed : (go : Runtime) (input : Bytes) → AskedFormed (length input) (read go input)
unfolding read
read-AskedFormed go [] = unfold read_string in at_end _ [] eof_at_end
read-AskedFormed go (c ∷ input) = elim (Option-cases (read_string (c ∷ input))) [
  | inl e ↦ rw (e, read) (at_end _ [] eof_at_end)
  | inr ((line, s), e) ↦
      let b : length s ≤ length input = subst (Rest (length input)) e (read_string-Rest c input) in
      rw (e, read)
        (if_AskedFormed _ _ _ (read_parts-AskedFormed go (fields go line) s (omega (arith, b)))
          (bad_formed _ s (omega (arith, b))))
]

request_of : Request → Asked Request → Request
request_of other (asked req s) = req
request_of other (refused e s) = other
request_of other panics = other

pub asked-Formed :
    (n : ℕ) (r : Asked Request) (req : Request) (s : Bytes)
    → AskedFormed n r
    → r ≡ asked req s
    → Formed req
unfolding request_of
asked-Formed n r req s (is_formed req' s' h b) e = subst Formed (ap (request_of req) e) h
asked-Formed n r req s (is_refused why s' b) e = absurd (cc (e))
asked-Formed n r req s (at_end why s' b) e = absurd (cc (e))
asked-Formed n r req s has_panicked e = absurd (cc (e))
