-- ===== src/Utils/Strings/Parts.antt =====
-- The parts of a key: what TrimPrefix, TrimSuffix and Split do to a key that ends in a number.
use uq.Prelude.{
  ℕ, zero, suc, ◌+◌, ◌/◌, ◌%◌, ◌≡◌, ◌≢◌, refl, sym, ap, subst, ◌∙◌, Bytes, List, [], ◌∷◌, ◌++◌,
  false, true, arith, codes, ◌==◌, Bool, Bool-cases, inl, inr, All, append_assoc,
}
use uq.Utils.Strings.{
  digits, format_uint, acatui, trim_slash_prefix, trim_slash_suffix, split_slash, extend,
}
use uq.Utils.Strings.Decimal.{format_uint-ne-nil}

abbrev pub NoSlash : ℕ → Type 0
NoSlash c = (c == b'/') ≡ false

digits-All : (fuel n : ℕ) (out : Bytes) → All NoSlash out → All NoSlash (digits fuel n out)
unfolding digits
digits-All zero n out h = h
digits-All (suc fuel) n out h = elim (Bool-cases (n == 0)) [
  | inl e ↦ rw e h
  | inr e ↦ rw e (digits-All fuel (n / 10) ((b'0' + n % 10) ∷ out) (ground arith, h))
]

-- A print has no slash.
pub format_uint-All : (n : ℕ) → All NoSlash (format_uint n)
unfolding format_uint
format_uint-All n = elim (Bool-cases (n == 0)) [
  | inl e ↦ rw e (refl, tt)
  | inr e ↦ rw e (digits-All 20 n [] tt)
]

extend-append :
    (b : Bool) (c : ℕ) (p : Bytes) (ps qs : List Bytes)
    → extend b c ((p ∷ ps) ++ qs) ≡ extend b c (p ∷ ps) ++ qs
unfolding extend
extend-append true c p ps qs = refl
extend-append false c p ps qs = refl

extend_some :
    (b : Bool) (c : ℕ) (qs : List Bytes)
    → (p : Bytes) × (ps : List Bytes) × (extend b c qs ≡ p ∷ ps)
unfolding extend
extend_some true c qs = ([], qs, refl)
extend_some false c [] = (c ∷ [], [], refl)
extend_some false c (q ∷ qs) = (c ∷ q, qs, refl)

split_some : (s : Bytes) → (p : Bytes) × (ps : List Bytes) × (split_slash s ≡ p ∷ ps)
unfolding split_slash
split_some [] = ([], [], refl)
split_some (c ∷ s) = extend_some (c == b'/') c (split_slash s)

-- A slash ends a part.
pub split_slash-append :
    (s r : Bytes) → split_slash (s ++ b'/' ∷ r) ≡ split_slash s ++ split_slash r
unfolding split_slash
split_slash-append [] r = unfold extend in refl
split_slash-append (c ∷ s) r =
    let (p, ps, e) = split_some s in
    ap (extend (c == b'/') c) (split_slash-append s r ∙ ap (λ x. x ++ split_slash r) e)
    ∙ extend-append (c == b'/') c p ps (split_slash r)
    ∙ ap (λ x. extend (c == b'/') c x ++ split_slash r) (sym e)

-- A text with no slash is one part.
pub split_slash_one : (s : Bytes) → All NoSlash s → split_slash s ≡ s ∷ []
unfolding split_slash
split_slash_one [] h = refl
split_slash_one (c ∷ s) (h, hs) = rw h (rw (split_slash_one s hs) (unfold extend in refl))

trim_suffix_none : (s : Bytes) → All NoSlash s → trim_slash_suffix s ≡ s
unfolding trim_slash_suffix
trim_suffix_none [] h = refl
trim_suffix_none (c ∷ []) (h, hs) = rw h refl
trim_suffix_none (c ∷ d ∷ s) (h, hs) = ap (λ x. c ∷ x) (trim_suffix_none (d ∷ s) hs)

trim_suffix_kept :
    (s : Bytes) (c : ℕ) (r : Bytes)
    → All NoSlash (c ∷ r)
    → trim_slash_suffix (s ++ c ∷ r) ≡ s ++ c ∷ r
unfolding trim_slash_suffix
trim_suffix_kept [] c r h = trim_suffix_none (c ∷ r) h
trim_suffix_kept (x ∷ []) c r h = ap (λ y. x ∷ y) (trim_suffix_none (c ∷ r) h)
trim_suffix_kept (x ∷ y ∷ s) c r h = ap (λ z. x ∷ z) (trim_suffix_kept (y ∷ s) c r h)

trim_suffix_end : (s r : Bytes) → All NoSlash r → r ≢ [] → trim_slash_suffix (s ++ r) ≡ s ++ r
trim_suffix_end s [] h ne = absurd (ne refl)
trim_suffix_end s (c ∷ r) h ne = trim_suffix_kept s c r h

trim_prefix_none :
    (s r : Bytes) (p q : Bytes) (ps : List Bytes)
    → split_slash s ≡ p ∷ q ∷ ps
    → p ≢ []
    → trim_slash_prefix (s ++ r) ≡ s ++ r
unfolding split_slash trim_slash_prefix
trim_prefix_none [] r p q ps e ne = cc
trim_prefix_none (c ∷ s) r p q ps e ne = elim (Bool-cases (c == b'/')) [
  | inr h ↦ rw h refl
  | inl h ↦
      let e' : extend true c (split_slash s) ≡ p ∷ q ∷ ps = rw h at e in
      absurd (ne (unfold extend in cc (e')))
]

-- A key of two parts, the first not empty, with a slash and a number behind it: no slash is trimmed
-- off, and the number is its third part.
pub key_parts :
    (s : Bytes) (p q : Bytes) (n : ℕ)
    → split_slash s ≡ p ∷ q ∷ []
    → p ≢ []
    → split_slash (trim_slash_suffix (trim_slash_prefix (acatui s (codes "/") n)))
      ≡ p ∷ q ∷ format_uint n ∷ []
unfolding acatui
key_parts s p q n e ne =
    ap (λ x. split_slash (trim_slash_suffix x))
      (trim_prefix_none s (b'/' ∷ format_uint n) p q [] e ne)
    ∙ ap split_slash trimmed
    ∙ split_slash-append s (format_uint n)
    ∙ ap (λ x. x ++ split_slash (format_uint n)) e
    ∙ ap (λ x. p ∷ q ∷ x) (split_slash_one (format_uint n) (format_uint-All n))
  where
    trimmed : trim_slash_suffix (s ++ b'/' ∷ format_uint n) ≡ s ++ b'/' ∷ format_uint n
    trimmed =
        subst (λ x. trim_slash_suffix x ≡ x) (append_assoc s (b'/' ∷ []) (format_uint n))
          (trim_suffix_end (s ++ b'/' ∷ []) (format_uint n) (format_uint-All n)
            (format_uint-ne-nil n))
