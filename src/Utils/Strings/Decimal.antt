-- ===== src/Utils/Strings/Decimal.antt =====
-- FormatUint and ParseUint on uint64 numbers.
use uq.Prelude.{
  ℕ, zero, suc, ◌+◌, ◌*◌, ◌/◌, ◌%◌, ◌<◌, ◌≤◌, ◌≡◌, ◌≢◌, refl, subst, ap, ◌∙◌, Bytes, [], ◌∷◌, some,
  false, arith, u64_mod, ◌==◌, ◌&&◌, ltb, Bool-cases, inl, inr,
}
use mathlib.Core.List.{cons-ne-nil}
use uq.Utils.Strings.{
  digits, scan, itoa_count, itoa_table, table_at, itoa_quick, format_uint, parse_uint,
}

-- The numbers with at most `fuel` digits are those below.
abbrev bound : ℕ → ℕ
bound zero = 1
bound (suc fuel) = 10 * bound fuel

scan_digit :
    (n : ℕ) (out : Bytes) → n < u64_mod → scan ((b'0' + n % 10) ∷ out) (n / 10) ≡ scan out n
unfolding scan
scan_digit n out h = ground arith

scan-digits :
    (fuel n : ℕ) (out : Bytes)
    → n < bound fuel
    → n < u64_mod
    → scan (digits fuel n out) 0 ≡ scan out n
unfolding digits
scan-digits zero n out b h = let e : n ≡ 0 = omega arith in rw e refl
scan-digits (suc fuel) n out b h = elim (Bool-cases (n == 0)) [
  | inl e ↦ let e0 : n ≡ 0 = ground arith in rw e0 refl
  | inr e ↦ rw e (
      scan-digits fuel (n / 10) ((b'0' + n % 10) ∷ out) (omega arith) (omega arith)
      ∙ scan_digit n out h)
]

scan_end : (n : ℕ) → scan [] n ≡ some n
unfolding scan
scan_end n = refl

scan-format_uint : (n : ℕ) → n < u64_mod → scan (format_uint n) 0 ≡ some n
unfolding format_uint
scan-format_uint n h = elim (Bool-cases (n == 0)) [
  | inl e ↦ let e0 : n ≡ 0 = ground arith in rw e0 (unfold scan in refl)
  | inr e ↦ rw e (scan-digits 20 n [] (omega arith) h ∙ scan_end n)
]

digits-ne-nil : (fuel n : ℕ) (out : Bytes) → out ≢ [] → digits fuel n out ≢ []
unfolding digits
digits-ne-nil zero n out h = h
digits-ne-nil (suc fuel) n out h = elim (Bool-cases (n == 0)) [
  | inl e ↦ rw e h
  | inr e ↦ rw e (digits-ne-nil fuel (n / 10) _ (cons-ne-nil (b'0' + n % 10) out))
]

-- `digits` makes a round as long as the number is positive.
digits_step :
    (fuel n : ℕ) (out : Bytes)
    → 0 < n
    → digits (suc fuel) n out ≡ digits fuel (n / 10) ((b'0' + n % 10) ∷ out)
unfolding digits
digits_step fuel n out h = let e : (n == 0) ≡ false = ground arith in rw e refl

pub format_uint-ne-nil : (n : ℕ) → format_uint n ≢ []
unfolding format_uint
format_uint-ne-nil n = elim (Bool-cases (n == 0)) [
  | inl e ↦ rw e (cons-ne-nil b'0' [])
  | inr e ↦
      rw (e, digits_step 19 n [] (ground arith)) (digits-ne-nil 19 (n / 10) _ (cons-ne-nil _ []))
]

parse-scan : (s : Bytes) → s ≢ [] → parse_uint s ≡ scan s 0
unfolding parse_uint
parse-scan [] h = absurd (h refl)
parse-scan (c ∷ s) h = refl

-- Every uint64 is read back from its decimal print.
pub parse_uint-format_uint : (n : ℕ) → n < u64_mod → parse_uint (format_uint n) ≡ some n
parse_uint-format_uint n h =
    parse-scan (format_uint n) (format_uint-ne-nil n) ∙ scan-format_uint n h

-- Two uint64 numbers with the same decimal print are equal.
pub format_uint-injective :
    (m n : ℕ) → m < u64_mod → n < u64_mod → format_uint m ≡ format_uint n → m ≡ n
format_uint-injective m n hm hn e =
    cc (scan-format_uint m hm, scan-format_uint n hn, ap (λ (s : Bytes). scan s 0) e)

-- The print of a uint64 is no text that begins with a letter.
pub format_uint_digit : (n c : ℕ) (s : Bytes) → n < u64_mod → b'9' < c → format_uint n ≢ c ∷ s
format_uint_digit n c s h k e =
    let numeric : scan (c ∷ s) 0 ≡ some n = rw (← e) (scan-format_uint n h) in
    unfold scan in ground arith

table_at-itoa_table : (n i j : ℕ) → j < n → table_at (itoa_table n i) j ≡ format_uint (i + j)
unfolding table_at itoa_table
table_at-itoa_table zero i j h = elim h [ ]
table_at-itoa_table (suc n) i zero h = ap format_uint (omega arith)
table_at-itoa_table (suc n) i (suc j) h =
    table_at-itoa_table n (i + 1) j (omega arith) ∙ ap format_uint (omega arith)

cached : (i : ℕ) → i < itoa_count → table_at (itoa_table itoa_count 0) i ≡ format_uint i
cached i h = table_at-itoa_table itoa_count 0 i h ∙ ap format_uint (omega arith)

-- The table changes no print: ItoaQuick is the decimal print for every int from 0 on.
pub itoa_quick-format_uint : (i : ℕ) → itoa_quick i ≡ format_uint i
unfolding itoa_quick
itoa_quick-format_uint i = elim (Bool-cases (ltb 0 i && ltb i itoa_count)) [
  | inl e ↦ rw e (cached i (ground arith))
  | inr e ↦ rw e refl
]

abbrev StartsLow : Bytes → Type 0
StartsLow [] = Unit {0}
StartsLow (c ∷ s) = c ≤ b'9'

digits-StartsLow : (fuel n : ℕ) (out : Bytes) → StartsLow out → StartsLow (digits fuel n out)
unfolding digits
digits-StartsLow zero n out h = h
digits-StartsLow (suc fuel) n out h = elim (Bool-cases (n == 0)) [
  | inl e ↦ rw e h
  | inr e ↦ rw e (digits-StartsLow fuel (n / 10) ((b'0' + n % 10) ∷ out) (omega arith))
]

format_uint-StartsLow : (n : ℕ) → StartsLow (format_uint n)
unfolding format_uint
format_uint-StartsLow n = elim (Bool-cases (n == 0)) [
  | inl e ↦ rw e (omega arith)
  | inr e ↦ rw e (digits-StartsLow 20 n [] tt)
]

-- The text of a number does not begin with a byte above '9'.
pub format_uint_low : (n c : ℕ) (s : Bytes) → b'9' < c → format_uint n ≢ c ∷ s
format_uint_low n c s h e =
    let low : StartsLow (c ∷ s) = subst StartsLow e (format_uint-StartsLow n) in
    absurd (omega (arith, low, h))
