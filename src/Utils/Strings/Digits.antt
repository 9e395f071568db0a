-- ===== src/Utils/Strings/Digits.antt =====
-- The print of a number has digits only, and at most 20 of them; strconv.Atoi reads it back.
use uq.Prelude.{
  ℕ, zero, suc, ◌+◌, ◌/◌, ◌%◌, ◌^◌, ◌≤◌, ◌<◌, ◌≡◌, ◌≢◌, refl, Bytes, [], ◌∷◌, false, true, some,
  arith, ltb, ◌==◌, Bool-cases, inl, inr, All, pos, length,
}
use uq.Utils.Strings.{digits, format_uint, parse_uint, atoi, within_int, itoa_quick}
use uq.Utils.Strings.Decimal.{format_uint-ne-nil, parse_uint-format_uint, itoa_quick-format_uint}

abbrev pub IsDigit : ℕ → Type 0
IsDigit c = (b'0' ≤ c) × (c ≤ b'9')

digits-IsDigit : (fuel n : ℕ) (out : Bytes) → All IsDigit out → All IsDigit (digits fuel n out)
unfolding digits
digits-IsDigit zero n out h = h
digits-IsDigit (suc fuel) n out h = elim (Bool-cases (n == 0)) [
  | inl e ↦ rw e h
  | inr e ↦
      rw e (digits-IsDigit fuel (n / 10) ((b'0' + n % 10) ∷ out) ((omega arith, omega arith), h))
]

pub format_uint-IsDigit : (n : ℕ) → All IsDigit (format_uint n)
unfolding format_uint
format_uint-IsDigit n = elim (Bool-cases (n == 0)) [
  | inl e ↦ rw e ((omega arith, omega arith), tt)
  | inr e ↦ rw e (digits-IsDigit 20 n [] tt)
]

length-digits : (fuel n : ℕ) (out : Bytes) → length (digits fuel n out) ≤ fuel + length out
unfolding digits
length-digits zero n out = omega arith
length-digits (suc fuel) n out = elim (Bool-cases (n == 0)) [
  | inl e ↦ rw e (omega arith)
  | inr e ↦ rw e (omega (arith, length-digits fuel (n / 10) ((b'0' + n % 10) ∷ out)))
]

pub length-format_uint : (n : ℕ) → length (format_uint n) ≤ 20
unfolding format_uint
length-format_uint n = elim (Bool-cases (n == 0)) [
  | inl e ↦ rw e (omega arith)
  | inr e ↦ rw e (omega (arith, length-digits 20 n []))
]

within_int-some : (n : ℕ) → n < 2 ^ 63 → within_int false (some n) ≡ some (pos n)
unfolding within_int
within_int-some n h = let fits : ltb n (2 ^ 63) ≡ true = ground arith in rw fits refl

atoi_digits :
    (s : Bytes) (n : ℕ)
    → All IsDigit s
    → s ≢ []
    → parse_uint s ≡ some n
    → n < 2 ^ 63
    → atoi s ≡ some (pos n)
unfolding atoi
atoi_digits [] n h ne e b = absurd (ne refl)
atoi_digits (c ∷ s) n ((lo, hi), hs) ne e b =
    let minus : (c == b'-') ≡ false = ground arith in
    let plus : (c == b'+') ≡ false = ground arith in rw minus (rw plus (rw e (within_int-some n b)))

-- Atoi reads back what is printed for an int from 0 on.
pub atoi-format_uint : (n : ℕ) → n < 2 ^ 63 → atoi (format_uint n) ≡ some (pos n)
atoi-format_uint n h =
    atoi_digits (format_uint n) n (format_uint-IsDigit n) (format_uint-ne-nil n)
      (parse_uint-format_uint n (omega arith)) h

pub atoi-itoa_quick : (n : ℕ) → n < 2 ^ 63 → atoi (itoa_quick n) ≡ some (pos n)
atoi-itoa_quick n h = rw (itoa_quick-format_uint n) (atoi-format_uint n h)

pub itoa_quick-IsDigit : (n : ℕ) → All IsDigit (itoa_quick n)
itoa_quick-IsDigit n = rw (itoa_quick-format_uint n) (format_uint-IsDigit n)

pub length-itoa_quick : (n : ℕ) → length (itoa_quick n) ≤ 20
length-itoa_quick n = rw (itoa_quick-format_uint n) (length-format_uint n)
