-- ===== src/Entry/Memcached/Shrinks.antt =====
-- The reads of the memcached server leave no more of the input than there was.
use uq.Prelude.{
  ℕ, zero, suc, ◌+◌, ◌≤◌, ◌≡◌, refl, subst, inl, inr, Bytes, [], ◌∷◌, arith, length, Bool, true,
  false, ◌==◌, leb, if◌then◌else◌, Option, none, some, Option-cases, Bool-cases,
}
use uq.Entry.Bufio.{buffer_size}
use uq.Entry.Memcached.Input.{
  read_string, read_body, line_within, drop_return, split_at, full_buffer, read_rest_of_line,
}

-- A read of two parts leaves at most `n` bytes.
abbrev pub Rest : ℕ → Option (Bytes × Bytes) → Type 0
Rest n none = Unit {0}
Rest n (some (a, s)) = length s ≤ n

abbrev longer : ℕ → Option (Bytes × Bytes) → Option (Bytes × Bytes)
longer c o = elim o [ none ↦ none | some (a, s) ↦ some (c ∷ a, s) ]

longer-Rest : (c n m : ℕ) (o : Option (Bytes × Bytes)) → Rest n o → n ≤ m → Rest m (longer c o)
longer-Rest c n m none h b = tt
longer-Rest c n m (some (a, s)) h b = omega (arith, h, b)

if_Rest :
    (n : ℕ) (b : Bool) (x y : Option (Bytes × Bytes))
    → Rest n x
    → Rest n y
    → Rest n (if b then x else y)
if_Rest n true x y hx hy = hx
if_Rest n false x y hx hy = hy

tail-Rest :
    (n : ℕ) (b : Bool) (c : ℕ) (s : Bytes) (o : Option (Bytes × Bytes))
    → length s ≤ n
    → Rest n o
    → Rest n (if b then some (c ∷ [], s) else longer c o)
tail-Rest n true c s o h k = h
tail-Rest n false c s o h k = longer-Rest c n n o k (omega arith)

-- A line that is read takes its newline at least.
pub read_string-Rest : (c : ℕ) (s : Bytes) → Rest (length s) (read_string (c ∷ s))
unfolding read_string
read_string-Rest c [] = tail-Rest 0 (c == b'\n') c [] none (omega arith) tt
read_string-Rest c (d ∷ s) =
    tail-Rest (suc (length s)) (c == b'\n') c (d ∷ s) (read_string (d ∷ s)) (omega arith) (
      Rest-mono (length s) (suc (length s)) (read_string (d ∷ s)) (read_string-Rest d s)
        (omega arith))
  where
    Rest-mono : (n m : ℕ) (o : Option (Bytes × Bytes)) → Rest n o → n ≤ m → Rest m o
    Rest-mono n m none h b = tt
    Rest-mono n m (some (a, s)) h b = omega (arith, h, b)

pub read_body-Rest : (n : ℕ) (s : Bytes) → Rest (length s) (read_body n s)
unfolding read_body
read_body-Rest zero s = omega arith
read_body-Rest (suc n) [] = tt
read_body-Rest (suc n) (c ∷ s) =
    longer-Rest c (length s) (suc (length s)) (read_body n s) (read_body-Rest n s) (omega arith)

line_within-Rest : (room : ℕ) (s : Bytes) → Rest (length s) (line_within room s)
unfolding line_within
line_within-Rest zero s = tt
line_within-Rest (suc room) [] = tt
line_within-Rest (suc room) (c ∷ s) = if_Rest (suc (length s)) (c == b'\n') _ _ (omega arith) (
    longer-Rest c (length s) (suc (length s)) (line_within room s) (line_within-Rest room s)
      (omega arith))

length-split_at : (n : ℕ) (s : Bytes) → length (split_at n s).0 + length (split_at n s).1 ≡ length s
unfolding split_at
length-split_at zero s = omega arith
length-split_at (suc n) [] = refl
length-split_at (suc n) (c ∷ s) = omega (arith, length-split_at n s)

full_buffer-Rest : (a b : Bytes) → length (full_buffer (a, b)).1 ≤ length a + length b
unfolding full_buffer drop_return
full_buffer-Rest [] b = omega arith
full_buffer-Rest (c ∷ a) b = elim (Bool-cases (length (drop_return (c ∷ a)) == length (c ∷ a))) [
  | inl e ↦ rw e (omega arith)
  | inr e ↦ rw e (omega arith)
]

pub read_rest_of_line-Rest : (s : Bytes) → Rest (length s) (read_rest_of_line s)
unfolding read_rest_of_line
read_rest_of_line-Rest s = elim (Option-cases (line_within buffer_size s)) [
  | inr ((line, rest), e) ↦
      rw (e, read_rest_of_line) (subst (Rest (length s)) e (line_within-Rest buffer_size s))
  | inl e ↦
      rw (e, read_rest_of_line)
        (if_Rest (length s) (leb buffer_size (length s)) _ _ (full s) (partial s))
]
  where
    full : (s : Bytes) → length (full_buffer (split_at buffer_size s)).1 ≤ length s
    full s =
        let (a, b) = split_at buffer_size s in
        omega (arith, full_buffer-Rest a b, length-split_at buffer_size s)

    partial : (s : Bytes) → Rest (length s) (elim s [ [] ↦ none | (c ∷ t) ↦ some (c ∷ t, []) ])
    partial [] = tt
    partial (c ∷ t) = omega arith
