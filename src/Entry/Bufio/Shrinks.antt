-- ===== src/Entry/Bufio/Shrinks.antt =====
-- A read takes bytes off the input and puts none back.
use uq.Prelude.{
  ℕ, zero, suc, ◌*◌, ◌≤◌, ◌<◌, Bytes, [], ◌∷◌, false, true, arith, leb, ◌==◌, length, pos, negsuc,
  ℤ, Bool, if◌then◌else◌,
}
use uq.Entry.{Runtime}
use uq.Entry.Bufio.{
  Read, Reader, got, failed, panics, and_read, read_byte, read_slice, read_full, make,
}

-- A read that succeeds leaves at most `n` bytes; or fewer than `n`.
abbrev pub Left : {A : Type 0} → ℕ → Read A → Type 0
Left n (got a rest) = length rest ≤ n
Left n (failed e) = Unit {0}
Left n panics = Unit {0}

abbrev pub Fewer : {A : Type 0} → ℕ → Read A → Type 0
Fewer n (got a rest) = length rest < n
Fewer n (failed e) = Unit {0}
Fewer n panics = Unit {0}

pub and_read-Left :
    {A B : Type 0} (n : ℕ) (r : Read A) (f : A → Reader B)
    → Left n r
    → ((a : A) (s : Bytes) → length s ≤ n → Left n (f a s))
    → Left n (and_read r f)
and_read-Left n (got a s) f h k = k a s h
and_read-Left n (failed e) f h k = tt
and_read-Left n panics f h k = tt

pub and_read-Fewer :
    {A B : Type 0} (n : ℕ) (r : Read A) (f : A → Reader B)
    → Fewer n r
    → ((a : A) (s : Bytes) → length s < n → Fewer n (f a s))
    → Fewer n (and_read r f)
and_read-Fewer n (got a s) f h k = k a s h
and_read-Fewer n (failed e) f h k = tt
and_read-Fewer n panics f h k = tt

pub Left-mono : {A : Type 0} (n m : ℕ) (r : Read A) → Left n r → n ≤ m → Left m r
Left-mono n m (got a s) h b = omega (arith, h, b)
Left-mono n m (failed e) h b = tt
Left-mono n m panics h b = tt

pub Left-Fewer : {A : Type 0} (n m : ℕ) (r : Read A) → Left n r → n < m → Fewer m r
Left-Fewer n m (got a s) h b = omega (arith, h, b)
Left-Fewer n m (failed e) h b = tt
Left-Fewer n m panics h b = tt

pub read_byte-Fewer : (s : Bytes) → Fewer (length s) (read_byte s)
unfolding read_byte
read_byte-Fewer [] = tt
read_byte-Fewer (c ∷ s) = omega arith

pub read_slice-Left : (room : ℕ) (s : Bytes) → Left (length s) (read_slice room s)
unfolding read_slice
read_slice-Left zero s = tt
read_slice-Left (suc room) [] = tt
read_slice-Left (suc room) (c ∷ s) = ends (c == b'\n') (read_slice-Left room s)
  where
    ends :
        (b : Bool)
        → Left (length s) (read_slice room s)
        → Left (suc (length s)) (
            if b
            then got (c ∷ []) s
            else and_read (read_slice room s) (λ line rest. got (c ∷ line) rest))
    ends true h = omega arith
    ends false h =
        and_read-Left _ (read_slice room s) _ (Left-mono _ _ (read_slice room s) h (omega arith))
          (λ line rest b. b)

pub read_full-Left : (n : ℕ) (s : Bytes) → Left (length s) (read_full n s)
unfolding read_full
read_full-Left zero s = omega arith
read_full-Left (suc n) [] = tt
read_full-Left (suc n) (c ∷ s) =
    and_read-Left _ (read_full n s) _
      (Left-mono _ _ (read_full n s) (read_full-Left n s) (omega arith)) (λ bytes rest h. h)

pub make-Left : (go : Runtime) (size : ℕ) (n : ℤ) (s : Bytes) → Left (length s) (make go size n s)
unfolding make
make-Left go size (negsuc n) s = tt
make-Left go size (pos n) s = fits (leb (size * n) go.room)
  where
    fits : (b : Bool) → Left (length s) (if b then got n s else panics)
    fits true = omega arith
    fits false = tt

pub Fewer-Left : {A : Type 0} (n : ℕ) (r : Read A) → Fewer n r → Left n r
Fewer-Left n (got a s) h = omega (arith, h)
Fewer-Left n (failed e) h = tt
Fewer-Left n panics h = tt
