-- ===== src/Entry/Redis/Terminator.antt =====
-- readLine, and what it makes of a line that does not end in CRLF.
use uq.Prelude.{
  ℕ, suc, ◌<◌, ◌≡◌, refl, ap, subst, ◌∙◌, Bytes, [], ◌∷◌, ◌++◌, some, arith, All, length,
  All-append, append_assoc, length-append,
}
use uq.Entry.Bufio.{got, and_read, buffer_size, read_slice}
use uq.Entry.Bufio.Laws.{NoNewline, read_slice_line}
use uq.Entry.Redis.Session.{cut_two, read_line}

pub cut_two_lem : (s : Bytes) (c d : ℕ) → cut_two (s ++ c ∷ d ∷ []) ≡ some s
unfolding cut_two
cut_two_lem [] c d = refl
cut_two_lem (a ∷ []) c d = refl
cut_two_lem (a ∷ b ∷ []) c d = refl
cut_two_lem (a ∷ b ∷ e ∷ s) c d = rw (cut_two_lem (b ∷ e ∷ s) c d) refl

slice_line :
    (s rest : Bytes) (c : ℕ)
    → All NoNewline s
    → NoNewline c
    → suc (length s) < buffer_size
    → read_slice buffer_size (s ++ c ∷ b'\n' ∷ rest) ≡ got (s ++ c ∷ b'\n' ∷ []) rest
slice_line s rest c h hc b =
    let line : Bytes = s ++ c ∷ [] in
    subst (λ x. read_slice buffer_size x ≡ got (s ++ c ∷ b'\n' ∷ []) rest)
      (append_assoc s (c ∷ []) (b'\n' ∷ rest))
      (read_slice_line line rest buffer_size (All-append NoNewline s (c ∷ []) h (hc, tt))
          (omega (arith, b, length-append {0} s (c ∷ [])))
        ∙ ap (λ x. got x rest) (append_assoc s (c ∷ []) (b'\n' ∷ [])))

-- readLine takes the two last bytes of a line off and reports no error, whatever byte stands before the
-- newline: a bad terminator is not noticed. The line must fit in the reader's buffer.
pub read_line_any :
    (s rest : Bytes) (c : ℕ)
    → All NoNewline s
    → NoNewline c
    → suc (length s) < buffer_size
    → read_line (s ++ c ∷ b'\n' ∷ rest) ≡ got s rest
unfolding read_line
read_line_any s rest c h hc b =
    rw (slice_line s rest c h hc b) (rw (cut_two_lem s c b'\n', and_read) refl)
