-- ===== src/Entry/Bufio/Laws.antt =====
-- What the reads return where the input has the shape that they look for.
use uq.Prelude.{
  ℕ, zero, suc, ◌*◌, ◌≤◌, ◌<◌, ◌≡◌, refl, Bytes, [], ◌∷◌, ◌++◌, false, true, arith, leb, ◌==◌, All,
  length, pos,
}
use uq.Entry.{Runtime}
use uq.Entry.Bufio.{got, read_slice, read_full, make}

abbrev pub NoNewline : ℕ → Type 0
NoNewline c = (c == b'\n') ≡ false

-- A line that fits in the buffer is read up to its newline.
pub read_slice_line :
    (s rest : Bytes) (room : ℕ)
    → All NoNewline s
    → length s < room
    → read_slice room (s ++ b'\n' ∷ rest) ≡ got (s ++ b'\n' ∷ []) rest
unfolding read_slice
read_slice_line s rest zero h b = absurd (omega (arith, b))
read_slice_line [] rest (suc room) h b = refl
read_slice_line (c ∷ s) rest (suc room) (h, hs) b =
    rw h (rw (read_slice_line s rest room hs (omega (arith, b))) refl)

-- A full read of as many bytes as stand there.
pub read_full_lem : (s rest : Bytes) → read_full (length s) (s ++ rest) ≡ got s rest
unfolding read_full
read_full_lem [] rest = refl
read_full_lem (c ∷ s) rest = rw (read_full_lem s rest) refl

-- An allocation within the room.
pub make_fits :
    (go : Runtime) (size n : ℕ) (s : Bytes) → size * n ≤ go.room → make go size (pos n) s ≡ got n s
unfolding make
make_fits go size n s h = let fits : leb (size * n) go.room ≡ true = ground arith in rw fits refl
