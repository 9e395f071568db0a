-- ===== src/Entry/Redis/Client/Replies.antt =====
-- readReply reads back what writeReply writes.
use uq.Prelude.{
  suc, ◌+◌, ◌*◌, ◌^◌, ◌≤◌, ◌<◌, ◌≡◌, refl, Bytes, codes, List, [], ◌∷◌, ◌++◌, arith, All, length,
  pos, negsuc, ℤ, append_assoc, some, none,
}
use uq.Utils.Strings.{digits, atoi, itoa_quick, itoa_quick_int, itoa, format_uint, within_int}
use uq.Utils.Strings.Digits.{
  atoi-itoa_quick, itoa_quick-IsDigit, length-itoa_quick, format_uint-IsDigit, length-format_uint,
}
use uq.Utils.Strings.Decimal.{parse_uint-format_uint}
use uq.Entry.{Runtime}
use uq.Entry.Bufio.{got, panics, and_read, read_byte, buffer_size, make}
use uq.Entry.Bufio.Laws.{NoNewline, read_full_lem, make_fits}
use uq.Entry.Redis.Terminator.{read_line_any}
use uq.Entry.Redis.RoundTrip.{skip_byte_lem, All-NoNewline, read_int_printed}
use uq.Entry.Redis.Session.{
  Reply, Bulk, status, error, integer, bulk, multi_bulks, text, int, uint, nil, crlf, read_line,
  read_int, bulk_bytes, element_bytes, elements_bytes, write_reply,
}
use uq.Entry.Redis.Client.{
  skip_quietly, read_element_of, read_elements, read_bulks, read_bulk, read_flagged, read_reply,
}

-- A line of text that fits in the buffer with its CRLF.
pub record IsLine (s : Bytes) : Type 0 where
  pub plain : All NoNewline s
  pub short : length s + 1 < buffer_size

-- An int of 64 bits.
abbrev pub IsInt : ℤ → Type 0
IsInt (pos n) = n < 2 ^ 63
IsInt (negsuc n) = n < 2 ^ 63

skip_quietly-crlf : (s : Bytes) → skip_quietly crlf (crlf ++ s) ≡ s
unfolding skip_quietly
skip_quietly-crlf s = refl

read_line-crlf : (s rest : Bytes) → IsLine s → read_line (s ++ (crlf ++ rest)) ≡ got s rest
read_line-crlf s rest h = read_line_any s rest b'\r' h.plain refl (omega (arith, h.short))

read_int-crlf :
    (s : Bytes) (i : ℤ) (rest : Bytes)
    → IsLine s
    → atoi s ≡ some i
    → read_int (s ++ (crlf ++ rest)) ≡ got i rest
unfolding read_int
read_int-crlf s i rest h e = rw (read_line-crlf s rest h) (rw (e, and_read) refl)

itoa_quick_int-IsLine : (i : ℤ) → IsLine (itoa_quick_int i)
unfolding itoa_quick_int itoa
itoa_quick_int-IsLine (pos n) = record {
  plain = All-NoNewline (itoa_quick n) (itoa_quick-IsDigit n);
  short = omega (arith, length-itoa_quick n);
}
itoa_quick_int-IsLine (negsuc n) = record {
  plain = (refl, All-NoNewline (format_uint (suc n)) (format_uint-IsDigit (suc n)));
  short = omega (arith, length-format_uint (suc n));
}

-- Atoi reads back the print of an int.
pub atoi-itoa_quick_int : (i : ℤ) → IsInt i → atoi (itoa_quick_int i) ≡ some i
unfolding itoa_quick_int itoa atoi within_int
atoi-itoa_quick_int (pos n) h = atoi-itoa_quick n h
atoi-itoa_quick_int (negsuc n) h =
    rw (parse_uint-format_uint (suc n) (omega (arith, h))) (ground arith)

read_minus_one : (rest : Bytes) → read_int (codes "-1" ++ (crlf ++ rest)) ≡ got (negsuc 0) rest
unfolding itoa_quick_int format_uint digits
read_minus_one rest =
    read_int-crlf (itoa_quick_int (negsuc 0)) (negsuc 0) rest (itoa_quick_int-IsLine (negsuc 0))
      (atoi-itoa_quick_int (negsuc 0) (omega arith))

module _ (go : Runtime) where
  -- An element that a client reads: a text that can be allocated.
  abbrev pub ReadableBulk : Bulk → Type 0
  ReadableBulk (text b) = (length b ≤ go.room) × (length b < 2 ^ 63)
  ReadableBulk nil = ⊥
  ReadableBulk (int i) = ⊥
  ReadableBulk (uint n) = ⊥

  -- A reply that a client reads: a line that fits in the buffer, an int of 64 bits, a bulk that is
  -- there and can be allocated, or a list of texts, or no list.
  abbrev pub IsReadable : Reply → Type 0
  IsReadable (status s) = IsLine s
  IsReadable (error s) = IsLine s
  IsReadable (integer i) = IsInt i
  IsReadable (bulk none) = ⊥
  IsReadable (bulk (some b)) = ReadableBulk (text b)
  IsReadable (multi_bulks none) = Unit {0}
  IsReadable (multi_bulks (some bs)) =
      All ReadableBulk bs × (16 * length bs ≤ go.room) × (length bs < 2 ^ 63)

  tail_regrouped :
      (b rest : Bytes)
      → (itoa_quick (length b) ++ (crlf ++ (b ++ crlf))) ++ rest
        ≡ itoa_quick (length b) ++ (crlf ++ (b ++ (crlf ++ rest)))
  tail_regrouped b rest = simp append_assoc

  bulk_regrouped :
      (b rest : Bytes)
      → bulk_bytes b ++ rest ≡ b'$' ∷ (itoa_quick (length b) ++ (crlf ++ (b ++ (crlf ++ rest))))
  unfolding bulk_bytes
  bulk_regrouped b rest = simp append_assoc

  -- The loop over the elements reads what was written.
  read_elements-elements_bytes :
      (bs : List Bulk) (rest : Bytes)
      → All ReadableBulk bs
      → read_elements go (length bs) (elements_bytes bs ++ rest) ≡ got bs rest
  unfolding elements_bytes element_bytes read_elements read_element_of
  read_elements-elements_bytes [] rest h = refl
  read_elements-elements_bytes (text b ∷ bs) rest ((fits, small), hs) =
      let more = elements_bytes bs ++ rest in
      rw (append_assoc (bulk_bytes b) (elements_bytes bs) rest) (
        rw (bulk_regrouped b more) (
          rw (skip_byte_lem b'$' (itoa_quick (length b) ++ (crlf ++ (b ++ (crlf ++ more))))) (
            rw (read_int_printed (length b) (b ++ (crlf ++ more)) small) (
              rw (make_fits go 1 (length b) (b ++ (crlf ++ more)) (omega (arith, fits))) (
                rw (read_full_lem b (crlf ++ more)) (
                  rw (skip_quietly-crlf more)
                    (rw (read_elements-elements_bytes bs rest hs) refl)))))))
  read_elements-elements_bytes (nil ∷ bs) rest (h, hs) = absurd h
  read_elements-elements_bytes (int i ∷ bs) rest (h, hs) = absurd h
  read_elements-elements_bytes (uint n ∷ bs) rest (h, hs) = absurd h

  read_bulk-bulk_bytes :
      (b rest : Bytes)
      → ReadableBulk (text b)
      → read_bulk go (itoa_quick (length b) ++ (crlf ++ (b ++ (crlf ++ rest))))
        ≡ got (bulk (some b)) rest
  unfolding read_bulk
  read_bulk-bulk_bytes b rest (fits, small) =
      rw (read_int_printed (length b) (b ++ (crlf ++ rest)) small) (
        rw (make_fits go 1 (length b) (b ++ (crlf ++ rest)) (omega (arith, fits)))
          (rw (read_full_lem b (crlf ++ rest)) (rw (skip_quietly-crlf rest) refl)))

  read_bulks_counted :
      (bs : List Bulk) (rest : Bytes)
      → IsReadable (multi_bulks (some bs))
      → and_read
          (read_int (itoa_quick (length bs) ++ (crlf ++ (elements_bytes bs ++ rest))))
          (read_bulks go)
        ≡ got (multi_bulks (some bs)) rest
  unfolding read_bulks
  read_bulks_counted bs rest (all, fits, small) =
      rw (read_int_printed (length bs) (elements_bytes bs ++ rest) small) (
        rw (make_fits go 16 (length bs) (elements_bytes bs ++ rest) fits)
          (rw (read_elements-elements_bytes bs rest all) refl))

  -- readReply reads back the bytes that writeReply writes, and leaves what follows them: of a status or
  -- an error that is a line of the reader's buffer, of an int of 64 bits, of a bulk that is there, of a
  -- list of texts and of no list, where `make` can allocate what is read.
  pub read_reply-write_reply :
      (r : Reply) (rest : Bytes) → IsReadable r → read_reply go (write_reply r ++ rest) ≡ got r rest
  unfolding read_reply read_flagged read_byte write_reply
  read_reply-write_reply (status s) rest h =
      rw (append_assoc s crlf rest) (rw (read_line-crlf s rest h) refl)
  read_reply-write_reply (error s) rest h =
      rw (append_assoc s crlf rest) (rw (read_line-crlf s rest h) refl)
  read_reply-write_reply (integer i) rest h = rw (append_assoc (itoa_quick_int i) crlf rest) (
      rw
        (read_int-crlf (itoa_quick_int i) i rest (itoa_quick_int-IsLine i)
          (atoi-itoa_quick_int i h))
        refl)
  read_reply-write_reply (bulk none) rest h = absurd h
  read_reply-write_reply (bulk (some b)) rest h =
      rw (tail_regrouped b rest) (read_bulk-bulk_bytes b rest h)
  read_reply-write_reply (multi_bulks none) rest h =
      rw (read_minus_one rest) (unfold read_bulks in refl)
  read_reply-write_reply (multi_bulks (some [])) rest h =
      unfold elements_bytes itoa_quick format_uint in read_bulks_counted [] rest h
  read_reply-write_reply (multi_bulks (some (b ∷ bs))) rest h =
      let count = itoa_quick (length (b ∷ bs)) in
      let all = elements_bytes (b ∷ bs) in
      rw (append_assoc count (crlf ++ all) rest)
        (rw (append_assoc crlf all rest) (read_bulks_counted (b ∷ bs) rest h))

  -- The bulk that is nil, which the server writes as a size of -1, makes readReply panic.
  pub read_reply_nil : (rest : Bytes) → read_reply go (write_reply (bulk none) ++ rest) ≡ panics
  unfolding read_reply read_flagged read_byte write_reply read_bulk make
  read_reply_nil rest = rw (read_minus_one rest) refl
