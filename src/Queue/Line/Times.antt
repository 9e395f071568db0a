-- ===== src/Queue/Line/Times.antt =====
-- pop, again and again; and the step equations of pop and of mPop's third loop.
use uq.Prelude.{
  ℕ, zero, suc, ◌+◌, ◌≤◌, ◌<◌, ◌≡◌, refl, sym, ap, subst, i64_mod, ℤ, ◌∙◌, inl, inr, List, [], ◌∷◌,
  ◌++◌, true, false, arith, leb, is_pos, pos_part, Bytes, codes, Bool-cases,
}
use uq.Utils.Errors.{Result, ok, err, Error, new_error, err_none}
use uq.Queue.Line.{
  exptime_at, is_after, Line, Message, pop, pop_front, pop_head, redeliver, deliver, fill, flight,
}
use uq.Queue.Line.Valid.{IsValid}
use uq.Queue.Line.Flight.{sent, sent_fields, sent-IsValid}
use uq.Queue.Line.Pop.{is_due, to_back}
use uq.Queue.Line.Deliver.{Readable, oldest-le-head}

abbrev pub Taken : Type 0
Taken = List (ℕ × Bytes) × Line

take_more : Result Error (ℕ × Bytes) × Line → (Line → Taken) → Taken
take_more (err e, l) rest = ([], l)
take_more (ok x, l) rest = let (got, l') = rest l in (x ∷ got, l')

-- pop until the first error, and at most `n` times.
unfoldable pub pop_times : (ℕ → Result Error Bytes) → ℕ → ℕ → ℕ → Line → List (ℕ × Bytes) × Line
unfolding take_more
pop_times fetch tail now zero l = ([], l)
pop_times fetch tail now (suc n) l =
    take_more (pop fetch tail now l) (λ l'. pop_times fetch tail now n l')

-- An instant that fits in an int64 is not over before it comes.
pub exptime_at_early :
    (t now : ℕ) (recycle : ℤ)
    → now + pos_part recycle < i64_mod
    → t ≤ now + pos_part recycle
    → is_after t (exptime_at now recycle) ≡ false
unfolding is_after exptime_at
exptime_at_early t now recycle fits le = ground (arith, fits, le)

pub is_due-append :
    (now : ℕ) (ms : List Message) (m : Message)
    → is_due now ms ≡ false
    → is_after now m.exptime ≡ false
    → is_due now (ms ++ m ∷ []) ≡ false
is_due-append now [] m h le = le
is_due-append now (x ∷ ms) m h le = h

module _ (fetch : ℕ → Result Error Bytes) (tail now : ℕ) where
  pub pop_due :
      (l : Line) (m : Message) (rest : List Message) (d : Bytes)
      → is_pos l.recycle ≡ true
      → l.inflight ≡ m ∷ rest
      → is_after now m.exptime ≡ true
      → fetch m.tid ≡ ok d
      → pop fetch tail now l
        ≡ (ok (m.tid, d), record l { inflight = to_back (exptime_at now l.recycle) m rest })
  unfolding pop pop_front redeliver
  pop_due l m rest d p e h f = rw (p, e, h, f) refl

  pop_front_past :
      (l : Line) (ms : List Message)
      → is_due now ms ≡ false
      → pop_front fetch tail now l ms ≡ pop_head fetch tail now l
  unfolding pop_front
  pop_front_past l [] n = refl
  pop_front_past l (m ∷ rest) n = rw n refl

  pop_past :
      (l : Line)
      → (is_pos l.recycle ≡ true → is_due now l.inflight ≡ false)
      → pop fetch tail now l ≡ pop_head fetch tail now l
  unfolding pop
  pop_past l n = elim (Bool-cases (is_pos l.recycle)) [
    | inl p ↦ rw p (pop_front_past l l.inflight (n p))
    | inr q ↦ rw q refl
  ]

  pop_next :
      (l : Line) (d : Bytes)
      → (is_pos l.recycle ≡ true → is_due now l.inflight ≡ false)
      → leb tail l.head ≡ false
      → fetch l.head ≡ ok d
      → pop fetch tail now l ≡ (ok (l.head, d), sent now l)
  pop_next l d n h f = pop_past l n ∙ (unfold pop_head deliver in rw (h, f) refl)

  pop_blank :
      (l : Line)
      → (is_pos l.recycle ≡ true → is_due now l.inflight ≡ false)
      → leb tail l.head ≡ true
      → pop fetch tail now l ≡ (err (new_error err_none (codes "line pop")), l)
  pop_blank l n h = pop_past l n ∙ (unfold pop_head in rw h refl)

  sent_not_due :
      (l : Line)
      → now + pos_part l.recycle < i64_mod
      → (is_pos l.recycle ≡ true → is_due now l.inflight ≡ false)
      → is_pos (sent now l).recycle ≡ true
      → is_due now (sent now l).inflight ≡ false
  sent_not_due l fits n p =
      let p' : is_pos l.recycle ≡ true = rw (← ((sent_fields now l).2)) p in
      unfold flight in
      rw p' (
        is_due-append now l.inflight _ (n p')
          (exptime_at_early now now l.recycle fits (omega arith)))

  pub pop_times_ok :
      (n : ℕ) (l l' : Line) (x : ℕ × Bytes)
      → pop fetch tail now l ≡ (ok x, l')
      → pop_times fetch tail now (suc n) l
        ≡ (x ∷ (pop_times fetch tail now n l').0, (pop_times fetch tail now n l').1)
  unfolding pop_times
  pop_times_ok n l l' x e =
      ap (λ (r : Result Error (ℕ × Bytes) × Line). take_more r (pop_times fetch tail now n)) e

  pop_times_err :
      (n : ℕ) (l l' : Line) (e : Error)
      → pop fetch tail now l ≡ (err e, l')
      → pop_times fetch tail now (suc n) l ≡ ([], l')
  unfolding pop_times
  pop_times_err n l l' x e =
      ap (λ (r : Result Error (ℕ × Bytes) × Line). take_more r (pop_times fetch tail now n)) e

  pub fill_ok :
      (n : ℕ) (l : Line) (d : Bytes)
      → leb tail l.head ≡ false
      → fetch l.head ≡ ok d
      → fill fetch tail now (suc n) l ≡ (
        (l.head, d) ∷ (fill fetch tail now n (sent now l)).0,
        (fill fetch tail now n (sent now l)).1,
      )
  unfolding fill
  fill_ok n l d h f = rw (h, fill) (rw f refl)

  pub fill_blank :
      (n : ℕ) (l : Line) → leb tail l.head ≡ true → fill fetch tail now (suc n) l ≡ ([], l)
  unfolding fill
  fill_blank n l h = rw (h, fill) refl

  sent-Readable :
      (l : Line)
      → IsValid tail l
      → l.head < tail
      → Readable fetch tail l
      → Readable fetch tail (sent now l)
  sent-Readable l v h s i lo hi = s i (ground (arith, sent_fields now l, v.tail_lt, v.head_le)) hi

  -- Where nothing is due, mPop's third loop is pop, again and again.
  pub fill_lem :
      (n : ℕ) (l : Line)
      → IsValid tail l
      → Readable fetch tail l
      → now + pos_part l.recycle < i64_mod
      → (is_pos l.recycle ≡ true → is_due now l.inflight ≡ false)
      → fill fetch tail now n l ≡ pop_times fetch tail now n l
  fill_lem zero l v s fits n = unfold fill pop_times in refl
  fill_lem (suc k) l v s fits n = elim (Bool-cases (leb tail l.head)) [
    | inl e ↦ fill_blank k l e ∙ sym (pop_times_err k l l _ (pop_blank l n e))
    | inr e ↦
        let stored = s l.head (oldest-le-head l v) (ground arith) in
        let rest =
          fill_lem k (sent now l) (sent-IsValid now l v (ground arith))
            (sent-Readable l v (ground arith) s)
            (subst (λ r. now + pos_part r < i64_mod) (sym ((sent_fields now l).2)) fits)
            (sent_not_due l fits n) in
        fill_ok k l stored.0 e stored.1
        ∙ ap (λ (r : List (ℕ × Bytes) × Line). ((l.head, stored.0) ∷ r.0, r.1)) rest
        ∙ sym (pop_times_ok k l (sent now l) (l.head, stored.0) (pop_next l stored.0 n e stored.1))
  ]
