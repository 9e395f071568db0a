-- ===== src/Queue/Line/MultiPop.antt =====
-- mPop against pop: taking `n` messages at once is taking one at a time.
use uq.Prelude.{
  ℕ, zero, suc, ◌+◌, ◌-◌, ◌<◌, ◌≡◌, refl, sym, ap, subst, ◌∙◌, inl, inr, List, [], ◌∷◌, ◌++◌, true,
  false, ◌&&◌, arith, i64_mod, leb, ◌==◌, is_pos, pos_part, Bytes, Bool-cases, if◌then◌else◌,
  length, append-nil, append_assoc,
}
use uq.Utils.Errors.{Result, ok, Error}
use uq.Queue.Line.{
  exptime_at, is_after, Line, Message, expired, rotate, fill, finish, m_pop_from, m_pop,
}
use uq.Queue.Line.Valid.{IsValid}
use uq.Queue.Line.Flight.{requeue-IsValid}
use uq.Queue.Line.Pop.{is_due, to_back, to_back-Requeued}
use uq.Queue.Line.Deliver.{Readable, front_in_flight}
use uq.Queue.Line.Times.{
  exptime_at_early, Taken, pop_times, is_due-append, pop_due, pop_times_ok, fill_lem,
}

module _ (fetch : ℕ → Result Error Bytes) (tail now : ℕ) where
  -- mPop's first two loops: the due messages at the front, each popped.
  record Fronts (n : ℕ) (ms : List Message) (all : List Message) (l : Line) : Type 0 where
    got : List (ℕ × Bytes)
    room : ℕ
    counted : room + length got ≡ n
    found : expired fetch tail now n ms ≡ ok got
    popped : pop_times fetch tail now n (record l { inflight = all }) ≡ (
        let r =
          pop_times fetch tail now room
            (record l { inflight = rotate now l.recycle (length got) all }) in
        (got ++ r.0, r.1))
    over : 0 < room → is_due now (rotate now l.recycle (length got) all) ≡ false
    valid : IsValid tail (record l { inflight = rotate now l.recycle (length got) all })

  Fronts-stop :
      (n : ℕ) (ms all : List Message) (l : Line)
      → expired fetch tail now n ms ≡ ok []
      → (0 < n → is_due now all ≡ false)
      → IsValid tail (record l { inflight = all })
      → Fronts n ms all l
  unfolding rotate
  Fronts-stop n ms all l e h v = record {
    got = [];
    room = n;
    counted = omega arith;
    found = e;
    popped = refl;
    over = h;
    valid = v;
  }

  Fronts-go :
      (n : ℕ) (m : Message) (ms rest : List Message) (l : Line) (d : Bytes)
      → is_pos l.recycle ≡ true
      → is_after now m.exptime ≡ true
      → fetch m.tid ≡ ok d
      → Fronts n ms (to_back (exptime_at now l.recycle) m rest) l
      → Fronts (suc n) (m ∷ ms) (m ∷ rest) l
  unfolding rotate
  Fronts-go n m ms rest l d p due f r = record {
    got = (m.tid, d) ∷ r.got;
    room = r.room;
    counted = omega (arith, r.counted);
    found = unfold expired in rw (due, f) (rw (r.found) refl);
    popped =
        pop_times_ok fetch tail now n (record l { inflight = m ∷ rest }) _ (m.tid, d)
          (pop_due fetch tail now (record l { inflight = m ∷ rest }) m rest d p refl due f)
        ∙ ap (λ (t : Taken). ((m.tid, d) ∷ t.0, t.1)) r.popped;
    over = r.over;
    valid = r.valid;
  }

  Fronts-all :
      (n : ℕ) (ms back : List Message) (l : Line)
      → is_pos l.recycle ≡ true
      → now + pos_part l.recycle < i64_mod
      → is_due now back ≡ false
      → IsValid tail (record l { inflight = ms ++ back })
      → Readable fetch tail l
      → Fronts n ms (ms ++ back) l
  Fronts-all zero ms back l p fits nb v s =
      Fronts-stop 0 ms (ms ++ back) l (unfold expired in refl) (λ h. absurd (omega arith)) v
  Fronts-all (suc n) [] back l p fits nb v s =
      Fronts-stop (suc n) [] back l (unfold expired in refl) (λ _. nb) v
  Fronts-all (suc n) (m ∷ ms) back l p fits nb v s = elim (Bool-cases (is_after now m.exptime)) [
    | inr e ↦
        Fronts-stop (suc n) (m ∷ ms) (m ∷ ms ++ back) l (unfold expired in rw e refl) (λ _. e) v
    | inl e ↦
        let l' : Line = record l { inflight = m ∷ ms ++ back } in
        let range = v.in_range m.tid (front_in_flight m (ms ++ back) refl) in
        let stored = s m.tid (rw p range.0) (omega (arith, range.1, v.head_le)) in
        let m' : Message = record m { exptime = exptime_at now l.recycle } in
        let regroup = append_assoc ms back (m' ∷ []) in
        let valid =
          requeue-IsValid tail l' _ p (to_back-Requeued _ l' m (ms ++ back) refl v.distinct) v in
        Fronts-go n m ms (ms ++ back) l stored.0 p e stored.1 (
          subst (λ xs. Fronts n ms xs l) (sym regroup)
            (Fronts-all n ms (back ++ m' ∷ []) l p fits
              (is_due-append now back m' nb (exptime_at_early now now l.recycle fits (omega arith)))
              (subst (λ xs. IsValid tail (record l { inflight = xs })) regroup valid) s))
  ]

  -- The line after mPop's second loop.
  abbrev turned : List (ℕ × Bytes) → Line → Line
  turned got l = record l { inflight = rotate now l.recycle (length got) l.inflight }

  m_pop_full :
      (n : ℕ) (got : List (ℕ × Bytes)) (l : Line)
      → length got ≡ n
      → m_pop_from fetch tail now n l (ok got)
        ≡ (if n == 0 then (ok [], l) else finish [] (got ++ [], turned got l))
  unfolding m_pop_from rotate finish
  m_pop_full n [] l e = let e0 : n ≡ 0 = omega (arith, e) in rw e0 refl
  m_pop_full n (x ∷ xs) l e =
      let full : leb n (suc (length xs)) ≡ true = ground arith in
      let some_room : (n == 0) ≡ false = ground arith in rw (full, some_room, append-nil) refl

  m_pop_short :
      (n room : ℕ) (got : List (ℕ × Bytes)) (l : Line)
      → suc room + length got ≡ n
      → m_pop_from fetch tail now n l (ok got) ≡ (
          if n == 0
          then (ok [], l)
          else let r = fill fetch tail now (suc room) (turned got l) in finish [] (got ++ r.0, r.1))
  unfolding m_pop_from finish
  m_pop_short n room [] l e =
      let more : leb n 0 ≡ false = ground arith in
      let some_room : (n == 0) ≡ false = ground arith in
      let rest : n - 0 ≡ suc room = omega (arith, e) in rw (more, some_room, rest) refl
  m_pop_short n room (x ∷ xs) l e =
      let more : leb n (suc (length xs)) ≡ false = ground arith in
      let some_room : (n == 0) ≡ false = ground arith in
      let rest : n - suc (length xs) ≡ suc room = omega (arith, e) in
      rw (more, some_room, rest) refl

  m_pop_end :
      (n room : ℕ) (got : List (ℕ × Bytes)) (l : Line)
      → room + length got ≡ n
      → (0 < room
          → fill fetch tail now room (turned got l) ≡ pop_times fetch tail now room (turned got l))
      → m_pop_from fetch tail now n l (ok got) ≡ (
          if n == 0
          then (ok [], l)
          else let r = pop_times fetch tail now room (turned got l) in finish [] (got ++ r.0, r.1))
  m_pop_end n zero got l e f = unfold pop_times in m_pop_full n got l (omega (arith, e))
  m_pop_end n (suc k) got l e f = rw (← (f (omega arith))) (m_pop_short n k got l e)

  m_pop_recycling :
      (n : ℕ) (l : Line)
      → is_pos l.recycle ≡ true
      → Fronts n l.inflight l.inflight l
      → Readable fetch tail l
      → now + pos_part l.recycle < i64_mod
      → m_pop fetch tail now n l
        ≡ (if n == 0 then (ok [], l) else finish [] (pop_times fetch tail now n l))
  unfolding m_pop
  m_pop_recycling n l p r s fits =
      rw (p, r.found, r.popped)
        (m_pop_end n r.room r.got l r.counted
          (λ h. fill_lem fetch tail now r.room (turned r.got l) r.valid s fits (λ _. r.over h)))

-- If every message of a valid line can be read and `now + recycle` fits in the int64 of an expiry time,
-- mPop of `n` messages is `n` times pop at the same
-- instant, up to the first pop that finds no message: same messages in the same order, same line
-- after. It ends in ErrNone if there was none, but with an empty result for `n = 0` on a recycling
-- line.
pub m_pop-pop :
    (fetch : ℕ → Result Error Bytes) (now n : ℕ) {tail : ℕ} {l : Line}
    → IsValid tail l
    → Readable fetch tail l
    → now + pos_part l.recycle < i64_mod
    → m_pop fetch tail now n l ≡ (
        if is_pos l.recycle && (n == 0)
        then (ok [], l)
        else finish [] (pop_times fetch tail now n l))
m_pop-pop fetch now n {tail = tail} {l = l} v s fits = elim (Bool-cases (is_pos l.recycle)) [
  | inl p ↦ rw p (
      m_pop_recycling fetch tail now n l p
        (subst (λ xs. Fronts fetch tail now n l.inflight xs l) (append-nil l.inflight)
          (Fronts-all fetch tail now n l.inflight [] l p fits refl (rw (append-nil l.inflight) v)
            s))
        s fits)
  | inr q ↦ rw q (
      unfold m_pop in rw q (ap (finish []) (fill_lem fetch tail now n l v s fits (λ p. cc (p, q)))))
]
