-- ===== src/Queue/Line/MultiValid.antt =====
-- mPop keeps a valid line valid, also where a message cannot be read.
use uq.Prelude.{
  ℕ, zero, suc, ◌-◌, ◌≡◌, refl, inl, inr, List, [], ◌∷◌, ◌++◌, true, arith, leb, is_pos, Bytes,
  Bool-cases, ℤ, length,
}
use uq.Utils.Errors.{Result, ok, err, Error, Result-cases}
use uq.Queue.Line.{exptime_at, Line, Message, rotate, fill, finish, m_pop_from, m_pop}
use uq.Queue.Line.Valid.{in_flight, Distinct, IsValid, in_flight-append, Distinct-append}
use uq.Queue.Line.Flight.{requeue-IsValid, sent, sent-IsValid}

rotate_same :
    (now : ℕ) (recycle : ℤ) (k : ℕ) (ms : List Message) (i : ℕ)
    → in_flight i (rotate now recycle k ms) ≡ in_flight i ms
unfolding rotate
rotate_same now recycle zero ms i = refl
rotate_same now recycle (suc k) [] i = refl
rotate_same now recycle (suc k) (m ∷ ms) i =
    let m' : Message = record m { exptime = exptime_at now recycle } in
    ground (arith, rotate_same now recycle k (ms ++ m' ∷ []) i, in_flight-append i ms (m' ∷ []))

rotate-Distinct :
    (now : ℕ) (recycle : ℤ) (k : ℕ) (ms : List Message)
    → Distinct ms
    → Distinct (rotate now recycle k ms)
unfolding rotate
rotate-Distinct now recycle zero ms d = d
rotate-Distinct now recycle (suc k) [] d = d
rotate-Distinct now recycle (suc k) (m ∷ ms) d =
    let m' : Message = record m { exptime = exptime_at now recycle } in
    rotate-Distinct now recycle k (ms ++ m' ∷ []) (Distinct-append m' ms d.0 d.1)

pub rotated-IsValid :
    {tail : ℕ} (now k : ℕ) (l : Line)
    → is_pos l.recycle ≡ true
    → IsValid tail l
    → IsValid tail (record l { inflight = rotate now l.recycle k l.inflight })
rotated-IsValid now k l p v =
    requeue-IsValid _ l _ p
      (record {
        same = rotate_same now l.recycle k l.inflight;
        distinct = rotate-Distinct now l.recycle k l.inflight v.distinct;
      })
      v

module _ (fetch : ℕ → Result Error Bytes) (tail now : ℕ) where
  fill-IsValid : (n : ℕ) (l : Line) → IsValid tail l → IsValid tail (fill fetch tail now n l).1
  unfolding fill
  fill-IsValid zero l v = v
  fill-IsValid (suc n) l v = elim (Bool-cases (leb tail l.head)) [
    | inl e ↦ rw (e, fill) v
    | inr e ↦
        let rest = fill-IsValid n (sent now l) (sent-IsValid now l v (ground arith)) in
        elim (Result-cases (fetch l.head)) [
          | inl (d, f) ↦ rw (e, fill) (rw f rest)
          | inr (x, f) ↦ rw (e, fill) (rw f v)
        ]
  ]

  pub finish_line : (got : List (ℕ × Bytes)) (r : List (ℕ × Bytes) × Line) → (finish got r).1 ≡ r.1
  unfolding finish
  finish_line [] ([], l) = refl
  finish_line [] (x ∷ xs, l) = refl
  finish_line (x ∷ xs) (ys, l) = refl

  m_pop_from-IsValid :
      (n : ℕ) (l : Line) (r : Result Error (List (ℕ × Bytes)))
      → is_pos l.recycle ≡ true
      → IsValid tail l
      → IsValid tail (m_pop_from fetch tail now n l r).1
  unfolding m_pop_from
  m_pop_from-IsValid n l (err e) p v = v
  m_pop_from-IsValid n l (ok got) p v =
      let l' : Line = record l { inflight = rotate now l.recycle (length got) l.inflight } in
      let v' = rotated-IsValid now (length got) l p v in
      elim (Bool-cases (leb n (length got))) [
        | inl e ↦ rw e v'
        | inr e ↦ rw e (
            rw (finish_line got (fill fetch tail now (n - length got) l'))
              (fill-IsValid (n - length got) l' v'))
      ]

-- A valid line stays valid under mPop, errors included.
pub m_pop-IsValid :
    (fetch : ℕ → Result Error Bytes) (now n : ℕ) {tail : ℕ} {l : Line}
    → IsValid tail l
    → IsValid tail (m_pop fetch tail now n l).1
unfolding m_pop
m_pop-IsValid fetch now n {tail = tail} {l = l} v = elim (Bool-cases (is_pos l.recycle)) [
  | inl p ↦ rw p (m_pop_from-IsValid fetch tail now n l _ p v)
  | inr q ↦ rw q (
      rw (finish_line fetch tail now [] (fill fetch tail now n l))
        (fill-IsValid fetch tail now n l v))
]
