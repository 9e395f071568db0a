-- ===== src/Queue/Line/Onward.antt =====
-- A line only moves forward: pop, mPop and confirm never take `head` or `ihead` back.
use uq.Prelude.{
  ℕ, zero, suc, ◌-◌, ◌≤◌, ◌<◌, ◌≡◌, refl, inl, inr, List, [], true, arith, leb, is_pos, Bytes,
  Bool-cases, length,
}
use uq.Utils.Errors.{Result, ok, err, Error, Result-cases}
use uq.Queue.Line.{Line, pop, rotate, fill, m_pop_from, m_pop, confirm}
use uq.Queue.Line.Valid.{in_flight, IsValid}
use uq.Queue.Line.Flight.{sent, sent_fields, sent-IsValid}
use uq.Queue.Line.Pop.{Pops, again, unreadable, next, lost, blank, pop-Pops}
use uq.Queue.Line.Confirm.{confirm_delivered, confirm_refuses, confirm-same_recycle}
use uq.Queue.Line.MultiValid.{finish_line, rotated-IsValid}

pub record Onward (l l' : Line) : Type 0 where
  pub recycle : l'.recycle ≡ l.recycle
  pub ihead : l.ihead ≤ l'.ihead
  pub head : l.head ≤ l'.head

Onward-refl : (l : Line) → Onward l l
Onward-refl l = record { recycle = refl; ihead = omega arith; head = omega arith }

Onward-trans : {l m n : Line} → Onward l m → Onward m n → Onward l n
Onward-trans a b = record {
  recycle = cc (a.recycle, b.recycle);
  ihead = omega (arith, a.ihead, b.ihead);
  head = omega (arith, a.head, b.head);
}

sent-Onward :
    {tail : ℕ} (now : ℕ) (l : Line) → IsValid tail l → l.head < tail → Onward l (sent now l)
sent-Onward now l v h = record {
  recycle = (sent_fields now l).2;
  ihead = omega (arith, sent_fields now l);
  head = ground (arith, sent_fields now l, v.tail_lt);
}

module _ (fetch : ℕ → Result Error Bytes) {tail : ℕ} (now : ℕ) {l : Line} (v : IsValid tail l) where
  Pops-Onward : {r : Result Error (ℕ × Bytes) × Line} → Pops fetch tail now l r → Onward l r.1
  Pops-Onward (again m rest d p e h f) = record {
    recycle = refl;
    ihead = omega arith;
    head = omega arith;
  }
  Pops-Onward (unreadable m rest x p e h f) = record {
    recycle = refl;
    ihead = omega arith;
    head = omega arith;
  }
  Pops-Onward (next d n h f) = sent-Onward now l v h
  Pops-Onward (lost x n h f) = Onward-refl l
  Pops-Onward (blank n h) = Onward-refl l

  pub pop-Onward : Onward l (pop fetch tail now l).1
  pop-Onward = Pops-Onward (pop-Pops fetch tail now l)

fill-Onward :
    (fetch : ℕ → Result Error Bytes) (tail now n : ℕ) (l : Line)
    → IsValid tail l
    → Onward l (fill fetch tail now n l).1
unfolding fill
fill-Onward fetch tail now zero l v = Onward-refl l
fill-Onward fetch tail now (suc n) l v = elim (Bool-cases (leb tail l.head)) [
  | inl e ↦ rw (e, fill) (Onward-refl l)
  | inr e ↦
      let h : l.head < tail = ground arith in
      let rest = fill-Onward fetch tail now n (sent now l) (sent-IsValid now l v h) in
      elim (Result-cases (fetch l.head)) [
        | inl (d, f) ↦ rw (e, fill) (rw f (Onward-trans (sent-Onward now l v h) rest))
        | inr (x, f) ↦ rw (e, fill) (rw f (Onward-refl l))
      ]
]

-- The validity of the line after mPop's second loop is needed to go on from there.
m_pop_from-Onward :
    (fetch : ℕ → Result Error Bytes) (tail now n : ℕ) (l : Line)
    (r : Result Error (List (ℕ × Bytes)))
    → is_pos l.recycle ≡ true
    → IsValid tail l
    → Onward l (m_pop_from fetch tail now n l r).1
unfolding m_pop_from
m_pop_from-Onward fetch tail now n l (err e) p v = Onward-refl l
m_pop_from-Onward fetch tail now n l (ok got) p v =
    let l' : Line = record l { inflight = rotate now l.recycle (length got) l.inflight } in
    let same : Onward l l' = record { recycle = refl; ihead = omega arith; head = omega arith } in
    elim (Bool-cases (leb n (length got))) [
      | inl e ↦ rw e same
      | inr e ↦ rw e (
          rw (finish_line fetch tail now got (fill fetch tail now (n - length got) l')) (
            Onward-trans same (
              fill-Onward fetch tail now (n - length got) l'
                (rotated-IsValid now (length got) l p v))))
    ]

pub m_pop-Onward :
    (fetch : ℕ → Result Error Bytes) (now n : ℕ) {tail : ℕ} {l : Line}
    → IsValid tail l
    → Onward l (m_pop fetch tail now n l).1
unfolding m_pop
m_pop-Onward fetch now n {tail = tail} {l = l} v = elim (Bool-cases (is_pos l.recycle)) [
  | inl p ↦ rw p (m_pop_from-Onward fetch tail now n l _ p v)
  | inr q ↦ rw q (
      rw (finish_line fetch tail now [] (fill fetch tail now n l))
        (fill-Onward fetch tail now n l v))
]

pub confirm-Onward : (id : ℕ) {tail : ℕ} {l : Line} → IsValid tail l → Onward l (confirm id l).1
confirm-Onward id {l = l} v = elim (Bool-cases (in_flight id l.inflight)) [
  | inr gone ↦ rw (confirm_refuses id l gone) (Onward-refl l)
  | inl out ↦
      let c = (confirm_delivered id v out).1 in
      record {
        recycle = confirm-same_recycle id v;
        ihead = c.forward;
        head = omega (arith, c.same_head);
      }
]
