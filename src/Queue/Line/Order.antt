-- ===== src/Queue/Line/Order.antt =====
-- mPop on a line with no message due: the next messages of the topic, in their order.
use uq.Prelude.{
  ℕ, zero, suc, ◌+◌, ◌-◌, ◌≤◌, ◌<◌, ◌≡◌, refl, sym, ap, subst, ◌∙◌, inl, inr, Bytes, List, [], ◌∷◌,
  true, false, arith, leb, Bool-cases, is_pos, length,
}
use uq.Utils.Errors.{Result, ok, Error}
use uq.Queue.Line.{Line, Message, expired, rotate, fill, finish, m_pop, m_pop_from}
use uq.Queue.Line.Valid.{IsValid}
use uq.Queue.Line.Flight.{sent, sent_fields, sent-IsValid}
use uq.Queue.Line.Pop.{is_due}
use uq.Queue.Line.Times.{fill_ok, fill_blank}

-- The messages with their ids, from `id` on.
abbrev pub numbered : ℕ → List Bytes → List (ℕ × Bytes)
numbered id [] = []
numbered id (d ∷ ds) = (id, d) ∷ numbered (suc id) ds

module _ (fetch : ℕ → Result Error Bytes) (tail now : ℕ) where
  -- The messages from `id` on are `ds`.
  abbrev pub Holds : ℕ → List Bytes → Type 0
  Holds id [] = Unit {0}
  Holds id (d ∷ ds) = (fetch id ≡ ok d) × Holds (suc id) ds

  fill-numbered :
      (ds : List Bytes) (n : ℕ) (l : Line)
      → IsValid tail l
      → l.head + length ds ≡ tail
      → length ds ≤ n
      → Holds l.head ds
      → (fill fetch tail now n l).0 ≡ numbered l.head ds
  fill-numbered [] zero l v e h s = unfold fill in refl
  fill-numbered [] (suc n) l v e h s = ap (λ r. r.0) (fill_blank fetch tail now n l (ground arith))
  fill-numbered (d ∷ ds) zero l v e h s = absurd (omega (arith, h))
  fill-numbered (d ∷ ds) (suc n) l v e h (s, ss) =
      let next : (sent now l).head ≡ suc l.head = omega (arith, sent_fields now l, v.tail_lt, e) in
      let rest =
        fill-numbered ds n (sent now l) (sent-IsValid now l v (omega (arith, e)))
          (omega (arith, e, next)) (omega (arith, h)) (subst (λ i. Holds i ds) (sym next) ss) in
      ap (λ r. r.0) (fill_ok fetch tail now n l d (ground arith) s)
      ∙ ap (λ r. (l.head, d) ∷ r) (rest ∙ ap (λ i. numbered i ds) next)

  expired_none :
      (n : ℕ) (ms : List Message) → is_due now ms ≡ false → expired fetch tail now n ms ≡ ok []
  unfolding expired
  expired_none zero ms h = refl
  expired_none (suc n) [] h = refl
  expired_none (suc n) (m ∷ ms) h = rw h refl

  m_pop-fill :
      (n : ℕ) (l : Line)
      → 0 < n
      → (is_pos l.recycle ≡ true → is_due now l.inflight ≡ false)
      → m_pop fetch tail now n l ≡ finish [] (fill fetch tail now n l)
  unfolding m_pop
  m_pop-fill n l h due = elim (Bool-cases (is_pos l.recycle)) [
    | inr q ↦ rw q refl
    | inl p ↦
        let all : n - 0 ≡ n = omega arith in
        let more : leb n 0 ≡ false = ground arith in
        rw p (
          rw (expired_none n l.inflight (due p)) (
            unfold m_pop_from rotate in
            rw more (ap (λ k. finish [] (fill fetch tail now k l)) all)))
  ]

  finish-numbered :
      (id : ℕ) (ds : List Bytes) (r : List (ℕ × Bytes) × Line)
      → 0 < length ds
      → r.0 ≡ numbered id ds
      → (finish [] r).0 ≡ ok (numbered id ds)
  unfolding finish
  finish-numbered id [] r h e = absurd (omega (arith, h))
  finish-numbered id (d ∷ ds) ([], l) h e = absurd (cc e)
  finish-numbered id (d ∷ ds) (x ∷ xs, l) h e = ap ok e

  -- On a valid line with no message due, mPop hands out what follows its head, in order.
  pub m_pop-numbered :
      (ds : List Bytes) (n : ℕ) (l : Line)
      → IsValid tail l
      → l.head + length ds ≡ tail
      → 0 < length ds
      → length ds ≤ n
      → (is_pos l.recycle ≡ true → is_due now l.inflight ≡ false)
      → Holds l.head ds
      → (m_pop fetch tail now n l).0 ≡ ok (numbered l.head ds)
  m_pop-numbered ds n l v e any h due s =
      ap (λ r. r.0) (m_pop-fill n l (omega (arith, any, h)) due)
      ∙ finish-numbered l.head ds (fill fetch tail now n l) any (fill-numbered ds n l v e h s)
