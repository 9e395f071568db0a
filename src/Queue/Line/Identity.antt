-- ===== src/Queue/Line/Identity.antt =====
-- queue/uLine.go: pop, mPop and confirm leave the name of a line, its recycle time and its recycle key
-- as they are.
use uq.Prelude.{
  ℕ, zero, suc, ◌-◌, ◌≡◌, refl, ◌∙◌, inl, inr, Bytes, List, [], ◌∷◌, ltb, leb, is_pos, is_zero,
  Bool-cases, length, Option, some, none, true, false, Option-cases, inc64, drop_key, put,
}
use uq.Utils.Errors.{Result, ok, err, Error, Result-cases}
use uq.Queue.Line.{
  is_after, Line, Message, advance, update_ihead, flight, rotate, finish, deliver, pop_head,
  redeliver, pop_front, pop, fill, m_pop_from, m_pop, confirm, confirm_found, remove_tid, expired,
}

abbrev pub SameIdentity : Line → Line → Type 0
SameIdentity l l' = (l'.name ≡ l.name) × (l'.recycle ≡ l.recycle) × (l'.recycle_key ≡ l.recycle_key)

SameIdentity-trans : (a b c : Line) → SameIdentity a b → SameIdentity b c → SameIdentity a c
SameIdentity-trans a b c (n, r, k) (n', r', k') = (n' ∙ n, r' ∙ r, k' ∙ k)

flight-SameIdentity : (now id : ℕ) (l : Line) → SameIdentity l (flight now id l)
unfolding flight
flight-SameIdentity now id l = elim (Bool-cases (is_pos l.recycle)) [
  | inl p ↦ rw p (refl, refl, refl)
  | inr p ↦ rw p (refl, refl, refl)
]

module _ (fetch : ℕ → Result Error Bytes) (tail now : ℕ) where
  pop_head-SameIdentity : (l : Line) → SameIdentity l (pop_head fetch tail now l).1
  unfolding pop_head deliver
  pop_head-SameIdentity l = elim (Bool-cases (leb tail l.head)) [
    | inl e ↦ rw e (refl, refl, refl)
    | inr e ↦ elim (Result-cases (fetch l.head)) [
      | inl (d, f) ↦
          rw e (rw (f, deliver) (flight-SameIdentity now l.head (record l { head = inc64 l.head })))
      | inr (x, f) ↦ rw e (rw (f, deliver) (refl, refl, refl))
    ]
  ]

  pop_front-SameIdentity :
      (l : Line) (ms : List Message) → SameIdentity l (pop_front fetch tail now l ms).1
  unfolding pop_front redeliver
  pop_front-SameIdentity l [] = pop_head-SameIdentity l
  pop_front-SameIdentity l (m ∷ rest) = elim (Bool-cases (is_after now m.exptime)) [
    | inr e ↦ rw e (pop_head-SameIdentity l)
    | inl e ↦ elim (Result-cases (fetch m.tid)) [
      | inl (d, f) ↦ rw e (rw (f, redeliver) (refl, refl, refl))
      | inr (x, f) ↦ rw e (rw (f, redeliver) (refl, refl, refl))
    ]
  ]

  pub pop-SameIdentity : (l : Line) → SameIdentity l (pop fetch tail now l).1
  unfolding pop
  pop-SameIdentity l = elim (Bool-cases (is_pos l.recycle)) [
    | inl p ↦ rw p (pop_front-SameIdentity l l.inflight)
    | inr p ↦ rw p (pop_head-SameIdentity l)
  ]

  fill-SameIdentity : (n : ℕ) (l : Line) → SameIdentity l (fill fetch tail now n l).1
  unfolding fill
  fill-SameIdentity zero l = (refl, refl, refl)
  fill-SameIdentity (suc n) l =
      let l₁ : Line = record l { head = inc64 l.head } in
      elim (Bool-cases (leb tail l.head)) [
        | inl e ↦ rw (e, fill) (refl, refl, refl)
        | inr e ↦ elim (Result-cases (fetch l.head)) [
          | inr (x, f) ↦ rw (e, fill) (rw f (refl, refl, refl))
          | inl (d, f) ↦
              rw (e, fill)
                (rw f (
                  SameIdentity-trans l (flight now l.head l₁)
                    (fill fetch tail now n (flight now l.head l₁)).1
                    (flight-SameIdentity now l.head l₁)
                    (fill-SameIdentity n (flight now l.head l₁))))
        ]
      ]

  finish-line : (got : List (ℕ × Bytes)) (p : List (ℕ × Bytes) × Line) → (finish got p).1 ≡ p.1
  unfolding finish
  finish-line [] ([], l) = refl
  finish-line [] (x ∷ xs, l) = refl
  finish-line (x ∷ xs) (ys, l) = refl

  m_pop_from-SameIdentity :
      (n : ℕ) (l : Line) (r : Result Error (List (ℕ × Bytes)))
      → SameIdentity l (m_pop_from fetch tail now n l r).1
  unfolding m_pop_from
  m_pop_from-SameIdentity n l (err e) = (refl, refl, refl)
  m_pop_from-SameIdentity n l (ok got) =
      let l' : Line = record l { inflight = rotate now l.recycle (length got) l.inflight } in
      elim (Bool-cases (leb n (length got))) [
        | inl e ↦ rw e (refl, refl, refl)
        | inr e ↦ rw e (
            rw (finish-line got (fill fetch tail now (n - length got) l'))
              (fill-SameIdentity (n - length got) l'))
      ]

  pub m_pop-SameIdentity : (n : ℕ) (l : Line) → SameIdentity l (m_pop fetch tail now n l).1
  unfolding m_pop
  m_pop-SameIdentity n l = elim (Bool-cases (is_pos l.recycle)) [
    | inl p ↦ rw p (m_pop_from-SameIdentity n l (expired fetch tail now n l.inflight))
    | inr p ↦ rw p (rw (finish-line [] (fill fetch tail now n l)) (fill-SameIdentity n l))
  ]

advance-SameIdentity : (fuel : ℕ) (l : Line) → SameIdentity l (advance fuel l)
unfolding advance
advance-SameIdentity zero l = (refl, refl, refl)
advance-SameIdentity (suc fuel) l = elim (Bool-cases (ltb l.ihead l.head)) [
  | inr e ↦ rw (e, advance) (refl, refl, refl)
  | inl e ↦ elim (Option-cases (l.imap l.ihead)) [
    | inl f ↦
        rw (e, advance) (rw f (advance-SameIdentity fuel (record l { ihead = inc64 l.ihead })))
    | inr (true, f) ↦ rw (e, advance) (rw f (refl, refl, refl))
    | inr (false, f) ↦
        rw (e, advance)
          (rw f (
            advance-SameIdentity fuel
              (record l { ihead = inc64 l.ihead; imap = drop_key l.ihead l.imap })))
  ]
]

confirm_found-SameIdentity :
    (id : ℕ) (l : Line) (o : Option (List Message)) → SameIdentity l (confirm_found id l o).1
unfolding confirm_found update_ihead
confirm_found-SameIdentity id l none = (refl, refl, refl)
confirm_found-SameIdentity id l (some rest) =
    advance-SameIdentity (l.head - l.ihead)
      (record l { inflight = rest; imap = put id false l.imap })

pub confirm-SameIdentity : (id : ℕ) (l : Line) → SameIdentity l (confirm id l).1
unfolding confirm
confirm-SameIdentity id l = elim (Bool-cases (is_zero l.recycle)) [
  | inl e ↦ rw e (refl, refl, refl)
  | inr e ↦ elim (Bool-cases (leb l.head id)) [
    | inl f ↦ rw e (rw f (refl, refl, refl))
    | inr f ↦ rw e (rw f (confirm_found-SameIdentity id l (remove_tid id l.inflight)))
  ]
]
