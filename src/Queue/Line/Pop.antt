-- ===== src/Queue/Line/Pop.antt =====
-- pop: the message at the front whose time is over, or else the next one of the topic.
use uq.Prelude.{
  ℕ, ◌≤◌, ◌<◌, ◌≡◌, refl, inl, inr, List, [], ◌∷◌, ◌++◌, Bool, true, false, arith, leb, is_pos,
  Bytes, codes, Bool-cases,
}
use uq.Utils.Errors.{Result, ok, err, Error, new_error, err_none}
use uq.Queue.Line.{
  exptime_at, is_after, Line, Message, pop, pop_head, pop_front, redeliver, deliver,
}
use uq.Queue.Line.Valid.{Distinct, in_flight-append, Distinct-append}
use uq.Queue.Line.Flight.{Requeued, sent}

-- Is there a message in flight whose time is over? The first one decides.
abbrev pub is_due : ℕ → List Message → Bool
is_due now [] = false
is_due now (m ∷ rest) = is_after now m.exptime

-- The message at the front, with a new time, at the end.
abbrev pub to_back : ℕ → Message → List Message → List Message
to_back t m rest = rest ++ (record m { exptime = t }) ∷ []

pub to_back-Requeued :
    (t : ℕ) (l : Line) (m : Message) (rest : List Message)
    → l.inflight ≡ m ∷ rest
    → Distinct l.inflight
    → Requeued l (to_back t m rest)
to_back-Requeued t l m rest e d =
    let m' : Message = record m { exptime = t } in
    let d' : Distinct (m ∷ rest) = rw e at d in
    record {
      same = λ i. rw e (ground (arith, in_flight-append i rest (m' ∷ [])));
      distinct = Distinct-append m' rest d'.0 d'.1;
    }

pub renewed-Requeued :
    (t : ℕ) (l : Line) (m : Message) (rest : List Message)
    → l.inflight ≡ m ∷ rest
    → Distinct l.inflight
    → Requeued l ((record m { exptime = t }) ∷ rest)
renewed-Requeued t l m rest e d = record { same = λ i. rw e; distinct = rw e at d }

-- What pop does, told apart by where the message comes from.
pub data Pops (fetch : ℕ → Result Error Bytes) (tail now : ℕ) (l : Line)
    : Result Error (ℕ × Bytes) × Line → Type 0 where
  -- The front message is due and read: it goes to the back with a new time.
  again :
      (m : Message) (rest : List Message) (d : Bytes)
      → is_pos l.recycle ≡ true
      → l.inflight ≡ m ∷ rest
      → is_after now m.exptime ≡ true
      → fetch m.tid ≡ ok d
      → Pops fetch tail now l
          (ok (m.tid, d), record l { inflight = to_back (exptime_at now l.recycle) m rest })
  -- The front message is due and cannot be read: it stays in front, with a new time.
  unreadable :
      (m : Message) (rest : List Message) (e : Error)
      → is_pos l.recycle ≡ true
      → l.inflight ≡ m ∷ rest
      → is_after now m.exptime ≡ true
      → fetch m.tid ≡ err e
      → Pops fetch tail now l
          (err e, record l { inflight = (record m { exptime = exptime_at now l.recycle }) ∷ rest })
  -- Nothing is due, and the topic has a next message.
  next :
      (d : Bytes)
      → (is_pos l.recycle ≡ true → is_due now l.inflight ≡ false)
      → l.head < tail
      → fetch l.head ≡ ok d
      → Pops fetch tail now l (ok (l.head, d), sent now l)
  -- Nothing is due, and the next message cannot be read.
  lost :
      (e : Error)
      → (is_pos l.recycle ≡ true → is_due now l.inflight ≡ false)
      → l.head < tail
      → fetch l.head ≡ err e
      → Pops fetch tail now l (err e, l)
  -- Nothing is due, and the line has read the whole topic.
  blank :
      (is_pos l.recycle ≡ true → is_due now l.inflight ≡ false)
      → tail ≤ l.head
      → Pops fetch tail now l (err (new_error err_none (codes "line pop")), l)

module _ (fetch : ℕ → Result Error Bytes) (tail now : ℕ) (l : Line) where
  deliver-Pops :
      (r : Result Error Bytes)
      → fetch l.head ≡ r
      → (is_pos l.recycle ≡ true → is_due now l.inflight ≡ false)
      → l.head < tail
      → Pops fetch tail now l (deliver fetch tail now l r)
  unfolding deliver
  deliver-Pops (ok d) e n h = next d n h e
  deliver-Pops (err x) e n h = lost x n h e

  pop_head-Pops :
      (is_pos l.recycle ≡ true → is_due now l.inflight ≡ false)
      → Pops fetch tail now l (pop_head fetch tail now l)
  unfolding pop_head
  pop_head-Pops n = elim (Bool-cases (leb tail l.head)) [
    | inl e ↦ rw e (blank n (ground arith))
    | inr e ↦ rw e (deliver-Pops _ refl n (ground arith))
  ]

  redeliver-Pops :
      (m : Message) (rest : List Message) (r : Result Error Bytes)
      → is_pos l.recycle ≡ true
      → l.inflight ≡ m ∷ rest
      → is_after now m.exptime ≡ true
      → fetch m.tid ≡ r
      → Pops fetch tail now l (redeliver fetch tail now l m rest r)
  unfolding redeliver
  redeliver-Pops m rest (ok d) p e h f = again m rest d p e h f
  redeliver-Pops m rest (err x) p e h f = unreadable m rest x p e h f

  pop_front-Pops :
      (ms : List Message)
      → is_pos l.recycle ≡ true
      → l.inflight ≡ ms
      → Pops fetch tail now l (pop_front fetch tail now l ms)
  unfolding pop_front
  pop_front-Pops [] p e = pop_head-Pops (λ _. rw e refl)
  pop_front-Pops (m ∷ rest) p e = elim (Bool-cases (is_after now m.exptime)) [
    | inl due ↦ rw due (redeliver-Pops m rest _ p e (ground arith) refl)
    | inr early ↦ rw early (pop_head-Pops (λ _. rw e early))
  ]

  -- pop does one of five things, each under the conditions of its case and with the result and the
  -- line of that case: the due front message again, the due front message that cannot be read, the
  -- next message of the topic, a next message that cannot be read, and no message.
  pub pop-Pops : Pops fetch tail now l (pop fetch tail now l)
  unfolding pop
  pop-Pops = elim (Bool-cases (is_pos l.recycle)) [
    | inl p ↦ rw p (pop_front-Pops l.inflight p refl)
    | inr n ↦ rw n (pop_head-Pops (λ p. cc (p, n)))
  ]
