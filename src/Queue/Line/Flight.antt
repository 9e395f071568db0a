-- ===== src/Queue/Line/Flight.antt =====
-- The two ways in which pop and mPop touch the messages in flight: a new one at the end, and the same
-- ones in another order and with other times.
use uq.Prelude.{
  ℕ, suc, ◌≤◌, ◌<◌, ◌≡◌, sym, ◌∙◌, inl, inr, List, [], ◌∷◌, true, false, ◌||◌, arith, ◌==◌, is_pos,
  inc64, Bool-cases, false,
}
use uq.Queue.Line.{exptime_at, Line, Message, flight}
use uq.Queue.Line.Valid.{in_flight, Distinct, Tracked, IsValid, in_flight-append, Distinct-append}

-- `ms` holds the messages of `l`, each once, with other times and in another order.
pub record Requeued (l : Line) (ms : List Message) : Type 0 where
  pub same : (i : ℕ) → in_flight i ms ≡ in_flight i l.inflight
  pub distinct : Distinct ms

pub requeue-IsValid :
    (tail : ℕ) (l : Line) (ms : List Message)
    → is_pos l.recycle ≡ true
    → Requeued l ms
    → IsValid tail l
    → IsValid tail (record l { inflight = ms })
requeue-IsValid tail l ms p q v = record {
  ihead_le = v.ihead_le;
  head_le = v.head_le;
  tail_lt = v.tail_lt;
  idle = λ n. cc (p, n);
  in_range = λ i o. v.in_range i (sym (q.same i) ∙ o);
  distinct = q.distinct;
  tracked = λ _ i. rw (q.same i) (v.tracked p i);
}

-- The line with message `head` handed out.
abbrev pub sent : ℕ → Line → Line
sent now l = flight now l.head (record l { head = inc64 l.head })

pub sent_fields :
    (now : ℕ) (l : Line)
    → ((sent now l).head ≡ inc64 l.head)
      × ((sent now l).ihead ≡ l.ihead)
      × ((sent now l).recycle ≡ l.recycle)
unfolding flight
sent_fields now l = ground arith

-- On a recycling line the message is now in flight, and nothing else changes there.
pub sent_in_flight :
    (now : ℕ) (l : Line) (i : ℕ)
    → is_pos l.recycle ≡ true
    → in_flight i (sent now l).inflight ≡ ((i == l.head) || in_flight i l.inflight)
unfolding flight
sent_in_flight now l i p =
    let m : Message = record { tid = l.head; exptime = exptime_at now l.recycle } in
    ground (arith, in_flight-append i l.inflight (m ∷ []))

head_free : {tail : ℕ} (l : Line) → IsValid tail l → in_flight l.head l.inflight ≡ false
head_free l v = elim (Bool-cases (in_flight l.head l.inflight)) [
  | inl e ↦ absurd (omega (arith, (v.in_range l.head e).1))
  | inr e ↦ e
]

-- On a line that does not recycle nothing is in flight.
pub sent_idle : (now : ℕ) (l : Line) → is_pos l.recycle ≡ false → (sent now l).inflight ≡ l.inflight
unfolding flight
sent_idle now l n = ground arith

module _ {tail : ℕ} (now : ℕ) (l : Line) (v : IsValid tail l) (h : l.head < tail) where
  sent-Distinct : Distinct (sent now l).inflight
  unfolding flight
  sent-Distinct = elim (Bool-cases (is_pos l.recycle)) [
    | inl p ↦ rw p (Distinct-append _ l.inflight (head_free l v) v.distinct)
    | inr n ↦ rw n v.distinct
  ]

  sent-Tracked : is_pos l.recycle ≡ true → Tracked (sent now l)
  unfolding flight
  sent-Tracked p i =
      let m : Message = record { tid = l.head; exptime = exptime_at now l.recycle } in
      ground (
        arith,
        v.tracked p i,
        v.ihead_le,
        v.head_le,
        v.tail_lt,
        in_flight-append i l.inflight (m ∷ []),
      )

  sent_in_range :
      (i : ℕ) → in_flight i (sent now l).inflight ≡ true → (l.ihead ≤ i) × (i < suc l.head)
  sent_in_range i o = elim (Bool-cases (is_pos l.recycle)) [
    | inl p ↦ ground (arith, sent_in_flight now l i p, v.in_range i, v.ihead_le)
    | inr n ↦ cc (v.idle n, sent_idle now l n)
  ]

  -- A valid line that hands out its next message stays valid.
  pub sent-IsValid : IsValid tail (sent now l)
  sent-IsValid = record {
    ihead_le = ground (arith, sent_fields now l, v.ihead_le, v.head_le, v.tail_lt);
    head_le = ground (arith, sent_fields now l, v.head_le, v.tail_lt);
    tail_lt = v.tail_lt;
    idle = λ n.
        let n' : is_pos l.recycle ≡ false = rw (← ((sent_fields now l).2)) n in
        sent_idle now l n' ∙ v.idle n';
    in_range = λ i o. ground (arith, sent_fields now l, sent_in_range i o, v.head_le, v.tail_lt);
    distinct = sent-Distinct;
    tracked = λ p. sent-Tracked (rw (← ((sent_fields now l).2)) p);
  }
