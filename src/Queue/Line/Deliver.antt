-- ===== src/Queue/Line/Deliver.antt =====
-- What a pop means for the messages of a line: validity, no loss, and delivery.
use uq.Prelude.{
  if◌then◌else◌, ℕ, ◌≤◌, ◌<◌, ◌≡◌, refl, ap, ◌∙◌, ◌⊎◌, inl, inr, List, ◌∷◌, Bool, true, ◌||◌, ◌&&◌,
  arith, ltb, is_pos, Bytes, Bool-cases,
}
use uq.Utils.Errors.{Result, ok, Error}
use uq.Queue.Line.{exptime_at, Line, Message, pop}
use uq.Queue.Line.Valid.{in_flight, IsValid, in_flight_self}
use uq.Queue.Line.Flight.{
  requeue-IsValid, sent, sent_fields, sent_in_flight, sent_idle, sent-IsValid,
}
use uq.Queue.Line.Pop.{
  Pops, again, unreadable, next, lost, blank, pop-Pops, is_due, to_back, to_back-Requeued,
  renewed-Requeued,
}

module _ {fetch : ℕ → Result Error Bytes} {tail now : ℕ} {l : Line} (v : IsValid tail l) where
  Pops-IsValid : {r : Result Error (ℕ × Bytes) × Line} → Pops fetch tail now l r → IsValid tail r.1
  Pops-IsValid (again m rest d p e h f) =
      requeue-IsValid tail l _ p (to_back-Requeued _ l m rest e v.distinct) v
  Pops-IsValid (unreadable m rest x p e h f) =
      requeue-IsValid tail l _ p (renewed-Requeued _ l m rest e v.distinct) v
  Pops-IsValid (next d n h f) = sent-IsValid now l v h
  Pops-IsValid (lost x n h f) = v
  Pops-IsValid (blank n h) = v

-- A valid line stays valid under pop, errors included.
pub pop-IsValid :
    (fetch : ℕ → Result Error Bytes) (now : ℕ) {tail : ℕ} {l : Line}
    → IsValid tail l
    → IsValid tail (pop fetch tail now l).1
pop-IsValid fetch now {tail = tail} {l = l} v = Pops-IsValid v (pop-Pops fetch tail now l)

-- `id` was handed out with the bytes `d`, and `l` became `l'`.
pub record Handed (fetch : ℕ → Result Error Bytes) (tail id : ℕ) (d : Bytes) (l l' : Line)
    : Type 0 where
  pub read : fetch id ≡ ok d
  pub within : (l.ihead ≤ id) × (id < tail)
  pub source : (in_flight id l.inflight ≡ true) ⊎ (id ≡ l.head)
  pub kept : (i : ℕ) → in_flight i l.inflight ≡ true → in_flight i l'.inflight ≡ true
  pub guarded : is_pos l.recycle ≡ true → in_flight id l'.inflight ≡ true
  pub same_ihead : l'.ihead ≡ l.ihead

pub front_in_flight :
    {ms : List Message} (m : Message) (rest : List Message)
    → ms ≡ m ∷ rest
    → in_flight m.tid ms ≡ true
front_in_flight m rest e = rw e (in_flight_self m rest)

module _ {fetch : ℕ → Result Error Bytes} {tail : ℕ} (now : ℕ) {l : Line} (v : IsValid tail l) where
  again-Handed :
      (m : Message) (rest : List Message) (d : Bytes)
      → l.inflight ≡ m ∷ rest
      → fetch m.tid ≡ ok d
      → Handed fetch tail m.tid d l
          (record l { inflight = to_back (exptime_at now l.recycle) m rest })
  again-Handed m rest d e f =
      let q = to_back-Requeued (exptime_at now l.recycle) l m rest e v.distinct in
      let out = front_in_flight m rest e in
      record {
        read = f;
        within = omega (arith, v.in_range m.tid out, v.head_le);
        source = inl out;
        kept = λ i o. q.same i ∙ o;
        guarded = λ p. q.same m.tid ∙ out;
        same_ihead = refl;
      }

  next-Handed :
      (d : Bytes) → l.head < tail → fetch l.head ≡ ok d → Handed fetch tail l.head d l (sent now l)
  next-Handed d h f = record {
    read = f;
    within = (v.ihead_le, h);
    source = inr refl;
    kept = λ i o. elim (Bool-cases (is_pos l.recycle)) [
      | inl p ↦ ground (arith, sent_in_flight now l i p)
      | inr n ↦ ap (in_flight i) (sent_idle now l n) ∙ o
    ];
    guarded = λ p. ground (arith, sent_in_flight now l l.head p);
    same_ihead = (sent_fields now l).1;
  }

  Pops-Handed :
      {r : Result Error (ℕ × Bytes) × Line}
      → Pops fetch tail now l r
      → (id : ℕ) (d : Bytes) → r.0 ≡ ok (id, d)
      → Handed fetch tail id d l r.1
  Pops-Handed (again m rest c p e h f) id d q =
      let same_id : m.tid ≡ id = cc in
      let same_data : c ≡ d = cc in rw (← same_id, ← same_data) (again-Handed m rest c e f)
  Pops-Handed (unreadable m rest x p e h f) id d q = cc
  Pops-Handed (next c n h f) id d q =
      let same_id : l.head ≡ id = cc in
      let same_data : c ≡ d = cc in rw (← same_id, ← same_data) (next-Handed c h f)
  Pops-Handed (lost x n h f) id d q = cc
  Pops-Handed (blank n h) id d q = cc

-- When pop on a valid line returns message `id` with the bytes `d`, then `d` is what is stored for
-- `id`; `id` lies between `ihead` and the tail, and was in flight or the next to read; no message
-- leaves the messages in flight; on a recycling line `id` is among them; and `ihead` does not move.
pub pop_hands_out :
    (fetch : ℕ → Result Error Bytes) (now : ℕ) {tail : ℕ} {l : Line}
    → IsValid tail l
    → (id : ℕ) (d : Bytes) → (pop fetch tail now l).0 ≡ ok (id, d)
    → Handed fetch tail id d l (pop fetch tail now l).1
pop_hands_out fetch now {tail = tail} {l = l} v = Pops-Handed now v (pop-Pops fetch tail now l)

-- The lowest id that the line may still hand out.
abbrev pub oldest : Line → ℕ
oldest l = if is_pos l.recycle then l.ihead else l.head

-- Every message that the line may still hand out can be read.
abbrev pub Readable : (ℕ → Result Error Bytes) → ℕ → Line → Type 0
Readable fetch tail l = (i : ℕ) → oldest l ≤ i → i < tail → (d : Bytes) × (fetch i ≡ ok d)

-- Is there something to hand out?
abbrev pub is_ready : ℕ → ℕ → Line → Bool
is_ready tail now l = (is_pos l.recycle && is_due now l.inflight) || ltb l.head tail

pub oldest-le-head : {tail : ℕ} (l : Line) → IsValid tail l → oldest l ≤ l.head
oldest-le-head l v = ground (arith, v.ihead_le)

module _ {fetch : ℕ → Result Error Bytes} {tail : ℕ} (now : ℕ) {l : Line} (v : IsValid tail l) where
  Pops-ready :
      {r : Result Error (ℕ × Bytes) × Line}
      → Pops fetch tail now l r
      → Readable fetch tail l
      → is_ready tail now l ≡ true
      → (id : ℕ) × (d : Bytes) × (r.0 ≡ ok (id, d))
  Pops-ready (again m rest c p e h f) s y = (m.tid, c, refl)
  Pops-ready (unreadable m rest x p e h f) s y =
      let range = v.in_range m.tid (front_in_flight m rest e) in
      let stored = s m.tid (rw p range.0) (omega (arith, range.1, v.head_le)) in
      absurd (cc (stored.1, f))
  Pops-ready (next c n h f) s y = (l.head, c, refl)
  Pops-ready (lost x n h f) s y =
      let stored = s l.head (oldest-le-head l v) h in absurd (cc (stored.1, f))
  Pops-ready (blank n h) s y = absurd (ground (arith))

-- If every message of a valid line can be read, pop returns a message whenever one is due or the
-- topic has a next one.
pub pop_ready :
    (fetch : ℕ → Result Error Bytes) (now : ℕ) {tail : ℕ} {l : Line}
    → IsValid tail l
    → Readable fetch tail l
    → is_ready tail now l ≡ true
    → (id : ℕ) × (d : Bytes) × ((pop fetch tail now l).0 ≡ ok (id, d))
pop_ready fetch now {tail = tail} {l = l} v s y = Pops-ready now v (pop-Pops fetch tail now l) s y
