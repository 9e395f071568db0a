-- ===== src/Queue/Line/Confirm.antt =====
-- confirm: a delivered message leaves the line for good.
use uq.Prelude.{
  ℕ, suc, ◌≤◌, ◌<◌, ◌≡◌, refl, sym, ap, ◌∙◌, ◌⊎◌, inl, inr, List, [], ◌∷◌, true, false, not, ◌&&◌,
  some, none, arith, ◌==◌, is_pos, is_zero, ℤ, pos, negsuc, put, Bool-cases, ==_iff, ==_refl,
  length,
}
use uq.Utils.Errors.{ok, err}
use uq.Queue.Line.{Line, Message, update_ihead, remove_tid, confirm, not_delivered}
use uq.Queue.Line.Valid.{in_flight, Distinct, Tracked, IsValid}
use uq.Queue.Line.Advance.{Advanced, update_ihead-Advanced}

-- `r` is `ms` without its message `id`.
pub record Removes (id : ℕ) (ms r : List Message) : Type 0 where
  pub others : (i : ℕ) → in_flight i r ≡ (not (i == id) && in_flight i ms)
  pub distinct : Distinct r
  pub shorter : length ms ≡ suc (length r)

remove_tid-none : (id : ℕ) (ms : List Message) → in_flight id ms ≡ false → remove_tid id ms ≡ none
unfolding remove_tid
remove_tid-none id [] h = refl
remove_tid-none id (m ∷ ms) h = ground (arith, remove_tid-none id ms)

Removes_others :
    (m : Message) (ms : List Message)
    → in_flight m.tid ms ≡ false
    → (i : ℕ) → in_flight i ms ≡ (not (i == m.tid) && in_flight i (m ∷ ms))
Removes_others m ms d i = elim (Bool-cases (i == m.tid)) [
  | inl e ↦ ground (arith, (==_iff i m.tid).0 e)
  | inr e ↦ ground arith
]

Removes-first :
    (id : ℕ) (m : Message) (ms : List Message)
    → (m.tid == id) ≡ true
    → Distinct (m ∷ ms)
    → Removes id (m ∷ ms) ms
Removes-first id m ms e d = record {
  others = λ i. rw (sym ((==_iff m.tid id).0 e)) (Removes_others m ms d.0 i);
  distinct = d.1;
  shorter = refl;
}

Removes-later :
    (id : ℕ) (m : Message) (ms r : List Message)
    → (m.tid == id) ≡ false
    → Distinct (m ∷ ms)
    → Removes id ms r
    → Removes id (m ∷ ms) (m ∷ r)
Removes-later id m ms r ne d h = record {
  others = λ i. ground (arith, h.others i);
  distinct = (ground (arith, h.others m.tid), h.distinct);
  shorter = ap suc h.shorter;
}

remove_tid-Removes :
    (id : ℕ) (ms : List Message)
    → in_flight id ms ≡ true
    → Distinct ms
    → (r : List Message) × (remove_tid id ms ≡ some r) × Removes id ms r
unfolding remove_tid
remove_tid-Removes id [] h d = absurd (cc)
remove_tid-Removes id (m ∷ ms) h d = elim (Bool-cases (m.tid == id)) [
  | inl e ↦ (ms, ground arith, Removes-first id m ms e d)
  | inr e ↦
      let (r, eq, rest) = remove_tid-Removes id ms (ground arith) d.1 in
      (m ∷ r, ground arith, Removes-later id m ms r e d rest)
]

-- The line right before updateiHead.
abbrev taken : ℕ → Line → List Message → Line
taken id l r = record l { inflight = r; imap = put id false l.imap }

taken-Tracked :
    (id : ℕ) (l : Line) (r : List Message)
    → l.ihead ≤ id
    → id < l.head
    → Tracked l
    → Removes id l.inflight r
    → Tracked (taken id l r)
taken-Tracked id l r lo hi t h i = ground (arith, t i, h.others i)

out-is_pos :
    (id : ℕ) {tail : ℕ} {l : Line}
    → IsValid tail l
    → in_flight id l.inflight ≡ true
    → is_pos l.recycle ≡ true
out-is_pos id {l = l} v h = elim (Bool-cases (is_pos l.recycle)) [
  | inl e ↦ e
  | inr e ↦ cc (v.idle e)
]

is_zero-is_pos : (d : ℤ) → is_pos d ≡ true → is_zero d ≡ false
is_zero-is_pos (pos n) h = ground arith
is_zero-is_pos (negsuc n) h = refl

confirm_accepts :
    (id : ℕ) (l : Line) (r : List Message)
    → is_pos l.recycle ≡ true
    → id < l.head
    → remove_tid id l.inflight ≡ some r
    → confirm id l ≡ (ok tt, update_ihead (taken id l r))
unfolding confirm
confirm_accepts id l r p h e = rw e (ground (arith, is_zero-is_pos l.recycle))

-- `l'` is `l` after message `id` is confirmed: it alone has left the messages in flight, and `ihead`
-- has moved over confirmed ids only, up to `head` or the first id that is still in flight.
pub record Confirmed (id : ℕ) (l l' : Line) : Type 0 where
  pub others : (i : ℕ) → in_flight i l'.inflight ≡ (not (i == id) && in_flight i l.inflight)
  pub shorter : length l.inflight ≡ suc (length l'.inflight)
  pub same_head : l'.head ≡ l.head
  pub forward : l.ihead ≤ l'.ihead
  pub passed : (i : ℕ) → l.ihead ≤ i → i < l'.ihead → in_flight i l'.inflight ≡ false
  pub stopped : (l'.ihead ≡ l.head) ⊎ (in_flight l'.ihead l'.inflight ≡ true)

module _ (id : ℕ) {tail : ℕ} {l : Line} (v : IsValid tail l)
    (out : in_flight id l.inflight ≡ true) where
  advanced :
      (r : List Message)
      → Removes id l.inflight r
      → Advanced (taken id l r) (update_ihead (taken id l r))
  advanced r h =
      update_ihead-Advanced (taken id l r) v.ihead_le (omega (arith, v.head_le, v.tail_lt)) (
        taken-Tracked id l r (v.in_range id out).0 (v.in_range id out).1
          (v.tracked (out-is_pos id v out)) h)

  Advanced-Confirmed :
      (r : List Message) (l' : Line)
      → Removes id l.inflight r
      → Advanced (taken id l r) l'
      → Confirmed id l l'
  Advanced-Confirmed r l' h a = record {
    others = rw a.same_inflight h.others;
    shorter = rw a.same_inflight h.shorter;
    same_head = a.same_head;
    forward = a.forward;
    passed = rw a.same_inflight a.passed;
    stopped = rw a.same_inflight a.stopped;
  }

  -- If message `id` is in flight on a valid line, `confirm id` succeeds: that message alone leaves the
  -- messages in flight, and `ihead` moves over confirmed ids as far as it can.
  pub confirm_delivered : ((confirm id l).0 ≡ ok tt) × Confirmed id l (confirm id l).1
  confirm_delivered =
      let (r, e, h) = remove_tid-Removes id l.inflight out v.distinct in
      rw (confirm_accepts id l r (out-is_pos id v out) (v.in_range id out).1 e)
        (refl, Advanced-Confirmed r _ h (advanced r h))

  still_in_range :
      (r : List Message) (l' : Line)
      → Removes id l.inflight r
      → Advanced (taken id l r) l'
      → (i : ℕ) → in_flight i l'.inflight ≡ true
      → (l'.ihead ≤ i) × (i < l'.head)
  still_in_range r l' h a i o =
      let here : in_flight i r ≡ true = ap (in_flight i) (sym a.same_inflight) ∙ o in
      let there : in_flight i l.inflight ≡ true = ground (arith, h.others i) in
      let (lo, hi) = v.in_range i there in (ground (arith, a.passed i lo), rw a.same_head hi)

  Advanced-IsValid :
      (r : List Message) (l' : Line)
      → Removes id l.inflight r
      → Advanced (taken id l r) l'
      → IsValid tail l'
  Advanced-IsValid r l' h a = record {
    ihead_le = rw a.same_head a.bounded;
    head_le = rw a.same_head v.head_le;
    tail_lt = v.tail_lt;
    idle = λ n. cc (out-is_pos id v out, a.same_recycle, n);
    in_range = λ i o. still_in_range r l' h a i o;
    distinct = rw a.same_inflight h.distinct;
    tracked = λ p. a.tracked;
  }

  delivered-IsValid : IsValid tail (confirm id l).1
  delivered-IsValid =
      let (r, e, h) = remove_tid-Removes id l.inflight out v.distinct in
      rw (confirm_accepts id l r (out-is_pos id v out) (v.in_range id out).1 e)
        (Advanced-IsValid r _ h (advanced r h))

-- On any line, `confirm id` of a message that is not in flight returns ErrNotDelivered and changes
-- nothing.
pub confirm_refuses :
    (id : ℕ) (l : Line) → in_flight id l.inflight ≡ false → confirm id l ≡ (err not_delivered, l)
unfolding confirm
confirm_refuses id l h = rw (remove_tid-none id l.inflight h) (ground arith)

-- A valid line stays valid under confirm, whatever the id.
pub confirm-IsValid :
    (id : ℕ) {tail : ℕ} {l : Line} → IsValid tail l → IsValid tail (confirm id l).1
confirm-IsValid id {l = l} v = elim (Bool-cases (in_flight id l.inflight)) [
  | inl out ↦ delivered-IsValid id v out
  | inr gone ↦ rw (confirm_refuses id l gone) v
]

-- A message can be confirmed once: right after a confirm of `id` on a valid line, whether it
-- succeeded or not, a second one is refused and changes nothing.
pub confirm_twice :
    (id : ℕ) {tail : ℕ} {l : Line}
    → IsValid tail l
    → confirm id (confirm id l).1 ≡ (err not_delivered, (confirm id l).1)
confirm_twice id {l = l} v = elim (Bool-cases (in_flight id l.inflight)) [
  | inl out ↦
      confirm_refuses id _ (ground (arith, (confirm_delivered id v out).1.others id, ==_refl id))
  | inr gone ↦ rw (confirm_refuses id l gone) (confirm_refuses id l gone)
]

same_recycle :
    (id : ℕ) {tail : ℕ} {l : Line} (v : IsValid tail l)
    → in_flight id l.inflight ≡ true
    → (confirm id l).1.recycle ≡ l.recycle
same_recycle id {l = l} v out =
    let (r, e, h) = remove_tid-Removes id l.inflight out v.distinct in
    rw (confirm_accepts id l r (out-is_pos id v out) (v.in_range id out).1 e)
      ((advanced id v out r h).same_recycle)

pub confirm-same_recycle :
    (id : ℕ) {tail : ℕ} {l : Line} → IsValid tail l → (confirm id l).1.recycle ≡ l.recycle
confirm-same_recycle id {l = l} v = elim (Bool-cases (in_flight id l.inflight)) [
  | inl out ↦ same_recycle id v out
  | inr gone ↦ rw (confirm_refuses id l gone) refl
]
