-- ===== src/Queue/Line/Advance.antt =====
-- updateiHead: `ihead` moves up to the first id that is still in flight.
use uq.Prelude.{
  ℕ, zero, suc, ◌-◌, ◌≤◌, ◌<◌, ◌≡◌, refl, ◌⊎◌, inl, inr, true, false, some, arith, ltb, ◌==◌,
  u64_mod, inc64, drop_key, Bool-cases, ltb→lt,
}
use uq.Queue.Line.{Line, advance, update_ihead}
use uq.Queue.Line.Valid.{in_flight, Tracked}

-- `l'` is `l` with `ihead` moved over confirmed ids only, and as far as that goes.
pub record Advanced (l l' : Line) : Type 0 where
  pub tracked : Tracked l'
  pub forward : l.ihead ≤ l'.ihead
  pub bounded : l'.ihead ≤ l.head
  pub passed : (i : ℕ) → l.ihead ≤ i → i < l'.ihead → in_flight i l.inflight ≡ false
  pub stopped : (l'.ihead ≡ l.head) ⊎ (in_flight l'.ihead l.inflight ≡ true)
  pub same_head : l'.head ≡ l.head
  pub same_inflight : l'.inflight ≡ l.inflight
  pub same_recycle : l'.recycle ≡ l.recycle

abbrev past : Line → Line
past l = record l { ihead = inc64 l.ihead; imap = drop_key l.ihead l.imap }

past-Tracked : (l : Line) → l.ihead < l.head → l.head < u64_mod → Tracked l → Tracked (past l)
past-Tracked l h k t i = ground (arith, t i)

Advanced-past :
    (l l' : Line)
    → l.ihead < l.head
    → l.head < u64_mod
    → in_flight l.ihead l.inflight ≡ false
    → Advanced (past l) l'
    → Advanced l l'
Advanced-past l l' h k free a = record {
  tracked = a.tracked;
  forward = omega (arith, a.forward);
  bounded = a.bounded;
  passed = λ i lo hi. elim (Bool-cases (i == l.ihead)) [
    | inl e ↦ ground arith
    | inr e ↦ a.passed i (ground arith) hi
  ];
  stopped = a.stopped;
  same_head = a.same_head;
  same_inflight = a.same_inflight;
  same_recycle = a.same_recycle;
}

Advanced-refl :
    (l : Line)
    → l.ihead ≤ l.head
    → Tracked l
    → (l.ihead ≡ l.head) ⊎ (in_flight l.ihead l.inflight ≡ true)
    → Advanced l l
Advanced-refl l h t stop = record {
  tracked = t;
  forward = omega arith;
  bounded = h;
  passed = λ i lo hi. absurd (omega arith);
  stopped = stop;
  same_head = refl;
  same_inflight = refl;
  same_recycle = refl;
}

imap_at :
    (l : Line) → l.ihead < l.head → Tracked l → l.imap l.ihead ≡ some (in_flight l.ihead l.inflight)
imap_at l h t = ground (arith, t l.ihead)

advance-Advanced :
    (fuel : ℕ) (l : Line)
    → l.head - l.ihead ≤ fuel
    → l.ihead ≤ l.head
    → l.head < u64_mod
    → Tracked l
    → Advanced l (advance fuel l)
unfolding advance
advance-Advanced zero l f h k t = Advanced-refl l h t (inl (omega arith))
advance-Advanced (suc fuel) l f h k t = elim (Bool-cases (ltb l.ihead l.head)) [
  | inr end ↦ rw (end, advance) (Advanced-refl l h t (inl (ground arith)))
  | inl more ↦ elim (Bool-cases (in_flight l.ihead l.inflight)) [
    | inl out ↦
        rw (more, advance)
          (rw (imap_at l (ltb→lt _ _ more) t) (rw out (Advanced-refl l h t (inr out))))
    | inr free ↦
        rw (more, advance)
          (rw (imap_at l (ltb→lt _ _ more) t) (
            rw free (
              Advanced-past l _ (ltb→lt _ _ more) k free (
                advance-Advanced fuel (past l) (ground arith) (ground arith) k
                  (past-Tracked l (ltb→lt _ _ more) k t)))))
  ]
]

-- On a line whose map is in order, updateiHead ends by its own test and not by the bound of the
-- model: every id that `ihead` passes is confirmed, and the id where it stops is `head` or in flight.
pub update_ihead-Advanced :
    (l : Line) → l.ihead ≤ l.head → l.head < u64_mod → Tracked l → Advanced l (update_ihead l)
unfolding update_ihead
update_ihead-Advanced l h k t = advance-Advanced (l.head - l.ihead) l (omega arith) h k t
