-- ===== src/Queue/Topic/Preserve.antt =====
-- mPush, pop, mPop, confirm and the clean tick keep a topic sound.
use uq.Prelude.{
  ℕ, suc, ◌+◌, ◌≤◌, ◌<◌, ◌≡◌, sym, ap, subst, ◌∙◌, ◌==◌, ==_iff, ltb, ltb→lt, inl, inr, Bytes, List,
  [], ◌∷◌, true, false, arith, u64_mod, length, lookup, Bool-cases, Option-cases, if◌then◌else◌,
}
use uq.Utils.Errors.{ok, Result-cases}
use uq.Store.Interface.{Laws}
use uq.Queue.Line.Valid.{IsValid-mono}
use uq.Queue.Line.Deliver.{pop-IsValid}
use uq.Queue.Line.MultiValid.{m_pop-IsValid}
use uq.Queue.Line.Confirm.{confirm-IsValid}
use uq.Queue.Line.Onward.{pop-Onward, m_pop-Onward, confirm-Onward}
use uq.Queue.Deps.{Deps, World, get_data}
use uq.Queue.Topic.{
  Topic, message_key, line_end, get_end, topic_data, topic_pop, topic_m_pop, topic_confirm, m_push,
}
use uq.Queue.Topic.Clean.{Poll, clean, clean_tick}
use uq.Queue.Topic.CleanSafe.{Cleaned, clean-Cleaned}
use uq.Queue.Topic.End.{get_end_bounds, get_end-le-line_end}
use uq.Queue.Topic.PushLoop.{StoredFrom, KeptBelow}
use uq.Queue.Topic.Push.{m_push_appends, m_push_rolls_back}
use uq.Queue.Topic.Sound.{IsSound, Onward-IsServed, with_line-IsSound}

module _ {S : Type 0} (deps : Deps S) where
  stored_at :
      (topic : Bytes) (id : ℕ) (ds : List Bytes) (w : World S)
      → StoredFrom deps topic id ds w
      → (i : ℕ) → id ≤ i
      → i < id + length ds
      → (d : Bytes) × (get_data deps (message_key topic i) w ≡ ok d)
  stored_at topic id [] w s i lo hi = absurd (omega (arith, lo, hi))
  stored_at topic id (d ∷ ds) w (s, ss) i lo hi = elim (Bool-cases (id == i)) [
    | inl e ↦ (d, subst (λ k. get_data deps (message_key topic k) w ≡ ok d) ((==_iff id i).0 e) s)
    | inr e ↦ stored_at topic (suc id) ds w ss i (ground arith) (omega (arith, hi))
  ]

  pub pop_keeps :
      (name : Bytes) (now : ℕ) (t : Topic) (w : World S)
      → IsSound deps t w
      → IsSound deps (topic_pop deps name now t w).1 w
  unfolding topic_pop
  pop_keeps name now t w h = elim (Option-cases (lookup name t.lines)) [
    | inl e ↦ rw (e, topic_pop) h
    | inr (l, e) ↦
        let s = h.served name l e in
        rw (e, topic_pop)
          (with_line-IsSound name _ h (
            Onward-IsServed s (pop-IsValid (topic_data deps t w) now s.valid)
              (pop-Onward (topic_data deps t w) now s.valid)))
  ]

  pub m_pop_keeps :
      (name : Bytes) (n now : ℕ) (t : Topic) (w : World S)
      → IsSound deps t w
      → IsSound deps (topic_m_pop deps name n now t w).1 w
  unfolding topic_m_pop
  m_pop_keeps name n now t w h = elim (Option-cases (lookup name t.lines)) [
    | inl e ↦ rw (e, topic_m_pop) h
    | inr (l, e) ↦
        let s = h.served name l e in
        rw (e, topic_m_pop)
          (with_line-IsSound name _ h (
            Onward-IsServed s (m_pop-IsValid (topic_data deps t w) now n s.valid)
              (m_pop-Onward (topic_data deps t w) now n s.valid)))
  ]

  pub confirm_keeps :
      (name : Bytes) (id : ℕ) (t : Topic) (w : World S)
      → IsSound deps t w
      → IsSound deps (topic_confirm name id t).1 w
  unfolding topic_confirm
  confirm_keeps name id t w h = elim (Option-cases (lookup name t.lines)) [
    | inl e ↦ rw (e, topic_confirm) h
    | inr (l, e) ↦
        let s = h.served name l e in
        rw (e, topic_confirm)
          (with_line-IsSound name _ h
            (Onward-IsServed s (confirm-IsValid id s.valid) (confirm-Onward id s.valid)))
  ]

module _ {S : Type 0} (deps : Deps S) (laws : Laws deps.storage) where
  -- The tail moves up, and the new messages are stored.
  grown-IsSound :
      (ds : List Bytes) (t : Topic) (w w' : World S)
      → t.tail + length ds < u64_mod
      → IsSound deps t w
      → KeptBelow deps t.name t.tail w w'
      → StoredFrom deps t.name t.tail ds w'
      → IsSound deps (record t { tail = t.tail + length ds }) w'
  grown-IsSound ds t w w' b h kept new = record {
    head_le = omega (arith, h.head_le);
    tail_lt = b;
    head_key = h.head_key;
    tail_key = h.tail_key;
    served = λ name l e.
        let s = h.served name l e in
        record { valid = IsValid-mono (omega arith) b s.valid; needs = s.needs };
    stored = λ i lo hi. elim (Bool-cases (ltb i t.tail)) [
      | inl e ↦ let (d, s) = h.stored i lo (ltb→lt _ _ e) in (d, kept i (ltb→lt _ _ e) ∙ s)
      | inr e ↦ stored_at deps t.name t.tail ds w' new i (ground arith) hi
    ];
  }

  pub push_keeps :
      (ds : List Bytes) (t : Topic) (w : World S)
      → t.tail + length ds < u64_mod
      → IsSound deps t w
      → IsSound deps (m_push deps ds t w).1 (m_push deps ds t w).2
  push_keeps ds t w b h = elim (Result-cases (m_push deps ds t w).0) [
    | inl (u, e) ↦
        let a = m_push_appends deps laws ds t w h.tail_key b e in
        subst (λ t'. IsSound deps t' (m_push deps ds t w).2) a.same
          (grown-IsSound ds t w (m_push deps ds t w).2 b h a.kept a.stored)
    | inr (x, e) ↦
        let back = m_push_rolls_back deps laws ds t w x h.tail_key b e in
        subst (λ t'. IsSound deps t' (m_push deps ds t w).2) (sym back.0)
          (record {
            head_le = h.head_le;
            tail_lt = h.tail_lt;
            head_key = h.head_key;
            tail_key = h.tail_key;
            served = h.served;
            stored = λ i lo hi. let (d, s) = h.stored i lo hi in (d, back.1 i hi ∙ s);
          })
  ]

  -- After clean the head has moved, but not past what a line needs.
  Cleaned-IsSound :
      (t t' : Topic) (w w' : World S)
      → t.persist ≡ false
      → IsSound deps t w
      → Cleaned deps (get_end t) t w t' w'
      → IsSound deps t' w'
  Cleaned-IsSound t t' w w' p h c =
      subst (λ u. IsSound deps u w') c.same
        (record {
          head_le = ground (arith, c.bounded, get_end_bounds t, h.head_le);
          tail_lt = h.tail_lt;
          head_key = h.head_key;
          tail_key = h.tail_key;
          served = λ name l e.
              let s = h.served name l e in
              let low : t.head ≤ line_end l = ground (arith, p, s.needs) in
              record {
                valid = s.valid;
                needs = ground (arith, p, c.bounded, get_end-le-line_end t name l e, low);
              };
          stored = λ i lo hi.
              let from : t'.head ≤ i = ground (arith, p, lo) in
              let (d, s) = h.stored i (ground (arith, p, c.forward, from)) hi in
              (d, c.kept i (omega (arith, hi, h.tail_lt)) (inr from) ∙ s);
        })

  pub clean_tick_idle :
      (polls : ℕ → Poll) (t : Topic) (w : World S)
      → t.persist ≡ true
      → clean_tick deps polls t w ≡ (t, w)
  unfolding clean_tick
  clean_tick_idle polls t w p =
      ap (λ b. if b then (t, w) else ((clean deps polls t w).1, (clean deps polls t w).2)) p

  pub clean_tick_runs :
      (polls : ℕ → Poll) (t : Topic) (w : World S)
      → t.persist ≡ false
      → clean_tick deps polls t w ≡ ((clean deps polls t w).1, (clean deps polls t w).2)
  unfolding clean_tick
  clean_tick_runs polls t w p =
      ap (λ b. if b then (t, w) else ((clean deps polls t w).1, (clean deps polls t w).2)) p

  pub clean_keeps :
      (polls : ℕ → Poll) (t : Topic) (w : World S)
      → IsSound deps t w
      → IsSound deps (clean_tick deps polls t w).0 (clean_tick deps polls t w).1
  clean_keeps polls t w h = elim (Bool-cases t.persist) [
    | inl p ↦ rw (clean_tick_idle polls t w p) h
    | inr p ↦ rw (clean_tick_runs polls t w p) (
        Cleaned-IsSound t _ w _ p h
          (clean-Cleaned deps laws polls t w h.head_key h.head_le h.tail_lt))
  ]
