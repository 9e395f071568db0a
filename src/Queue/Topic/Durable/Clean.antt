-- ===== src/Queue/Topic/Durable/Clean.antt =====
-- The clean tick keeps a topic durable.
use uq.Prelude.{
  ℕ, zero, suc, ◌≡◌, ◌≢◌, sym, ap, subst, ◌∙◌, inl, inr, Bytes, ◌++◌, Bool-cases, ltb, inc64,
}
use uq.Utils.Errors.{ok, Result-cases}
use uq.Store.Interface.{Laws, Reliable}
use uq.Queue.Deps.{Deps, World, get_data, set_data, del_data}
use uq.Queue.Deps.DataLaws.{get_data-set_data, set_data_ok}
use uq.Queue.Topic.{Topic, message_key, little_endian, export_head}
use uq.Queue.Topic.Admin.{recycle_key}
use uq.Queue.Topic.Keys.{key_topic_head, key_topic_tail}
use uq.Queue.Topic.Sound.{IsSound}
use uq.Queue.Topic.Clean.{Poll, clean_loop, clean, clean_tick}
use uq.Queue.Topic.CleanSafe.{Poll-cases, clean-Cleaned}
use uq.Queue.Topic.Preserve.{clean_tick_idle, clean_tick_runs}
use uq.Queue.Topic.Frame.{NoMessage, del_data-Same}
use uq.Queue.Topic.FrameSteps.{clean_tick-Same}
use uq.Queue.Topic.Durable.{IsDurable}
use uq.Queue.Topic.Durable.Moves.{
  head-NoMessage, tail-NoMessage, recycle-NoMessage, recycle-ne-head, head-ne-tail,
  counted-IsDurable,
}

module _ {S : Type 0} (deps : Deps S) (laws : Laws deps.storage)
    (reliable : Reliable deps.storage) where
  -- The loop of clean stores the head that it leaves.
  clean_loop_head :
      (fuel : ℕ) (polls : ℕ → Poll) (ending : ℕ) (t : Topic) (w : World S)
      → t.head_key ≡ t.name ++ key_topic_head
      → get_data deps (t.name ++ key_topic_head) w ≡ ok (little_endian 8 t.head)
      → get_data deps (t.name ++ key_topic_head) (clean_loop deps fuel polls ending t w).2
        ≡ ok (little_endian 8 (clean_loop deps fuel polls ending t w).1.head)
  unfolding clean_loop
  clean_loop_head zero polls ending t w k h = h
  clean_loop_head (suc fuel) polls ending t w k h =
      let w₁ = (del_data deps (message_key t.name t.head) w).1 in
      let t₁ : Topic = record t { head = inc64 t.head } in
      let w₂ = (export_head deps t₁ w₁).1 in
      let first =
        del_data-Same deps laws (t.name ++ key_topic_head) (message_key t.name t.head) w
          (head-NoMessage t.name t.head) in
      let done : (export_head deps t₁ w₁).0 ≡ ok tt =
        unfold export_head in set_data_ok deps reliable _ _ w₁ in
      let stored : get_data deps (t.name ++ key_topic_head) w₂ ≡ ok (little_endian 8 t₁.head) =
        unfold export_head in
        subst
          (λ j.
            get_data deps j (set_data deps t.head_key (little_endian 8 t₁.head) w₁).1
            ≡ ok (little_endian 8 t₁.head))
          k
          (get_data-set_data deps laws t.head_key (little_endian 8 t₁.head) w₁
            (set_data_ok deps reliable _ _ w₁)) in
      elim (Bool-cases (ltb t.head ending)) [
        | inr a ↦ rw (a, clean_loop) h
        | inl a ↦ elim (Poll-cases (polls fuel)) [
          | inl p ↦ rw (a, clean_loop) (rw p h)
          | inr (inl p) ↦ rw (a, clean_loop) (rw p h)
          | inr (inr p) ↦ elim (Result-cases (del_data deps (message_key t.name t.head) w).0) [
            | inr (x, d) ↦ rw (a, clean_loop) (rw p (rw d (first ∙ h)))
            | inl (u, d) ↦
                rw (a, clean_loop)
                  (rw p (rw d (rw done (clean_loop_head fuel polls ending t₁ w₂ k stored))))
          ]
        ]
      ]

  pub clean_tick-IsDurable :
      (polls : ℕ → Poll) (t : Topic) (w : World S)
      → IsSound deps t w
      → IsDurable deps t w
      → IsDurable deps (clean_tick deps polls t w).0 (clean_tick deps polls t w).1
  clean_tick-IsDurable polls t w s h = elim (Bool-cases t.persist) [
    | inl p ↦ rw (clean_tick_idle deps laws polls t w p) h
    | inr p ↦
        let ran = clean_tick_runs deps laws polls t w p in
        let same = (clean-Cleaned deps laws polls t w s.head_key s.head_le s.tail_lt).same in
        let kept = λ (k : Bytes) (ne : NoMessage t.name k) (ne' : k ≢ t.head_key).
          ap (λ x. get_data deps k x.1) (sym ran) ∙ clean_tick-Same deps laws k polls t w ne ne' in
        rw ran (
          counted-IsDurable deps t _ w _ (ap (λ x. x.name) (sym same))
            (ap (λ x. x.lines) (sym same))
            (unfold clean in (clean_loop_head _ polls _ t w s.head_key h.head_stored))
            (kept (t.name ++ key_topic_tail) (tail-NoMessage t.name)
                (λ e. head-ne-tail t.name (sym (e ∙ s.head_key)))
              ∙ h.tail_stored
              ∙ ap (λ x. ok (little_endian 8 x.tail)) same)
            (λ name.
              kept (recycle_key t.name name) (recycle-NoMessage t.name name)
                (λ e. recycle-ne-head t.name name (e ∙ s.head_key)))
            h)
  ]
