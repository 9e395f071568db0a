-- ===== src/Queue/Topic/CleanAll.antt =====
-- Undisturbed, clean deletes everything that no line needs.
use uq.Prelude.{
  ℕ, zero, suc, ◌-◌, ◌≤◌, ◌<◌, ◌≡◌, refl, ◌∙◌, inl, inr, ◌++◌, Bytes, false, arith, u64_mod, ltb,
  Bool-cases, ltb→lt,
}
use uq.Utils.Errors.{ok}
use uq.Store.Interface.{Laws, Reliable}
use uq.Queue.Deps.{Deps, World, get_data}
use uq.Queue.Deps.DataLaws.{set_data_ok, del_data_ok}
use uq.Queue.Topic.{Topic, get_end, export_head, message_key}
use uq.Queue.Topic.Keys.{key_topic_head}
use uq.Queue.Topic.Clean.{Poll, clear, clean_loop, clean}
use uq.Queue.Topic.CleanSafe.{export_head_keeps, deleted_keeps, deleted, next_topic}

module _ {S : Type 0} (deps : Deps S) where
  -- The messages from `head` up to `ending` are stored.
  abbrev pub StoredTo : ℕ → Topic → World S → Type 0
  StoredTo ending t w =
      (i : ℕ)
      → t.head ≤ i
      → i < ending
      → (d : Bytes) × (get_data deps (message_key t.name i) w ≡ ok d)

module _ {S : Type 0} (deps : Deps S) (laws : Laws deps.storage) (reliable : Reliable deps.storage)
    (polls : ℕ → Poll) (undisturbed : (i : ℕ) → polls i ≡ clear) where
  StoredTo-next :
      (ending : ℕ) (t : Topic) (w : World S)
      → t.head_key ≡ t.name ++ key_topic_head
      → t.head < ending
      → ending < u64_mod
      → StoredTo deps ending t w
      → StoredTo deps ending
          (next_topic deps laws t)
          (export_head deps (next_topic deps laws t) (deleted deps laws t w)).1
  StoredTo-next ending t w k h b s i lo hi =
      let (d, e) = s i (omega arith) hi in
      (
        d,
        export_head_keeps deps laws (next_topic deps laws t) (deleted deps laws t w) i k
              (omega arith)
            ∙ deleted_keeps deps laws t w i (ground arith) (omega arith) (omega arith)
            ∙ e,
      )

  export_head_ok : (t : Topic) (w : World S) → (export_head deps t w).0 ≡ ok tt
  unfolding export_head
  export_head_ok t w = set_data_ok deps reliable _ _ w

  clean_loop_all :
      (fuel ending : ℕ) (t : Topic) (w : World S)
      → t.head_key ≡ t.name ++ key_topic_head
      → t.head ≤ ending
      → ending < u64_mod
      → ending - t.head ≤ fuel
      → StoredTo deps ending t w
      → ((clean_loop deps fuel polls ending t w).0 ≡ false)
        × ((clean_loop deps fuel polls ending t w).1.head ≡ ending)
  unfolding clean_loop
  clean_loop_all zero ending t w k h b f s = (refl, omega arith)
  clean_loop_all (suc fuel) ending t w k h b f s = elim (Bool-cases (ltb t.head ending)) [
    | inr e ↦ rw (e, clean_loop) (refl, ground arith)
    | inl e ↦
        let more = ltb→lt _ _ e in
        let (d, stored) = s t.head (omega arith) more in
        let t₁ = next_topic deps laws t in
        let w₁ = deleted deps laws t w in
        let rest =
          clean_loop_all fuel ending t₁ (export_head deps t₁ w₁).1 k (omega arith) b (omega arith)
            (StoredTo-next ending t w k more b s) in
        rw (e, clean_loop)
          (rw (undisturbed fuel) (
            rw (del_data_ok deps reliable (message_key t.name t.head) d w stored)
              (rw (export_head_ok t₁ w₁) rest)))
  ]

  -- On a topic with its own head key, with the head at most getEnd and getEnd below 2 ^ 64: if the
  -- storage does not fail, no poll stops the loop and the messages from the head up to getEnd are
  -- stored, clean goes all the way: the head becomes getEnd, and it reports no quit.
  pub clean_reaches_end :
      (t : Topic) (w : World S)
      → t.head_key ≡ t.name ++ key_topic_head
      → t.head ≤ get_end t
      → get_end t < u64_mod
      → StoredTo deps (get_end t) t w
      → ((clean deps polls t w).0 ≡ false) × ((clean deps polls t w).1.head ≡ get_end t)
  unfolding clean
  clean_reaches_end t w k h b s =
      clean_loop_all (get_end t - t.head) (get_end t) t w k h b (omega arith) s
