-- ===== src/Queue/Topic/PushLoop.antt =====
-- The loop of mPush: what it stores, and what it and the export of the tail leave alone.
use uq.Prelude.{
  ℕ, suc, ◌+◌, ◌<◌, ◌≡◌, refl, ap, subst, ◌∙◌, inl, inr, Bytes, List, [], ◌∷◌, ◌++◌, arith, u64_mod,
  inc64, length,
}
use uq.Utils.Errors.{ok, err, Error, Result-cases}
use uq.Store.Interface.{Laws}
use uq.Queue.Deps.{Deps, World, set_data, get_data}
use uq.Queue.Deps.DataLaws.{get_data-set_data, get_data-set_data_ne}
use uq.Queue.Topic.{Topic, message_key, export_tail, m_push_loop}
use uq.Queue.Topic.Keys.{key_topic_tail, message_key_eq, message_key-ne-tail}

-- A topic with another tail.
abbrev pub at_tail : Topic → ℕ → Topic
at_tail t n = record t { tail = n }

module _ {S : Type 0} (deps : Deps S) where
  -- The messages from `id` on are `ds`.
  abbrev pub StoredFrom : Bytes → ℕ → List Bytes → World S → Type 0
  StoredFrom topic id [] w = Unit {0}
  StoredFrom topic id (d ∷ ds) w =
      (get_data deps (message_key topic id) w ≡ ok d) × StoredFrom topic (suc id) ds w

  -- The messages below `id` are those of before.
  abbrev pub KeptBelow : Bytes → ℕ → World S → World S → Type 0
  KeptBelow topic id w w' =
      (i : ℕ)
      → i < id
      → get_data deps (message_key topic i) w' ≡ get_data deps (message_key topic i) w

  -- The messages `ds` are appended to the topic, and nothing else of it changes.
  pub record Appended (ds : List Bytes) (t : Topic) (w : World S) (t' : Topic) (w' : World S)
      : Type 0 where
    pub same : record t { tail = t.tail + length ds } ≡ t'
    pub kept : KeptBelow t.name t.tail w w'
    pub stored : StoredFrom t.name t.tail ds w'

module _ {S : Type 0} (deps : Deps S) (laws : Laws deps.storage) where
  -- Storing message `id` leaves the others alone.
  set_message_keeps :
      (topic : Bytes) (id : ℕ) (d : Bytes) (w : World S)
      → id < u64_mod
      → KeptBelow deps topic id w (set_data deps (message_key topic id) d w).1
  set_message_keeps topic id d w h i lt =
      get_data-set_data_ne deps laws (message_key topic id) (message_key topic i) d w
        (message_key_eq topic i id (omega arith) h ∙ ground arith)

  -- Storing the tail leaves the messages alone.
  export_tail_keeps :
      (t : Topic) (w : World S) (i : ℕ)
      → t.tail_key ≡ t.name ++ key_topic_tail
      → i < u64_mod
      → get_data deps (message_key t.name i) (export_tail deps t w).1
        ≡ get_data deps (message_key t.name i) w
  unfolding export_tail
  export_tail_keeps t w i k h =
      get_data-set_data_ne deps laws t.tail_key (message_key t.name i) _ w
        (rw k (message_key-ne-tail t.name i h))

  tail-StoredFrom :
      (t : Topic) (w : World S) (id : ℕ) (ds : List Bytes)
      → t.tail_key ≡ t.name ++ key_topic_tail
      → id + length ds < u64_mod
      → StoredFrom deps t.name id ds w
      → StoredFrom deps t.name id ds (export_tail deps t w).1
  tail-StoredFrom t w id [] k b s = tt
  tail-StoredFrom t w id (d ∷ ds) k b s = (
    export_tail_keeps t w id k (omega arith) ∙ s.0,
    tail-StoredFrom t w (suc id) ds k (omega arith) s.1,
  )

  -- The loop of mPush keeps the older messages, and changes the tail only.
  pub loop_keeps :
      (ds : List Bytes) (t : Topic) (w : World S)
      → t.tail + length ds < u64_mod
      → KeptBelow deps t.name t.tail w (m_push_loop deps ds t w).2
        × (record t { tail = (m_push_loop deps ds t w).1.tail } ≡ (m_push_loop deps ds t w).1)
  unfolding m_push_loop
  loop_keeps [] t w b = (λ i h. refl, refl)
  loop_keeps (d ∷ ds) t w b =
      let w₁ = (set_data deps (message_key t.name t.tail) d w).1 in
      let keeps = set_message_keeps t.name t.tail d w (omega arith) in
      let rest = loop_keeps ds (record t { tail = inc64 t.tail }) w₁ (omega arith) in
      elim (Result-cases (set_data deps (message_key t.name t.tail) d w).0) [
        | inl (u, e) ↦ rw (e, m_push_loop) (λ i h. rest.0 i (omega arith) ∙ keeps i h, rest.1)
        | inr (x, e) ↦ rw (e, m_push_loop) (keeps, refl)
      ]

  pub loop_ok :
      (d : Bytes) (ds : List Bytes) (t : Topic) (w : World S)
      → (set_data deps (message_key t.name t.tail) d w).0 ≡ ok tt
      → m_push_loop deps (d ∷ ds) t w
        ≡ m_push_loop deps ds
            (record t { tail = inc64 t.tail })
            (set_data deps (message_key t.name t.tail) d w).1
  unfolding m_push_loop
  loop_ok d ds t w e = rw (e, m_push_loop) refl

  pub loop_err :
      (d : Bytes) (ds : List Bytes) (t : Topic) (w : World S) (x : Error)
      → (set_data deps (message_key t.name t.tail) d w).0 ≡ err x
      → m_push_loop deps (d ∷ ds) t w
        ≡ (err x, t, (set_data deps (message_key t.name t.tail) d w).1)
  unfolding m_push_loop
  loop_err d ds t w x e = rw (e, m_push_loop) refl

  Appended-cons :
      (d : Bytes) (ds : List Bytes) (t t' : Topic) (w w' : World S)
      → t.tail + length (d ∷ ds) < u64_mod
      → (set_data deps (message_key t.name t.tail) d w).0 ≡ ok tt
      → Appended deps ds
          (at_tail t (inc64 t.tail))
          (set_data deps (message_key t.name t.tail) d w).1
          t'
          w'
      → Appended deps (d ∷ ds) t w t' w'
  Appended-cons d ds t t' w w' b e rest =
      let next : inc64 t.tail ≡ suc t.tail = omega arith in
      let keeps = set_message_keeps t.name t.tail d w (omega arith) in
      record {
        same = ap (at_tail t) (omega arith) ∙ rest.same;
        kept = λ i h. rest.kept i (omega arith) ∙ keeps i h;
        stored = (
          rest.kept t.tail (omega arith) ∙ get_data-set_data deps laws _ d w e,
          subst (λ n. StoredFrom deps t.name n ds w') next rest.stored,
        );
      }

  pub loop-Appended :
      (ds : List Bytes) (t : Topic) (w : World S)
      → t.tail + length ds < u64_mod
      → (m_push_loop deps ds t w).0 ≡ ok tt
      → Appended deps ds t w (m_push_loop deps ds t w).1 (m_push_loop deps ds t w).2
  loop-Appended [] t w b h =
      unfold m_push_loop in
      record { same = ap (at_tail t) (omega arith); kept = λ i h. refl; stored = tt }
  loop-Appended (d ∷ ds) t w b h =
      elim (Result-cases (set_data deps (message_key t.name t.tail) d w).0) [
        | inl (u, e) ↦
            let step = loop_ok d ds t w e in
            rw step
              (Appended-cons d ds t _ w _ b e (loop-Appended ds _ _ (omega arith) (rw step at h)))
        | inr (x, e) ↦ absurd (cc (h, loop_err d ds t w x e))
      ]

  pub export_keeps :
      (t t' : Topic) (w : World S) (i : ℕ)
      → t.tail_key ≡ t.name ++ key_topic_tail
      → at_tail t t'.tail ≡ t'
      → i < u64_mod
      → get_data deps (message_key t.name i) (export_tail deps t' w).1
        ≡ get_data deps (message_key t.name i) w
  export_keeps t t' w i k e h =
      subst
        (λ s.
          get_data deps (message_key t.name i) (export_tail deps s w).1
          ≡ get_data deps (message_key t.name i) w)
        e (export_tail_keeps (at_tail t t'.tail) w i k h)

  pub stored_exported :
      (t t' : Topic) (w : World S) (id : ℕ) (ds : List Bytes)
      → t.tail_key ≡ t.name ++ key_topic_tail
      → at_tail t t'.tail ≡ t'
      → id + length ds < u64_mod
      → StoredFrom deps t.name id ds w
      → StoredFrom deps t.name id ds (export_tail deps t' w).1
  stored_exported t t' w id ds k e b s =
      subst (λ s'. StoredFrom deps t.name id ds (export_tail deps s' w).1) e
        (tail-StoredFrom (at_tail t t'.tail) w id ds k b s)
