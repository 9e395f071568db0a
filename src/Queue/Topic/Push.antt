-- ===== src/Queue/Topic/Push.antt =====
-- push and mPush: where the messages go, and what an error leaves behind.
use uq.Prelude.{
  ◌+◌, ◌<◌, ◌≡◌, refl, sym, ap, ◌∙◌, inl, inr, Bytes, List, [], ◌∷◌, ◌++◌, arith, u64_mod, inc64,
  length,
}
use uq.Utils.Errors.{Result, ok, err, Error, Result-cases}
use uq.Store.Interface.{Laws}
use uq.Queue.Deps.{Deps, World, set_data}
use uq.Queue.Topic.{Topic, message_key, export_tail, push, m_push, m_push_end, m_push_loop}
use uq.Queue.Topic.Keys.{key_topic_tail}
use uq.Queue.Topic.PushLoop.{
  KeptBelow, Appended, at_tail, loop_keeps, loop_ok, loop_err, loop-Appended, export_keeps,
  stored_exported,
}

module _ {S : Type 0} (deps : Deps S) (laws : Laws deps.storage) where
  module _ (ds : List Bytes) (t : Topic) (w : World S) where
    abbrev looped : Result Error (Unit {0}) × Topic × World S
    looped = m_push_loop deps ds t w

    m_push_done :
        looped.0 ≡ ok tt
        → (export_tail deps looped.1 looped.2).0 ≡ ok tt
        → m_push deps ds t w ≡ (ok tt, looped.1, (export_tail deps looped.1 looped.2).1)
    unfolding m_push
    m_push_done e f = rw (e, m_push_end) (rw f refl)

    m_push_unstored :
        (x : Error)
        → looped.0 ≡ err x
        → m_push deps ds t w ≡ (err x, at_tail looped.1 t.tail, looped.2)
    unfolding m_push
    m_push_unstored x e = rw (e, m_push_end) refl

    m_push_no_tail :
        (x : Error)
        → looped.0 ≡ ok tt
        → (export_tail deps looped.1 looped.2).0 ≡ err x
        → m_push deps ds t w
          ≡ (err x, at_tail looped.1 t.tail, (export_tail deps looped.1 looped.2).1)
    unfolding m_push
    m_push_no_tail x e f = rw (e, m_push_end) (rw f refl)

  -- On a topic with its own tail key, and with ids below 2 ^ 64, mPush that succeeds appends its
  -- messages in order: they are stored from the old tail on, the tail moves past them, nothing
  -- else of the topic changes, and the messages below the old tail keep their bytes.
  pub m_push_appends :
      (ds : List Bytes) (t : Topic) (w : World S)
      → t.tail_key ≡ t.name ++ key_topic_tail
      → t.tail + length ds < u64_mod
      → (m_push deps ds t w).0 ≡ ok tt
      → Appended deps ds t w (m_push deps ds t w).1 (m_push deps ds t w).2
  m_push_appends ds t w k b h = elim (Result-cases (looped ds t w).0) [
    | inr (x, e) ↦ absurd (cc (h, m_push_unstored ds t w x e))
    | inl (u, e) ↦ elim (Result-cases (export_tail deps (looped ds t w).1 (looped ds t w).2).0) [
      | inr (x, f) ↦ absurd (cc (h, m_push_no_tail ds t w x e f))
      | inl (u', f) ↦
          let a = loop-Appended deps laws ds t w b e in
          let same = (loop_keeps deps laws ds t w b).1 in
          rw (m_push_done ds t w e f) (record {
            same = a.same;
            kept = λ i lt. export_keeps deps laws t _ _ i k same (omega arith) ∙ a.kept i lt;
            stored = stored_exported deps laws t _ _ t.tail ds k same b a.stored;
          })
    ]
  ]

  -- On a topic with its own tail key, and with ids below 2 ^ 64, mPush that fails leaves the topic
  -- as it was, its tail included, and the bytes of the messages below the tail.
  pub m_push_rolls_back :
      (ds : List Bytes) (t : Topic) (w : World S) (x : Error)
      → t.tail_key ≡ t.name ++ key_topic_tail
      → t.tail + length ds < u64_mod
      → (m_push deps ds t w).0 ≡ err x
      → ((m_push deps ds t w).1 ≡ t) × KeptBelow deps t.name t.tail w (m_push deps ds t w).2
  m_push_rolls_back ds t w x k b h =
      let (kept, same) = loop_keeps deps laws ds t w b in
      let back : at_tail (looped ds t w).1 t.tail ≡ t = ap (λ s. at_tail s t.tail) (sym same) in
      elim (Result-cases (looped ds t w).0) [
        | inr (y, e) ↦ rw (m_push_unstored ds t w y e) (back, kept)
        | inl (u, e) ↦
            elim (Result-cases (export_tail deps (looped ds t w).1 (looped ds t w).2).0) [
              | inl (u', f) ↦ absurd (cc (h, m_push_done ds t w e f))
              | inr (y, f) ↦
                  rw (m_push_no_tail ds t w y e f)
                    (back, λ i lt. export_keeps deps laws t _ _ i k same (omega arith) ∙ kept i lt)
            ]
      ]

  loop_nil : (t : Topic) (w : World S) → m_push_loop deps [] t w ≡ (ok tt, t, w)
  unfolding m_push_loop
  loop_nil t w = refl

  push_err :
      (d : Bytes) (t : Topic) (w : World S) (x : Error)
      → (set_data deps (message_key t.name t.tail) d w).0 ≡ err x
      → push deps d t w
        ≡ m_push_end deps t (err x, t, (set_data deps (message_key t.name t.tail) d w).1)
  unfolding push m_push_end
  push_err d t w x e = rw (e, push) refl

  push_ok :
      (d : Bytes) (t : Topic) (w : World S)
      → (set_data deps (message_key t.name t.tail) d w).0 ≡ ok tt
      → push deps d t w
        ≡ m_push_end deps t
            (ok tt, at_tail t (inc64 t.tail), (set_data deps (message_key t.name t.tail) d w).1)
  unfolding push m_push_end
  push_ok d t w e = rw (e, push) refl

  -- push of one message is mPush of a list of that message, on every branch: same result, same
  -- topic, same storage.
  pub push-m_push :
      (d : Bytes) (t : Topic) (w : World S) → push deps d t w ≡ m_push deps (d ∷ []) t w
  unfolding m_push
  push-m_push d t w = elim (Result-cases (set_data deps (message_key t.name t.tail) d w).0) [
    | inr (x, e) ↦
        push_err d t w x e ∙ ap (m_push_end deps t) (sym (loop_err deps laws d [] t w x e))
    | inl (u, e) ↦
        push_ok d t w e ∙ ap (m_push_end deps t) (sym (loop_ok deps laws d [] t w e ∙ loop_nil _ _))
  ]
