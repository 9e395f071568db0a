-- ===== src/Queue/Topic/Order.antt =====
-- mPush and then mPop: the messages come out in the order in which they went in.
use uq.Prelude.{
  ℕ, suc, ◌+◌, ◌≤◌, ◌<◌, ◌≡◌, refl, sym, ap, subst, ◌∙◌, Bytes, List, [], ◌∷◌, true, false, some,
  arith, u64_mod, is_pos, length, lookup,
}
use uq.Utils.Errors.{ok}
use uq.Store.Interface.{Laws}
use uq.Queue.Line.{Line, m_pop}
use uq.Queue.Line.Valid.{IsValid, IsValid-mono}
use uq.Queue.Line.Pop.{is_due}
use uq.Queue.Line.Order.{numbered, Holds, m_pop-numbered}
use uq.Queue.Deps.{Deps, World}
use uq.Queue.Topic.{Topic, topic_data, topic_m_pop, m_push}
use uq.Queue.Topic.PushLoop.{StoredFrom, at_tail}
use uq.Queue.Topic.Push.{m_push_appends}
use uq.Queue.Topic.Sound.{IsSound}

module _ {S : Type 0} (deps : Deps S) where
  StoredFrom-Holds :
      (t : Topic) (w : World S) (tail now id : ℕ) (ds : List Bytes)
      → StoredFrom deps t.name id ds w
      → Holds (topic_data deps t w) tail now id ds
  unfolding topic_data
  StoredFrom-Holds t w tail now id [] s = tt
  StoredFrom-Holds t w tail now id (d ∷ ds) (s, ss) =
      (s, StoredFrom-Holds t w tail now (suc id) ds ss)

  topic_m_pop_hit :
      (name : Bytes) (n now : ℕ) (t : Topic) (w : World S) (l : Line)
      → lookup name t.lines ≡ some l
      → (topic_m_pop deps name n now t w).0 ≡ (m_pop (topic_data deps t w) t.tail now n l).0
  unfolding topic_m_pop
  topic_m_pop_hit name n now t w l e = rw (e, topic_m_pop) refl

module _ {S : Type 0} (deps : Deps S) (laws : Laws deps.storage) where
  popped_after :
      (ds : List Bytes) (t : Topic) (w' : World S) (name : Bytes) (l : Line) (n now : ℕ)
      → lookup name t.lines ≡ some l
      → IsValid t.tail l
      → l.head ≡ t.tail
      → (is_pos l.recycle ≡ true → is_due now l.inflight ≡ false)
      → t.tail + length ds < u64_mod
      → 0 < length ds
      → length ds ≤ n
      → StoredFrom deps t.name t.tail ds w'
      → (topic_m_pop deps name n now (at_tail t (t.tail + length ds)) w').0
        ≡ ok (numbered t.tail ds)
  popped_after ds t w' name l n now e v at due b any h s =
      let t' = at_tail t (t.tail + length ds) in
      topic_m_pop_hit deps name n now t' w' l e
      ∙ m_pop-numbered (topic_data deps t' w') t'.tail now ds n l (IsValid-mono (omega arith) b v)
          (omega (arith, at)) any h due
          (subst (λ i. Holds (topic_data deps t' w') t'.tail now i ds) (sym at)
            (StoredFrom-Holds deps t' w' t'.tail now t.tail ds s))
      ∙ ap (λ i. ok (numbered i ds)) at

  -- On a sound topic with ids below 2 ^ 64, when mPush of one or more messages succeeds and a line
  -- had read everything before and has no message due, then mPop on that line, of at least as many
  -- messages, returns just these messages, in the order in which they were pushed, with
  -- consecutive ids from the old tail on.
  pub m_push-topic_m_pop :
      (ds : List Bytes) (t : Topic) (w : World S) (name : Bytes) (l : Line) (n now : ℕ)
      → IsSound deps t w
      → lookup name t.lines ≡ some l
      → l.head ≡ t.tail
      → (is_pos l.recycle ≡ true → is_due now l.inflight ≡ false)
      → t.tail + length ds < u64_mod
      → 0 < length ds
      → length ds ≤ n
      → (m_push deps ds t w).0 ≡ ok tt
      → (topic_m_pop deps name n now (m_push deps ds t w).1 (m_push deps ds t w).2).0
        ≡ ok (numbered t.tail ds)
  m_push-topic_m_pop ds t w name l n now h e at due b any k r =
      let a = m_push_appends deps laws ds t w h.tail_key b r in
      subst
        (λ t'. (topic_m_pop deps name n now t' (m_push deps ds t w).2).0 ≡ ok (numbered t.tail ds))
        a.same
        (popped_after ds t (m_push deps ds t w).2 name l n now e (h.served name l e).valid at due b
          any k a.stored)
