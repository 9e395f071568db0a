-- ===== src/Queue/UnitedQueue/Delivery.antt =====
-- MultiPush and then MultiPop of the queue.
use uq.Prelude.{
  ℕ, ◌+◌, ◌≤◌, ◌<◌, ◌≡◌, ◌≢◌, refl, sym, ap, subst, ◌∙◌, inl, inr, Bytes, List, [], ◌∷◌, true,
  false, some, none, codes, u64_mod, length, lookup, map, is_pos, Option-cases,
}
use uq.Utils.Errors.{Result, ok, Error}
use uq.Utils.Strings.{acatui, split_slash}
use uq.Store.Interface.{Laws}
use uq.Queue.Line.{Line}
use uq.Queue.Line.Pop.{is_due}
use uq.Queue.Line.Order.{numbered}
use uq.Queue.Deps.{Deps, World}
use uq.Queue.Topic.{Topic, topic_m_pop, m_push}
use uq.Queue.Topic.Sound.{IsSound}
use uq.Queue.Topic.Order.{m_push-topic_m_pop}
use uq.Queue.UnitedQueue.{
  UnitedQueue, trim_key, with_topic, first_empty, multi_push, m_push_to, multi_pop, multi_pop_parts,
  multi_pop_from,
}
use uq.Queue.UnitedQueue.RoundTrip.{lookup_inserted}

-- The keys that MultiPop gives to messages.
abbrev pub keyed : Bytes → List (ℕ × Bytes) → List (Bytes × Bytes)
keyed key = map (λ ((id, d) : ℕ × Bytes). (acatui key (codes "/") id, d))

module _ {S : Type 0} (deps : Deps S) where
  multi_push_to :
      (key : Bytes) (ds : List Bytes) (u : UnitedQueue) (w : World S) (t : Topic)
      → first_empty 0 ds ≡ none
      → lookup (trim_key key) u.topics ≡ some t
      → multi_push deps key ds u w ≡ (
        (m_push deps ds t w).0,
        with_topic (trim_key key) (m_push deps ds t w).1 u,
        (m_push deps ds t w).2,
      )
  unfolding multi_push
  multi_push_to key ds u w t e f = rw (e, multi_push) (rw (f, m_push_to) refl)

  refused_empty :
      (key : Bytes) (ds : List Bytes) (u : UnitedQueue) (w : World S) (i : ℕ)
      → first_empty 0 ds ≡ some i
      → (multi_push deps key ds u w).0 ≢ ok tt
  unfolding multi_push
  refused_empty key ds u w i e = rw (e, multi_push) (λ h. absurd (cc (h)))

  pushed_not_empty :
      (key : Bytes) (ds : List Bytes) (u : UnitedQueue) (w : World S)
      → (multi_push deps key ds u w).0 ≡ ok tt
      → first_empty 0 ds ≡ none
  pushed_not_empty key ds u w h = elim (Option-cases (first_empty 0 ds)) [
    | inl e ↦ e
    | inr (i, e) ↦ absurd (refused_empty key ds u w i e h)
  ]

  multi_pop_ok :
      (key topic line : Bytes) (n now : ℕ) (u : UnitedQueue) (w : World S) (t : Topic)
      (got : List (ℕ × Bytes))
      → split_slash (trim_key key) ≡ topic ∷ line ∷ []
      → lookup topic u.topics ≡ some t
      → (topic_m_pop deps line n now t w).0 ≡ ok got
      → (multi_pop deps key n now u w).0 ≡ ok (keyed (trim_key key) got)
  unfolding multi_pop
  multi_pop_ok key topic line n now u w t got e f r =
      rw (e, multi_pop_parts) (rw (f, multi_pop_from) (rw r refl))

module _ {S : Type 0} (deps : Deps S) (laws : Laws deps.storage) where
  -- When MultiPush of one or more messages to a sound topic succeeds, and a line of it had read
  -- everything before and has no message due, MultiPop on that line, of at least as many messages,
  -- returns these messages in their order, each with its key. Ids stay below 2 ^ 64.
  pub multi_push-multi_pop :
      (push_key pop_key : Bytes) (ds : List Bytes) (u : UnitedQueue) (w : World S)
      (topic line : Bytes) (t : Topic) (l : Line) (n now : ℕ)
      → trim_key push_key ≡ topic
      → split_slash (trim_key pop_key) ≡ topic ∷ line ∷ []
      → lookup topic u.topics ≡ some t
      → lookup line t.lines ≡ some l
      → IsSound deps t w
      → l.head ≡ t.tail
      → (is_pos l.recycle ≡ true → is_due now l.inflight ≡ false)
      → t.tail + length ds < u64_mod
      → 0 < length ds
      → length ds ≤ n
      → (multi_push deps push_key ds u w).0 ≡ ok tt
      → (multi_pop deps pop_key n now
          (multi_push deps push_key ds u w).1
          (multi_push deps push_key ds u w).2).0
        ≡ ok (keyed (trim_key pop_key) (numbered t.tail ds))
  multi_push-multi_pop push_key pop_key ds u w topic line t l n now same parts f g sound at due b
        any k r =
      let pushed =
        multi_push_to deps push_key ds u w t (pushed_not_empty deps push_key ds u w r)
          (ap (λ x. lookup x u.topics) same ∙ f) in
      let t' = (m_push deps ds t w).1 in
      let w' = (m_push deps ds t w).2 in
      let sent : (m_push deps ds t w).0 ≡ ok tt = sym (ap (λ x. x.0) pushed) ∙ r in
      let there : lookup topic (with_topic (trim_key push_key) t' u).topics ≡ some t' =
        subst (λ x. lookup x (with_topic (trim_key push_key) t' u).topics ≡ some t') same
          (lookup_inserted (trim_key push_key) t' u.topics) in
      subst
        (λ (x : Result Error (Unit {0}) × UnitedQueue × World S).
          (multi_pop deps pop_key n now x.1 x.2).0
          ≡ ok (keyed (trim_key pop_key) (numbered t.tail ds)))
        (sym pushed)
        (multi_pop_ok deps pop_key topic line n now (with_topic (trim_key push_key) t' u) w' t'
          (numbered t.tail ds) parts there
          (m_push-topic_m_pop deps laws ds t w line l n now sound g at due b any k sent))
