-- ===== src/Queue/Topic/Durable/Push.antt =====
-- mPush keeps a topic durable.
use uq.Prelude.{◌+◌, ◌≡◌, sym, ap, subst, ◌∙◌, inl, inr, Bytes, List, ◌++◌, u64_mod, ◌<◌, length}
use uq.Utils.Errors.{ok, err, Result-cases, Result, Error}
use uq.Store.Interface.{Laws, Reliable}
use uq.Queue.Deps.{Deps, World, get_data, set_data}
use uq.Queue.Deps.DataLaws.{get_data-set_data, set_data_ok}
use uq.Queue.Topic.{Topic, little_endian, m_push, m_push_loop, m_push_end, export_tail}
use uq.Queue.Topic.Admin.{recycle_key}
use uq.Queue.Topic.Keys.{key_topic_head, key_topic_tail}
use uq.Queue.Topic.Sound.{IsSound}
use uq.Queue.Topic.Push.{m_push_appends, m_push_rolls_back}
use uq.Queue.Topic.Frame.{NoMessage, Same, m_push_loop-Same, m_push-Same}
use uq.Queue.Topic.Durable.{IsDurable}
use uq.Queue.Topic.Durable.Moves.{
  head-NoMessage, tail-NoMessage, recycle-NoMessage, recycle-ne-tail, head-ne-tail,
  counted-IsDurable,
}

module _ {S : Type 0} (deps : Deps S) (laws : Laws deps.storage)
    (reliable : Reliable deps.storage) where
  m_push_end_tail :
      (t : Topic) (w : World S) (k : Bytes) (p : Result Error (Unit {0}) × Topic × World S)
      → get_data deps k w ≡ ok (little_endian 8 t.tail)
      → Same deps k w p.2
      → p.1.tail_key ≡ k
      → get_data deps k (m_push_end deps t p).2 ≡ ok (little_endian 8 (m_push_end deps t p).1.tail)
  unfolding m_push_end export_tail
  m_push_end_tail t w k (err e, t₁, w₁) before s own = s ∙ before
  m_push_end_tail t w k (ok u, t₁, w₁) before s own =
      let stored : (set_data deps t₁.tail_key (little_endian 8 t₁.tail) w₁).0 ≡ ok tt =
        set_data_ok deps reliable _ _ w₁ in
      rw (stored, m_push_end)
        (subst
          (λ j.
            get_data deps j (set_data deps t₁.tail_key (little_endian 8 t₁.tail) w₁).1
            ≡ ok (little_endian 8 t₁.tail))
          own (get_data-set_data deps laws t₁.tail_key (little_endian 8 t₁.tail) w₁ stored))

  m_push_same :
      (ds : List Bytes) (t : Topic) (w : World S)
      → t.tail + length ds < u64_mod
      → IsSound deps t w
      → ((m_push deps ds t w).1.name ≡ t.name)
        × ((m_push deps ds t w).1.lines ≡ t.lines)
        × ((m_push deps ds t w).1.head ≡ t.head)
  m_push_same ds t w b h = elim (Result-cases (m_push deps ds t w).0) [
    | inl (u, e) ↦
        let a = (m_push_appends deps laws ds t w h.tail_key b e).same in
        (ap (λ x. x.name) (sym a), ap (λ x. x.lines) (sym a), ap (λ x. x.head) (sym a))
    | inr (x, e) ↦
        let a = (m_push_rolls_back deps laws ds t w x h.tail_key b e).0 in
        (ap (λ x. x.name) a, ap (λ x. x.lines) a, ap (λ x. x.head) a)
  ]

  pub m_push-IsDurable :
      (ds : List Bytes) (t : Topic) (w : World S)
      → t.tail + length ds < u64_mod
      → IsSound deps t w
      → IsDurable deps t w
      → IsDurable deps (m_push deps ds t w).1 (m_push deps ds t w).2
  unfolding m_push
  m_push-IsDurable ds t w b s h =
      let (n, ls, hd) = m_push_same ds t w b s in
      let head_free : NoMessage t.name (t.name ++ key_topic_head) = head-NoMessage t.name in
      let tail_free : NoMessage t.name (t.name ++ key_topic_tail) = tail-NoMessage t.name in
      let (kept, own) = m_push_loop-Same deps laws (t.name ++ key_topic_tail) ds t w tail_free in
      counted-IsDurable deps t _ w _ n ls
        (m_push-Same deps laws (t.name ++ key_topic_head) ds t w head_free
            (λ e. head-ne-tail t.name (e ∙ s.tail_key))
          ∙ h.head_stored
          ∙ ap (λ x. ok (little_endian 8 x)) (sym hd))
        (m_push_end_tail t w (t.name ++ key_topic_tail) (m_push_loop deps ds t w) h.tail_stored kept
          (own ∙ s.tail_key))
        (λ name.
          m_push-Same deps laws (recycle_key t.name name) ds t w (recycle-NoMessage t.name name)
            (λ e. recycle-ne-tail t.name name (e ∙ s.tail_key)))
        h
