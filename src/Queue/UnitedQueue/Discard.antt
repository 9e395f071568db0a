-- ===== src/Queue/UnitedQueue/Discard.antt =====
-- queue/uTopic.go: remove of a topic, which keeps to the keys of the topic.
use uq.Prelude.{
  ℕ, zero, suc, ◌-◌, ◌≡◌, refl, ◌∙◌, Bytes, [], ◌∷◌, some, lookup, lookup-tail, bytes_eq_refl, Dict,
  NodupKeys,
}
use uq.Store.Interface.{Laws}
use uq.Queue.Line.{Line}
use uq.Queue.Deps.{Deps, World}
use uq.Queue.Topic.{Topic}
use uq.Queue.Topic.Admin.{recycle_key, remove_topic, remove_lines_of, remove_messages}
use uq.Queue.Topic.Keys.{key_topic_head, key_topic_tail}
use uq.Queue.Topic.Owned.{KeepsForeign}
use uq.Queue.Topic.Frame.{remove-Same, del_data-Same}
use uq.Queue.Topic.Sound.{IsSound}
use uq.Queue.Topic.Apart.{foreign_message, foreign_line, foreign_recycle, foreign_name}
use uq.Queue.Topic.Durable.{IsDurable}

module _ {S : Type 0} (deps : Deps S) (laws : Laws deps.storage) where
  remove_lines_of-KeepsForeign :
      (topic : Bytes) (ls : Dict Line) (w : World S)
      → NodupKeys ls
      → ((name : Bytes) (l : Line)
          → lookup name ls ≡ some l
          → l.recycle_key ≡ recycle_key topic l.name)
      → KeepsForeign deps topic w (remove_lines_of deps topic ls w)
  unfolding remove_lines_of lookup
  remove_lines_of-KeepsForeign topic [] w u own k f = refl
  remove_lines_of-KeepsForeign topic ((name, l) ∷ ls) w (fresh, u) own k f =
      remove_lines_of-KeepsForeign topic ls _ u
        (λ j y e. own j y (lookup-tail name j l y ls fresh e)) k f
      ∙ remove-Same deps laws k topic l w (foreign_line topic k f l.name) (λ same.
        foreign_recycle topic k f l.name (same ∙ own name l (rw (bytes_eq_refl name) refl)))

  remove_messages-KeepsForeign :
      (n id : ℕ) (topic : Bytes) (w : World S)
      → KeepsForeign deps topic w (remove_messages deps n id topic w)
  unfolding remove_messages
  remove_messages-KeepsForeign zero id topic w k f = refl
  remove_messages-KeepsForeign (suc n) id topic w k f =
      remove_messages-KeepsForeign n _ topic _ k f
      ∙ del_data-Same deps laws k _ w (foreign_message topic k f id)

  -- remove deletes keys of the topic only.
  pub remove_topic-KeepsForeign :
      (t : Topic) (w : World S)
      → IsSound deps t w
      → IsDurable deps t w
      → KeepsForeign deps t.name w (remove_topic deps t w).1
  unfolding remove_topic
  remove_topic-KeepsForeign t w s d k f =
      remove_messages-KeepsForeign (t.tail - t.head) t.head t.name _ k f
      ∙ del_data-Same deps laws k t.name _ (foreign_name t.name k f)
      ∙ del_data-Same deps laws k t.tail_key _ (λ e. f key_topic_tail refl (e ∙ s.tail_key))
      ∙ del_data-Same deps laws k t.head_key _ (λ e. f key_topic_head refl (e ∙ s.head_key))
      ∙ remove_lines_of-KeepsForeign t.name t.lines w d.nodup (λ j l e. (d.lines j l e).own) k f
