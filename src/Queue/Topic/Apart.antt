-- ===== src/Queue/Topic/Apart.antt =====
-- queue/uTopic.go: the operations of a topic write its own keys only, so that topics are independent.
use uq.Prelude.{
  ◌≡◌, ◌≢◌, refl, sym, ap, subst, ◌∙◌, inl, inr, Bytes, [], ◌∷◌, Bool, Bool-cases, Option-cases, ℤ,
  lookup, without, Dict, append-nil,
}
use uq.Utils.Errors.{Result-cases, Result, Error}
use uq.Store.Interface.{Laws}
use uq.Queue.Line.{Line}
use uq.Queue.Deps.{Deps, World}
use uq.Queue.LineData.{line_store_key}
use uq.Queue.Topic.{
  Topic, Outcome, returns, blocks, message_key, topic_pop, topic_m_pop, topic_confirm, empty_line,
  m_push, export_topic, with_line,
}
use uq.Queue.Topic.Keys.{key_topic_head, key_topic_tail}
use uq.Queue.Topic.Admin.{
  recycle_key, create_line, remove_line, new_line, export_lines, empty_topic, empty_lines,
}
use uq.Queue.Topic.Clean.{backup_tick}
use uq.Queue.Topic.CleanSafe.{clean-Cleaned}
use uq.Queue.Topic.Preserve.{clean_tick_idle, clean_tick_runs}
use uq.Queue.Topic.Sound.{IsSound}
use uq.Queue.Topic.Push.{m_push_appends, m_push_rolls_back}
use uq.Queue.Topic.Reach.{
  Step, pushes, pops, m_pops, confirms, creates, removes, empties, empties_all, backups, cleans,
  Steps, start, onto, Steps-IsSound,
}
use uq.Queue.Topic.Owned.{PlainName, Foreign, Foreign-other, KeepsForeign}
use uq.Queue.Topic.Frame.{
  NoLine, NoMessage, SameReturned, m_push-Same, create_line-Same, remove_line-Same, empty_line-Same,
  export_lines_of-Same,
}
use uq.Queue.Topic.FrameSteps.{clean_tick-Same, empty_topic-Same}

module _ (topic k : Bytes) (f : Foreign topic k) where
  pub foreign_message : NoMessage topic k
  unfolding message_key
  foreign_message i = f _ refl

  pub foreign_line : (name : Bytes) → k ≢ line_store_key topic name
  unfolding line_store_key
  foreign_line name = f _ refl

  pub foreign_recycle : (name : Bytes) → k ≢ recycle_key topic name
  unfolding recycle_key
  foreign_recycle name = f _ refl

  pub foreign_name : k ≢ topic
  foreign_name e = f [] tt (e ∙ sym (append-nil topic))

  pub foreign_lines : (ls : Dict Line) → NoLine topic k ls
  foreign_lines [] = tt
  foreign_lines ((name, l) ∷ ls) = (foreign_line l.name, foreign_lines ls)

-- The topic of a call that returns has the name of before.
abbrev NameReturned :
    {S : Type 0} → Topic → Outcome (Result Error (Unit {0}) × Topic × World S) → Type 0
NameReturned t (returns (r, t', w')) = t'.name ≡ t.name
NameReturned t blocks = Unit {0}

module _ {S : Type 0} (deps : Deps S) where
  create_line_name :
      (name : Bytes) (recycle : ℤ) (from_etcd : Bool) (t : Topic) (w : World S)
      → NameReturned t (create_line deps name recycle from_etcd t w)
  unfolding create_line
  create_line_name name recycle from_etcd t w = elim (Option-cases (lookup name t.lines)) [
    | inr (old, e) ↦ rw (e, create_line) refl
    | inl e ↦ elim (Result-cases (new_line deps name recycle t w).0) [
      | inr (x, f) ↦ rw (e, create_line) (rw f refl)
      | inl (l, f) ↦
          let made =
            export_topic deps (with_line deps name l t) (new_line deps name recycle t w).1 in
          elim (Result-cases made.0) [
            | inr (x, g) ↦ rw (e, create_line) (rw f (rw g tt))
            | inl (u, g) ↦ rw (e, create_line) (rw f (rw g refl))
          ]
    ]
  ]

  remove_line_name :
      (name : Bytes) (from_etcd : Bool) (t : Topic) (w : World S)
      → NameReturned t (remove_line deps name from_etcd t w)
  unfolding remove_line
  remove_line_name name from_etcd t w = elim (Option-cases (lookup name t.lines)) [
    | inl e ↦ rw (e, remove_line) refl
    | inr (l, e) ↦
        let made = export_topic deps (record t { lines = without name t.lines }) w in
        elim (Result-cases made.0) [
          | inr (x, f) ↦ rw (e, remove_line) (rw f tt)
          | inl (u, f) ↦ rw (e, remove_line) (rw f refl)
        ]
  ]

module _ {S : Type 0} (deps : Deps S) (laws : Laws deps.storage) where
  -- A step keeps the name of the topic.
  Step-name :
      {t : Topic} {w : World S} {t' : Topic} {w' : World S}
      → IsSound deps t w
      → Step deps t w t' w'
      → t'.name ≡ t.name
  unfolding topic_pop topic_m_pop topic_confirm empty_line empty_topic
  Step-name {t = t} {w = w} h (pushes ds b) = elim (Result-cases (m_push deps ds t w).0) [
    | inl (u, e) ↦ ap (λ x. x.name) (sym (m_push_appends deps laws ds t w h.tail_key b e).same)
    | inr (x, e) ↦ ap (λ x. x.name) (m_push_rolls_back deps laws ds t w x h.tail_key b e).0
  ]
  Step-name {t = t} {w = w} h (pops name now) = elim (Option-cases (lookup name t.lines)) [
    | inl e ↦ rw (e, topic_pop) refl
    | inr (l, e) ↦ rw (e, topic_pop) refl
  ]
  Step-name {t = t} {w = w} h (m_pops name n now) = elim (Option-cases (lookup name t.lines)) [
    | inl e ↦ rw (e, topic_m_pop) refl
    | inr (l, e) ↦ rw (e, topic_m_pop) refl
  ]
  Step-name {t = t} {w = w} h (confirms name id) = elim (Option-cases (lookup name t.lines)) [
    | inl e ↦ rw (e, topic_confirm) refl
    | inr (l, e) ↦ rw (e, topic_confirm) refl
  ]
  Step-name {t = t} {w = w} h (creates name recycle from_etcd r t' w' e) =
      subst (NameReturned t) e (create_line_name deps name recycle from_etcd t w)
  Step-name {t = t} {w = w} h (removes name from_etcd r t' w' e own) =
      subst (NameReturned t) e (remove_line_name deps name from_etcd t w)
  Step-name {t = t} {w = w} h (empties name) = elim (Option-cases (lookup name t.lines)) [
    | inl e ↦ rw (e, empty_line) refl
    | inr (l, e) ↦ rw (e, empty_line) refl
  ]
  Step-name {t = t} {w = w} h empties_all =
      elim (Result-cases (empty_lines deps t.name t.tail t.lines w).0) [
        | inr (x, e) ↦ rw (empty_topic, e) refl
        | inl (u, e) ↦ rw (empty_topic, e) refl
      ]
  Step-name h backups = refl
  Step-name {t = t} {w = w} h (cleans polls) = elim (Bool-cases t.persist) [
    | inl p ↦ rw (clean_tick_idle deps laws polls t w p) refl
    | inr p ↦ rw (clean_tick_runs deps laws polls t w p) (
        ap (λ x. x.name)
          (sym (clean-Cleaned deps laws polls t w h.head_key h.head_le h.tail_lt).same))
  ]

  Step-KeepsForeign :
      {t : Topic} {w : World S} {t' : Topic} {w' : World S}
      → IsSound deps t w
      → Step deps t w t' w'
      → KeepsForeign deps t.name w w'
  Step-KeepsForeign {t = t} {w = w} h (pushes ds b) k f =
      m_push-Same deps laws k ds t w (foreign_message t.name k f)
        (λ e. f key_topic_tail refl (e ∙ h.tail_key))
  Step-KeepsForeign h (pops name now) k f = refl
  Step-KeepsForeign h (m_pops name n now) k f = refl
  Step-KeepsForeign h (confirms name id) k f = refl
  Step-KeepsForeign {t = t} {w = w} h (creates name recycle from_etcd r t' w' e) k f =
      subst (SameReturned deps k w) e (
        create_line-Same deps laws k name recycle from_etcd t w (foreign_line t.name k f name)
          (foreign_recycle t.name k f name) (foreign_name t.name k f))
  Step-KeepsForeign {t = t} {w = w} h (removes name from_etcd r t' w' e own) k f =
      subst (SameReturned deps k w) e (
        remove_line-Same deps laws k name from_etcd t w
          (λ l there. (
            foreign_line t.name k f l.name,
            λ same. foreign_recycle t.name k f l.name (same ∙ own l there),
          ))
          (foreign_name t.name k f))
  Step-KeepsForeign {t = t} {w = w} h (empties name) k f =
      empty_line-Same deps laws k name t w (λ l there. foreign_line t.name k f l.name)
  Step-KeepsForeign {t = t} {w = w} h empties_all k f =
      empty_topic-Same deps laws k t w (foreign_lines t.name k f t.lines)
        (λ e. f key_topic_head refl (e ∙ h.head_key))
  Step-KeepsForeign {t = t} {w = w} h backups k f =
      unfold backup_tick export_lines in
      export_lines_of-Same deps laws k t.name t.lines w (foreign_lines t.name k f t.lines)
  Step-KeepsForeign {t = t} {w = w} h (cleans polls) k f =
      clean_tick-Same deps laws k polls t w (foreign_message t.name k f)
        (λ e. f key_topic_head refl (e ∙ h.head_key))

  pub Steps-name :
      {t : Topic} {w : World S} {t' : Topic} {w' : World S}
      → IsSound deps t w
      → Steps deps t w t' w'
      → t'.name ≡ t.name
  Steps-name h start = refl
  Steps-name h (onto t' w' t'' w'' ss s) =
      Step-name (Steps-IsSound deps laws h ss) s ∙ Steps-name h ss

  -- From a sound topic, any sequence of mPush, pop, mPop, confirm, createLine, removeLine, emptyLine,
  -- empty, backup ticks and clean ticks, with ids below 2 ^ 64 and removed lines with the recycle keys
  -- of their creation, leaves every key of the storage as it was that is neither the topic's name nor
  -- the name followed by a colon or a slash, whatever fails.
  pub Steps-KeepsForeign :
      {t : Topic} {w : World S} {t' : Topic} {w' : World S}
      → IsSound deps t w
      → Steps deps t w t' w'
      → KeepsForeign deps t.name w w'
  Steps-KeepsForeign h start k f = refl
  Steps-KeepsForeign h (onto t' w' t'' w'' ss s) k f =
      Step-KeepsForeign (Steps-IsSound deps laws h ss) s k
        (subst (λ n. Foreign n k) (sym (Steps-name h ss)) f)
      ∙ Steps-KeepsForeign h ss k f

  -- Of two sound topics over one storage, with different names that have neither a colon nor a slash,
  -- the one stays sound whatever sequence of those operations the other goes through.
  pub Steps-IsSound_other :
      {t : Topic} {w : World S} {t' : Topic} {w' : World S} (other : Topic)
      → PlainName t.name
      → PlainName other.name
      → t.name ≢ other.name
      → IsSound deps t w
      → IsSound deps other w
      → Steps deps t w t' w'
      → IsSound deps other w'
  unfolding message_key
  Steps-IsSound_other {t = t} other p q ne h o ss = record {
    head_le = o.head_le;
    tail_lt = o.tail_lt;
    head_key = o.head_key;
    tail_key = o.tail_key;
    served = o.served;
    stored = λ i lo hi.
        let (d, s) = o.stored i lo hi in
        (
          d,
          Steps-KeepsForeign h ss (message_key other.name i)
                (Foreign-other t.name other.name _ p q ne refl)
              ∙ s,
        );
  }
