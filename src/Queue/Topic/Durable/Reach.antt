-- ===== src/Queue/Topic/Durable/Reach.antt =====
-- queue/uTopic.go, queue/uQueue.go: after any operations a restart finds the topic as it was.
use uq.Prelude.{◌≢◌, refl, sym, subst, inl, inr, Bytes, lookup, Option-cases}
use uq.Store.Interface.{Laws, Reliable}
use uq.Queue.Line.Identity.{pop-SameIdentity, m_pop-SameIdentity, confirm-SameIdentity}
use uq.Queue.Deps.{Deps, World}
use uq.Queue.LineData.{emptied, empty, export_line, line_store_key}
use uq.Queue.Topic.{Topic, topic_data, topic_pop, topic_m_pop, topic_confirm, empty_line, with_line}
use uq.Queue.Topic.Admin.{export_lines}
use uq.Queue.Topic.Clean.{backup_tick}
use uq.Queue.Topic.Owned.{PlainName}
use uq.Queue.Topic.Sound.{IsSound}
use uq.Queue.Topic.Frame.{NoLine, Same, export_lines_of-Same, export_line-Same}
use uq.Queue.Topic.Reach.{
  Step, pushes, pops, m_pops, confirms, creates, removes, empties, empties_all, backups, cleans,
  Steps, start, onto, Steps-IsSound,
}
use uq.Queue.Topic.Saved.{KeepsRunning, TopicKept}
use uq.Queue.Topic.LineKeys.{NoLine-each, head-ne-line, tail-ne-line, line_key-ne-recycle}
use uq.Queue.Topic.Durable.{IsDurable, IsDurable-moved, IsDurable-TopicKept, with_line-IsDurable}
use uq.Queue.Topic.Durable.Push.{m_push-IsDurable}
use uq.Queue.Topic.Durable.Clean.{clean_tick-IsDurable}
use uq.Queue.Topic.Durable.Empty.{empty_topic-IsDurable}
use uq.Queue.Topic.Durable.Lines.{create_line-IsDurable, remove_line-IsDurable}

module _ {S : Type 0} (deps : Deps S) where
  -- A line that the step creates has a plain name.
  abbrev pub PlainStep :
      {t : Topic} {w : World S} {t' : Topic} {w' : World S} → Step deps t w t' w' → Type 0
  PlainStep (creates name recycle from_etcd r t' w' e) = PlainName name
  PlainStep _ = Unit {0}

  abbrev pub PlainSteps :
      {t : Topic} {w : World S} {t' : Topic} {w' : World S} → Steps deps t w t' w' → Type 0
  PlainSteps start = Unit {0}
  PlainSteps (onto t' w' t'' w'' ss s) = PlainSteps ss × PlainStep s

module _ {S : Type 0} (deps : Deps S) (laws : Laws deps.storage)
    (reliable : Reliable deps.storage) where
  kept_lines :
      (t : Topic) (w w' : World S)
      → ((k : Bytes) → NoLine t.name k t.lines → Same deps k w w')
      → IsDurable deps t w
      → KeepsRunning deps t w w'
  unfolding KeepsRunning
  kept_lines t w w' k h = (
    k _ (NoLine-each t.name _ t.lines h.nodup (λ j l e. head-ne-line t.name l.name)),
    k _ (NoLine-each t.name _ t.lines h.nodup (λ j l e. tail-ne-line t.name l.name)),
    λ j l e. k _ (
        NoLine-each t.name _ t.lines h.nodup (λ i x f.
          let o = h.lines i x f in
          line_key-ne-recycle t.name x.name j (subst PlainName (sym o.named) o.plain))),
  )

  empty_line-IsDurable :
      (name : Bytes) (t : Topic) (w : World S)
      → IsDurable deps t w
      → IsDurable deps (empty_line deps name t w).1 (empty_line deps name t w).2
  unfolding empty_line empty emptied KeepsRunning
  empty_line-IsDurable name t w h = elim (Option-cases (lookup name t.lines)) [
    | inl e ↦ rw (e, empty_line) h
    | inr (l, e) ↦
        let o = h.lines name l e in
        let l' = emptied deps t.tail l in
        let kept = λ (k : Bytes) (ne : k ≢ line_store_key t.name l.name).
          export_line-Same deps laws k t.name l' w ne in
        rw (e, empty_line)
          (IsDurable-moved deps (with_line deps name l' t) w (export_line deps t.name l' w).1
            (
              kept _ (head-ne-line t.name l.name),
              kept _ (tail-ne-line t.name l.name),
              λ j x f.
                  kept _
                    (line_key-ne-recycle t.name l.name j (subst PlainName (sym o.named) o.plain)),
            )
            (with_line-IsDurable deps name l l' t w e (refl, refl, refl) h))
  ]

  Step-IsDurable :
      {t : Topic} {w : World S} {t' : Topic} {w' : World S}
      → IsSound deps t w
      → IsDurable deps t w
      → (s : Step deps t w t' w') → PlainStep deps s
      → IsDurable deps t' w'
  unfolding topic_pop topic_m_pop topic_confirm empty_line
  Step-IsDurable {t = t} {w = w} s h (pushes ds b) p =
      m_push-IsDurable deps laws reliable ds t w b s h
  Step-IsDurable {t = t} {w = w} s h (pops name now) p = elim (Option-cases (lookup name t.lines)) [
    | inl e ↦ rw (e, topic_pop) h
    | inr (l, e) ↦
        rw (e, topic_pop)
          (with_line-IsDurable deps name l _ t w e
            (pop-SameIdentity (topic_data deps t w) t.tail now l) h)
  ]
  Step-IsDurable {t = t} {w = w} s h (m_pops name n now) p =
      elim (Option-cases (lookup name t.lines)) [
        | inl e ↦ rw (e, topic_m_pop) h
        | inr (l, e) ↦
            rw (e, topic_m_pop)
              (with_line-IsDurable deps name l _ t w e
                (m_pop-SameIdentity (topic_data deps t w) t.tail now n l) h)
      ]
  Step-IsDurable {t = t} {w = w} s h (confirms name id) p =
      elim (Option-cases (lookup name t.lines)) [
        | inl e ↦ rw (e, topic_confirm) h
        | inr (l, e) ↦
            rw (e, topic_confirm)
              (with_line-IsDurable deps name l _ t w e (confirm-SameIdentity id l) h)
      ]
  Step-IsDurable s h (creates name recycle from_etcd r t' w' e) p =
      create_line-IsDurable deps laws reliable name recycle from_etcd _ _ r t' w' e p h
  Step-IsDurable s h (removes name from_etcd r t' w' e own) p =
      remove_line-IsDurable deps laws reliable name from_etcd _ _ r t' w' e h
  Step-IsDurable {t = t} {w = w} s h (empties name) p = empty_line-IsDurable name t w h
  Step-IsDurable {t = t} {w = w} s h empties_all p =
      empty_topic-IsDurable deps laws reliable t w s h
  Step-IsDurable {t = t} {w = w} s h backups p =
      unfold backup_tick export_lines in
      IsDurable-moved deps t w _
        (kept_lines t w _ (λ k ne. export_lines_of-Same deps laws k t.name t.lines w ne) h) h
  Step-IsDurable {t = t} {w = w} s h (cleans polls) p =
      clean_tick-IsDurable deps laws reliable polls t w s h

  pub Steps-IsDurable :
      {t : Topic} {w : World S} {t' : Topic} {w' : World S}
      → IsSound deps t w
      → IsDurable deps t w
      → (ss : Steps deps t w t' w') → PlainSteps deps ss
      → IsDurable deps t' w'
  Steps-IsDurable s h start p = h
  Steps-IsDurable s h (onto t' w' t'' w'' ss step) (p, q) =
      Step-IsDurable (Steps-IsSound deps laws s ss) (Steps-IsDurable s h ss p) step q

  -- Over a storage that does not fail, from a sound topic with its head, its tail and the recycle times
  -- of its lines stored, any sequence of mPush, pop, mPop, confirm, createLine, removeLine, emptyLine,
  -- empty, backup ticks and clean ticks leaves a topic that is valid and has its head, its tail and the
  -- recycle times of its lines stored, each line under its own key. The message ids must fit in 64 bits,
  -- the new lines have plain names, and the removed ones the recycle keys of their creation.
  pub Steps-TopicKept :
      {t : Topic} {w : World S} {t' : Topic} {w' : World S}
      → IsSound deps t w
      → IsDurable deps t w
      → (ss : Steps deps t w t' w') → PlainSteps deps ss
      → TopicKept deps t' w'
  Steps-TopicKept s h ss p =
      IsDurable-TopicKept deps (Steps-IsSound deps laws s ss) (Steps-IsDurable s h ss p)
