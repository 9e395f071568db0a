-- ===== src/Queue/Topic/Reach.antt =====
-- The operations of a topic as steps, and what holds after any number of them.
use uq.Prelude.{
  ℤ, Bool, ℕ, ◌+◌, ◌<◌, ◌≡◌, refl, ◌∙◌, Bytes, List, true, some, u64_mod, length, lookup,
}
use uq.Utils.Errors.{Result, Error, ok}
use uq.Store.Interface.{Laws}
use uq.Queue.Line.{Line, pop}
use uq.Queue.Line.Deliver.{is_ready, pop_ready}
use uq.Queue.Deps.{Deps, World}
use uq.Queue.Topic.{
  Topic, topic_data, topic_pop, topic_m_pop, topic_confirm, empty_line, returns, m_push,
}
use uq.Queue.Topic.Clean.{Poll, clean_tick, backup_tick}
use uq.Queue.Topic.Sound.{IsSound, IsSound-Readable}
use uq.Queue.Topic.Preserve.{pop_keeps, m_pop_keeps, confirm_keeps, push_keeps, clean_keeps}
use uq.Queue.Topic.Keep.{create_line-IsSound, empty_line-IsSound, export_lines-IsSound}
use uq.Queue.Topic.Admin.{create_line, remove_line, empty_topic}
use uq.Queue.Topic.Removal.{OwnKey, remove_line-IsSound}
use uq.Queue.Topic.Empty.{empty_topic-IsSound}

module _ {S : Type 0} (deps : Deps S) where
  -- One step of a topic: mPush, pop, mPop, confirm, createLine or removeLine that returns, emptyLine,
  -- empty, or a tick of the backup timer or of the clean timer. The message ids of a push must fit in
  -- 64 bits, and a line that is removed must have the recycle key that createLine gave it.
  pub data Step (t : Topic) (w : World S) : Topic → World S → Type 0 where
    pushes :
        (ds : List Bytes)
        → t.tail + length ds < u64_mod
        → Step t w (m_push deps ds t w).1 (m_push deps ds t w).2
    pops : (name : Bytes) (now : ℕ) → Step t w (topic_pop deps name now t w).1 w
    m_pops : (name : Bytes) (n now : ℕ) → Step t w (topic_m_pop deps name n now t w).1 w
    confirms : (name : Bytes) (id : ℕ) → Step t w (topic_confirm name id t).1 w
    creates :
        (name : Bytes) (recycle : ℤ) (from_etcd : Bool) (r : Result Error (Unit {0})) (t' : Topic)
        (w' : World S)
        → create_line deps name recycle from_etcd t w ≡ returns (r, t', w')
        → Step t w t' w'
    removes :
        (name : Bytes) (from_etcd : Bool) (r : Result Error (Unit {0})) (t' : Topic) (w' : World S)
        → remove_line deps name from_etcd t w ≡ returns (r, t', w')
        → ((l : Line) → lookup name t.lines ≡ some l → OwnKey t l)
        → Step t w t' w'
    empties : (name : Bytes) → Step t w (empty_line deps name t w).1 (empty_line deps name t w).2
    empties_all : Step t w (empty_topic deps t w).1 (empty_topic deps t w).2
    backups : Step t w t (backup_tick deps t w)
    cleans :
        (polls : ℕ → Poll) → Step t w (clean_tick deps polls t w).0 (clean_tick deps polls t w).1

  pub data Steps (t : Topic) (w : World S) : Topic → World S → Type 0 where
    start : Steps t w t w
    onto :
        (t' : Topic) (w' : World S) (t'' : Topic) (w'' : World S)
        → Steps t w t' w'
        → Step t' w' t'' w''
        → Steps t w t'' w''

module _ {S : Type 0} (deps : Deps S) (laws : Laws deps.storage) where
  Step-IsSound :
      {t : Topic} {w : World S} {t' : Topic} {w' : World S}
      → IsSound deps t w
      → Step deps t w t' w'
      → IsSound deps t' w'
  Step-IsSound {t = t} {w = w} h (pushes ds b) = push_keeps deps laws ds t w b h
  Step-IsSound {t = t} {w = w} h (pops name now) = pop_keeps deps name now t w h
  Step-IsSound {t = t} {w = w} h (m_pops name n now) = m_pop_keeps deps name n now t w h
  Step-IsSound {t = t} {w = w} h (confirms name id) = confirm_keeps deps name id t w h
  Step-IsSound h (creates name recycle from_etcd r t' w' e) =
      create_line-IsSound deps laws name recycle from_etcd _ _ r t' w' e h
  Step-IsSound h (removes name from_etcd r t' w' e own) =
      remove_line-IsSound deps laws name from_etcd _ _ r t' w' e own h
  Step-IsSound {t = t} {w = w} h (empties name) = empty_line-IsSound deps laws name t w h
  Step-IsSound {t = t} {w = w} h empties_all = empty_topic-IsSound deps laws t w h
  Step-IsSound {t = t} {w = w} h backups =
      unfold backup_tick in export_lines-IsSound deps laws t w h
  Step-IsSound {t = t} {w = w} h (cleans polls) = clean_keeps deps laws polls t w h

  -- Soundness of a topic survives any sequence of mPush, pop, mPop, confirm, createLine, removeLine,
  -- emptyLine, empty, backup ticks and clean ticks, whatever fails in them, as long as the message ids
  -- fit in 64 bits and a removed line has the recycle key of its creation.
  pub Steps-IsSound :
      {t : Topic} {w : World S} {t' : Topic} {w' : World S}
      → IsSound deps t w
      → Steps deps t w t' w'
      → IsSound deps t' w'
  Steps-IsSound h start = h
  Steps-IsSound h (onto t' w' t'' w'' ss s) = Step-IsSound (Steps-IsSound h ss) s

  topic_pop_hit :
      (name : Bytes) (now : ℕ) (t : Topic) (w : World S) (l : Line)
      → lookup name t.lines ≡ some l
      → (topic_pop deps name now t w).0 ≡ (pop (topic_data deps t w) t.tail now l).0
  unfolding topic_pop
  topic_pop_hit name now t w l e = rw (e, topic_pop) refl

  -- After any sequence of mPush, pop, mPop, confirm, createLine, removeLine, emptyLine, empty,
  -- backup ticks and clean ticks from a sound topic, with ids below 2 ^ 64, removed lines with the
  -- recycle keys of their creation, and failures included, a pop on a line that has a
  -- due or a next message returns one: what a line may still ask for was never cleaned away.
  pub reachable_pop :
      {t : Topic} {w : World S} {t' : Topic} {w' : World S} (name : Bytes) (now : ℕ) (l : Line)
      → IsSound deps t w
      → Steps deps t w t' w'
      → lookup name t'.lines ≡ some l
      → is_ready t'.tail now l ≡ true
      → (id : ℕ) × (d : Bytes) × ((topic_pop deps name now t' w').0 ≡ ok (id, d))
  reachable_pop {t' = t'} {w' = w'} name now l h ss e y =
      let h' = Steps-IsSound h ss in
      let (id, d, r) =
        pop_ready (topic_data deps t' w') now (h'.served name l e).valid
          (IsSound-Readable name l h' e) y in
      (id, d, topic_pop_hit name now t' w' l e ∙ r)
