-- ===== src/Queue/UnitedQueue/Recover.antt =====
-- queue/uQueue.go, queue/uTopic.go: exportTopics and loadTopic after any operations of a topic.
use uq.Store.Interface.{Laws, Reliable}
use uq.Queue.Deps.{Deps, World}
use uq.Queue.Topic.{Topic}
use uq.Queue.Topic.Sound.{IsSound}
use uq.Queue.Topic.Reach.{Steps}
use uq.Queue.Topic.Saved.{TopicReadBack}
use uq.Queue.Topic.Saving.{exported, exported-TopicSaved}
use uq.Queue.Topic.Durable.{IsDurable}
use uq.Queue.Topic.Durable.Reach.{PlainSteps, Steps-TopicKept}
use uq.Queue.UnitedQueue.LoadTopic.{TopicLoaded, load_topic_saved}

module _ {S : Type 0} (deps : Deps S) (laws : Laws deps.storage)
    (reliable : Reliable deps.storage) where
  -- Over a storage that does not fail, from a sound topic with its head, its tail and the recycle times
  -- of its lines stored, after any sequence of mPush, pop, mPop, confirm, createLine, removeLine,
  -- emptyLine, empty, backup ticks and clean ticks, and then the exports that Close makes, loadTopic
  -- succeeds and gives back the topic: its name, persistence, head, tail and keys, and under each name
  -- the line from before. The message ids must fit in 64 bits, new lines have plain names, removed
  -- lines the recycle keys of their creation, and the protobuf code gives the records back.
  pub reachable_reload :
      {t : Topic} {w : World S} {t' : Topic} {w' : World S}
      → IsSound deps t w
      → IsDurable deps t w
      → (ss : Steps deps t w t' w') → PlainSteps deps ss
      → TopicReadBack deps t'
      → TopicLoaded deps t' (exported deps t' w')
  reachable_reload {t' = t'} {w' = w'} s d ss p c =
      load_topic_saved deps t' (exported deps t' w') (
        exported-TopicSaved deps laws reliable t' w' c
          (Steps-TopicKept deps laws reliable s d ss p))
