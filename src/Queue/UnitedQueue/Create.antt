-- ===== src/Queue/UnitedQueue/Create.antt =====
-- queue/uQueue.go: newTopic makes a topic from which all that is said of running topics starts.
use uq.Prelude.{◌≡◌, refl, ap, ◌∙◌, Bytes, [], ◌++◌, Bool, arith, lookup}
use uq.Utils.Errors.{ok}
use uq.Store.Interface.{Laws, Reliable}
use uq.Queue.Deps.{Deps, World, set_data}
use uq.Queue.Deps.DataLaws.{get_data-set_data, set_data_ok}
use uq.Queue.Topic.{Topic, export_head, export_tail, little_endian}
use uq.Queue.Topic.Keys.{key_topic_head, key_topic_tail}
use uq.Queue.Topic.Owned.{KeepsForeign, set_data-Foreign}
use uq.Queue.Topic.Frame.{set_data-Same}
use uq.Queue.Topic.Sound.{IsSound}
use uq.Queue.Topic.Durable.{IsDurable}
use uq.Queue.Topic.Durable.Moves.{head-ne-tail}
use uq.Queue.UnitedQueue.Admin.{blank_topic, new_topic}

module _ {S : Type 0} (deps : Deps S) (name : Bytes) (persist : Bool) where
  blank : Topic
  blank = blank_topic deps name persist

  blank-IsSound : (w : World S) → IsSound deps blank w
  unfolding blank blank_topic lookup
  blank-IsSound w = record {
    head_le = omega arith;
    tail_lt = omega arith;
    head_key = refl;
    tail_key = refl;
    served = λ j l e. absurd (cc e);
    stored = λ i lo hi. absurd (omega (arith, hi));
  }

  module _ (laws : Laws deps.storage) (reliable : Reliable deps.storage) (w : World S) where
    after_head : World S
    after_head = (export_head deps blank w).1

    after_tail : World S
    unfolding after_head
    after_tail = (export_tail deps blank after_head).1

    new_topic_made : new_topic deps name persist w ≡ (ok blank, after_tail)
    unfolding new_topic blank after_tail after_head export_head export_tail
    new_topic_made =
        rw (set_data_ok deps reliable _ _ w) (rw (set_data_ok deps reliable _ _ _) refl)

    blank-IsDurable : IsDurable deps blank after_tail
    unfolding blank blank_topic after_tail after_head export_head export_tail lookup
    blank-IsDurable =
        let w₁ = (set_data deps (name ++ key_topic_head) (little_endian 8 0) w).1 in
        record {
          head_stored =
              set_data-Same deps laws (name ++ key_topic_head) (name ++ key_topic_tail)
                (little_endian 8 0) w₁ (head-ne-tail name)
              ∙ get_data-set_data deps laws (name ++ key_topic_head) (little_endian 8 0) w
                  (set_data_ok deps reliable _ _ w);
          tail_stored =
              get_data-set_data deps laws (name ++ key_topic_tail) (little_endian 8 0) w₁
                (set_data_ok deps reliable _ _ w₁);
          nodup = tt;
          lines = λ j l e. absurd (cc e);
        }

    blank-KeepsForeign : KeepsForeign deps name w after_tail
    unfolding blank blank_topic after_tail after_head export_head export_tail
    blank-KeepsForeign k f =
        set_data-Foreign deps laws name key_topic_tail refl (name ++ key_topic_tail) _ _ refl k f
        ∙ set_data-Foreign deps laws name key_topic_head refl (name ++ key_topic_head) _ w refl k f

module _ {S : Type 0} (deps : Deps S) (laws : Laws deps.storage)
    (reliable : Reliable deps.storage) where
  -- The topic that newTopic returns and the storage that it leaves.
  pub record NewTopic (name : Bytes) (persist : Bool) (w : World S) (t : Topic) (w' : World S)
      : Type 0 where
    pub named : t.name ≡ name
    pub persists : t.persist ≡ persist
    pub no_lines : t.lines ≡ []
    pub sound : IsSound deps t w'
    pub durable : IsDurable deps t w'
    pub apart : KeepsForeign deps name w w'

  -- Over a storage that does not fail, newTopic succeeds with a topic of the given name and persistence
  -- without lines, which is sound and has its head and its tail stored, and it leaves the keys of other
  -- topics alone.
  pub new_topic_lem :
      (name : Bytes) (persist : Bool) (w : World S)
      → (t : Topic) × ((new_topic deps name persist w).0 ≡ ok t)
        × NewTopic name persist w t (new_topic deps name persist w).1
  new_topic_lem name persist w =
      let made = new_topic_made deps name persist laws reliable w in
      (
        blank deps name persist,
        ap (λ r. r.0) made,
        rw made (record {
          named = unfold blank blank_topic in refl;
          persists = unfold blank blank_topic in refl;
          no_lines = unfold blank blank_topic in refl;
          sound = blank-IsSound deps name persist _;
          durable = blank-IsDurable deps name persist laws reliable w;
          apart = blank-KeepsForeign deps name persist laws reliable w;
        }),
      )
