-- ===== src/Queue/UnitedQueue/Reload.antt =====
-- queue/uQueue.go: NewUnitedQueue on the storage that Close has left.
use uq.Prelude.{
  ℕ, ◌≡◌, ◌≢◌, refl, subst, ◌∙◌, inl, inr, Bytes, List, [], ◌∷◌, ◌++◌, Option, some, none, arith,
  lookup, lookup-insert, NodupKeys, Dict, bytes_eq_refl, bytes_eq, eq_of_bytes_eq, Bool, true,
  false, ◌||◌, Bool-cases,
}
use uq.Utils.Errors.{Result, Error, ok, err}
use uq.Queue.Deps.{Deps, World, get_data}
use uq.Queue.Topic.{Topic}
use uq.Queue.Topic.Saved.{TopicSaved, KeepsOwn-TopicSaved}
use uq.Queue.UnitedQueue.{UnitedQueue, with_topic}
use uq.Queue.UnitedQueue.Admin.{storage_key_word}
use uq.Queue.UnitedQueue.Load.{loads, load_topics}
use uq.Queue.UnitedQueue.LoadTopic.{TopicRestored, load_topic_saved}
use uq.Queue.UnitedQueue.SaveAll.{IsRunning}

abbrev pub contains : Bytes → List Bytes → Bool
contains name [] = false
contains name (x ∷ xs) = bytes_eq name x || contains name xs

abbrev pub is_there : Option Topic → Bool
is_there none = false
is_there (some t) = true

-- What stands under the queue's key, which loadQueue reads as the names: nothing, an empty record, or
-- one that the protobuf code takes.
pub data NamesStored {S : Type 0} (deps : Deps S) : Result Error Bytes → List Bytes → Type 0 where
  never : (e : Error) → NamesStored deps (err e) []
  empty : NamesStored deps (ok []) []
  written :
      (b : ℕ) (bs : Bytes) (names : List Bytes)
      → deps.unmarshal_queue (b ∷ bs) ≡ ok (record { topics = names })
      → NamesStored deps (ok (b ∷ bs)) names

-- A running queue: its topics, and the record of their names.
pub record QueueKept {S : Type 0} (deps : Deps S) (u : UnitedQueue) (w : World S) : Type 0 where
  pub nodup : NodupKeys u.topics
  pub running : (name : Bytes) (t : Topic) → lookup name u.topics ≡ some t → IsRunning deps name t w
  pub apart : (name : Bytes) (t : Topic) → lookup name u.topics ≡ some t → name ≢ storage_key_word
  pub names : List Bytes
  pub stored : NamesStored deps (get_data deps storage_key_word w) names
  pub listed : (name : Bytes) → contains name names ≡ is_there (lookup name u.topics)

-- The topic under a name before and after a restart.
abbrev pub RestoredAt : Option Topic → Option Topic → Type 0
RestoredAt none none = Unit {0}
RestoredAt (some t) (some t') = TopicRestored t t'
RestoredAt none (some t') = ⊥
RestoredAt (some t) none = ⊥

module _ {S : Type 0} (deps : Deps S) where
  -- A topic that loadQueue finds under its name.
  pub record IsFound (name : Bytes) (t : Topic) (w : World S) : Type 0 where
    pub named : t.name ≡ name
    pub saved : TopicSaved deps t w

  -- The queue after the loop of loadQueue over `names`.
  pub record TopicsLoaded (ts : Dict Topic) (names : List Bytes) (u : UnitedQueue) (w : World S)
      : Type 0 where
    pub queue : UnitedQueue
    pub world : World S
    pub loaded : load_topics deps names u w ≡ loads (queue, world)
    pub found :
        (j : Bytes) → contains j names ≡ true → RestoredAt (lookup j ts) (lookup j queue.topics)
    pub others : (j : Bytes) → contains j names ≡ false → lookup j queue.topics ≡ lookup j u.topics

  load_topics_step :
      (t : Topic) (names : List Bytes) (u : UnitedQueue) (w : World S) (s : TopicSaved deps t w)
      → load_topics deps (t.name ∷ names) u w
        ≡ load_topics deps names
            (with_topic t.name (load_topic_saved deps t w s).topic u)
            (load_topic_saved deps t w s).world
  unfolding load_topics
  load_topics_step t names u w s =
      rw s.topic_stored (rw s.topic_read (rw (load_topic_saved deps t w s).loaded refl))

  pub load_topics_saved :
      (ts : Dict Topic) (names : List Bytes) (u : UnitedQueue) (w : World S)
      → ((name : Bytes)
          → contains name names ≡ true
          → (t : Topic) × (lookup name ts ≡ some t) × IsFound name t w)
      → TopicsLoaded ts names u w
  load_topics_saved ts [] u w h = record {
    queue = u;
    world = w;
    loaded = unfold load_topics in refl;
    found = λ j e. absurd (cc e);
    others = λ j e. refl;
  }
  load_topics_saved ts (n ∷ names) u w h =
      let (t, there, found) = h n (ground (arith, bytes_eq_refl n)) in
      let l = load_topic_saved deps t w found.saved in
      let u₁ = with_topic t.name l.topic u in
      let r = load_topics_saved ts names u₁ l.world (λ j c.
        let (y, e, f) = h j (ground (arith, c)) in
        (
          y,
          e,
          record {
            named = f.named;
            saved = KeepsOwn-TopicSaved deps y w l.world (λ s m. l.same (y.name ++ s)) f.saved;
          },
        )) in
      record {
        queue = r.queue;
        world = r.world;
        loaded =
            subst (λ m. load_topics deps (m ∷ names) u w ≡ load_topics deps names u₁ l.world)
              found.named (load_topics_step t names u w found.saved)
            ∙ r.loaded;
        found = λ j e. elim (Bool-cases (contains j names)) [
          | inl c ↦ r.found j c
          | inr c ↦
              let same : j ≡ n = eq_of_bytes_eq j n (ground (arith, e, c)) in
              let before : lookup j ts ≡ some t = rw same there in
              let named : bytes_eq j t.name ≡ true = rw (same, found.named) (bytes_eq_refl n) in
              let after : lookup j r.queue.topics ≡ some l.topic =
                r.others j c ∙ lookup-insert t.name j l.topic u.topics ∙ (rw named refl) in
              rw (before, after) l.restores
        ];
        others = λ j e.
            let rest : contains j names ≡ false = ground (arith, e) in
            let other : bytes_eq j t.name ≡ false = rw found.named (ground (arith, e)) in
            r.others j rest ∙ lookup-insert t.name j l.topic u.topics ∙ (rw other refl);
      }
