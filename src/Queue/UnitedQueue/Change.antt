-- ===== src/Queue/UnitedQueue/Change.antt =====
-- queue/uQueue.go: exportQueue writes the names of the topics and nothing else.
use uq.Prelude.{
  ◌≡◌, ◌≢◌, refl, sym, ap, subst, ◌∙◌, inl, inr, Bytes, List, [], ◌∷◌, ◌++◌, map, Bool, false, some,
  arith, lookup, NodupKeys, Dict, bytes_eq, Bool-cases, append-nil, if◌then◌else◌, bytes_eq_ne,
}
use uq.Utils.Errors.{ok}
use uq.Store.Interface.{Laws, Reliable}
use uq.Queue.Deps.{Deps, World, get_data, set_data, register_topic, unregister_topic}
use uq.Queue.Deps.DataLaws.{
  get_data-set_data, get_data-set_data_ne, set_data_ok, get_data-register_topic,
  get_data-unregister_topic,
}
use uq.Queue.Topic.{Topic}
use uq.Queue.Topic.Owned.{PlainName, Foreign, Foreign-other, KeepsForeign, Marked}
use uq.Queue.UnitedQueue.{UnitedQueue}
use uq.Queue.UnitedQueue.Admin.{storage_key_word, export_queue}
use uq.Queue.UnitedQueue.Reload.{contains, is_there, NamesStored}
use uq.Queue.UnitedQueue.Restart.{storage_key_word-PlainName}
use uq.Queue.UnitedQueue.Whole.{TopicSound, TopicSound-moved, QueueSound}

-- The names that genQueueStore lists.
abbrev pub names_of : Dict Topic → List Bytes
names_of = map (λ ((name, t) : Bytes × Topic). name)

contains-names_of :
    (j : Bytes) (ts : Dict Topic) → contains j (names_of ts) ≡ is_there (lookup j ts)
unfolding lookup
contains-names_of j [] = refl
contains-names_of j ((name, t) ∷ ts) = ground (arith, contains-names_of j ts)

module _ {S : Type 0} (deps : Deps S) where
  -- The protobuf code writes the names so that loadQueue reads them.
  pub record NamesReadBack (names : List Bytes) : Type 0 where
    pub bytes : Bytes
    pub wrote : deps.marshal_queue (record { topics = names }) ≡ ok bytes
    pub reads : NamesStored deps (ok bytes) names

module _ {S : Type 0} (deps : Deps S) (laws : Laws deps.storage)
    (reliable : Reliable deps.storage) where
  pub export_queue_done :
      (u : UnitedQueue) (w : World S) (b : NamesReadBack deps (names_of u.topics))
      → export_queue deps u w ≡ (ok tt, (set_data deps storage_key_word b.bytes w).1)
  unfolding export_queue
  export_queue_done u w b = rw (b.wrote) (
      ap (λ r. (r, (set_data deps storage_key_word b.bytes w).1))
        (set_data_ok deps reliable storage_key_word b.bytes w))

  -- The names are stored, and the topics keep their keys.
  pub recorded :
      (u : UnitedQueue) (w w' : World S) (b : NamesReadBack deps (names_of u.topics))
      → NodupKeys u.topics
      → get_data deps storage_key_word w' ≡ ok b.bytes
      → ((name : Bytes) (t : Topic) → lookup name u.topics ≡ some t → TopicSound deps name t w')
      → QueueSound deps u w'
  recorded u w w' b nodup stored ts = record {
    nodup = nodup;
    topics = ts;
    names = names_of u.topics;
    stored = subst (λ r. NamesStored deps r (names_of u.topics)) (sym stored) b.reads;
    listed = λ j. contains-names_of j u.topics;
  }

  pub storage_key_word-Foreign :
      (name : Bytes) → PlainName name → name ≢ storage_key_word → Foreign name storage_key_word
  storage_key_word-Foreign name p ne =
      subst (Foreign name) (append-nil storage_key_word)
        (Foreign-other name storage_key_word [] p storage_key_word-PlainName ne tt)

  pub key_word_not_own :
      (name s : Bytes)
      → PlainName name
      → name ≢ storage_key_word
      → Marked s
      → bytes_eq (name ++ s) storage_key_word ≡ false
  key_word_not_own name s p ne m =
      bytes_eq_ne _ _ (λ e. storage_key_word-Foreign name p ne s m (sym e))

  -- A topic keeps sound when the keys of another one change.
  pub other_moved :
      (name j : Bytes) (y : Topic) (w w' : World S)
      → PlainName name
      → j ≢ name
      → KeepsForeign deps name w w'
      → TopicSound deps j y w
      → TopicSound deps j y w'
  other_moved name j y w w' p ne k h =
      TopicSound-moved deps j y w w'
        (λ s m. k (y.name ++ s) (
          Foreign-other name y.name s p (subst PlainName (sym h.named) h.plain)
            (λ g. ne (sym h.named ∙ sym g)) m))
        h

  -- A topic keeps sound when the record of the names changes.
  pub record_moved :
      (j : Bytes) (y : Topic) (w w' : World S)
      → ((k : Bytes) → bytes_eq k storage_key_word ≡ false → get_data deps k w' ≡ get_data deps k w)
      → TopicSound deps j y w
      → TopicSound deps j y w'
  record_moved j y w w' k h =
      TopicSound-moved deps j y w w'
        (λ s m. k (y.name ++ s) (
          key_word_not_own y.name s (subst PlainName (sym h.named) h.plain)
            (λ g. h.apart (sym h.named ∙ g)) m))
        h

  module _ (name : Bytes) (from_etcd : Bool) (bytes : Bytes) (w : World S) where
    unfoldable pub stored_names : World S
    stored_names = (set_data deps storage_key_word bytes w).1

    unfoldable pub registered : World S
    unfolding stored_names
    registered = if from_etcd then stored_names else register_topic deps name stored_names

    unfoldable pub unregistered : World S
    unfolding stored_names
    unregistered = if from_etcd then stored_names else unregister_topic deps name stored_names

    pub registered-Same : (k : Bytes) → get_data deps k registered ≡ get_data deps k stored_names
    unfolding registered
    registered-Same k = elim (Bool-cases from_etcd) [
      | inl b ↦ rw b refl
      | inr b ↦ rw b (get_data-register_topic deps name k stored_names)
    ]

    pub unregistered-Same :
        (k : Bytes) → get_data deps k unregistered ≡ get_data deps k stored_names
    unfolding unregistered
    unregistered-Same k = elim (Bool-cases from_etcd) [
      | inl b ↦ rw b refl
      | inr b ↦ rw b (get_data-unregister_topic deps name k stored_names)
    ]

    pub stored_names-others :
        (k : Bytes)
        → bytes_eq k storage_key_word ≡ false
        → get_data deps k stored_names ≡ get_data deps k w
    unfolding stored_names
    stored_names-others k ne = get_data-set_data_ne deps laws storage_key_word k bytes w ne

    pub stored_names-there : get_data deps storage_key_word stored_names ≡ ok bytes
    unfolding stored_names
    stored_names-there =
        get_data-set_data deps laws storage_key_word bytes w
          (set_data_ok deps reliable storage_key_word bytes w)
