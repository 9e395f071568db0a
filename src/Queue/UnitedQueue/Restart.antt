-- ===== src/Queue/UnitedQueue/Restart.antt =====
-- queue/uQueue.go: NewUnitedQueue on the storage that Close has left.
use uq.Prelude.{
  ◌≡◌, refl, sym, ap, subst, ◌∙◌, inl, inr, Bytes, List, [], ◌∷◌, ◌++◌, map, Option, some, none,
  arith, lookup, NodupKeys, Dict, true, false, Bool-cases, append-nil,
}
use uq.Utils.Errors.{Result, Error}
use uq.Store.Interface.{Laws, Reliable}
use uq.Queue.Deps.{internal, Deps, World, get_data}
use uq.Queue.Topic.{Topic}
use uq.Queue.Topic.Owned.{PlainName, Foreign, Foreign-other}
use uq.Queue.Topic.Saved.{KeepsOwn-TopicSaved}
use uq.Queue.UnitedQueue.{UnitedQueue}
use uq.Queue.UnitedQueue.Admin.{storage_key_word}
use uq.Queue.UnitedQueue.Remove.{export_topics, queue_close}
use uq.Queue.UnitedQueue.Load.{loads, load_topics, load_queue, load_stored, new_united_queue}
use uq.Queue.UnitedQueue.SaveAll.{IsRunning, export_topics-Same, export_topics-TopicSaved}
use uq.Queue.UnitedQueue.Reload.{
  contains, is_there, NamesStored, never, empty, written, QueueKept, RestoredAt, IsFound,
  load_topics_saved,
}

pub storage_key_word-PlainName : PlainName storage_key_word
storage_key_word-PlainName = (
  refl,
  (
    refl,
    (
      refl,
      (refl, (refl, (refl, (refl, (refl, (refl, (refl, (refl, (refl, (refl, (refl, tt))))))))))),
    ),
  ),
)

abbrev stopped : Topic → Topic
stopped t = record t { quit = true }

abbrev all_stopped : Dict Topic → Dict Topic
all_stopped = map (λ ((name, t) : Bytes × Topic). (name, stopped t))

abbrev stopped_option : Option Topic → Option Topic
stopped_option none = none
stopped_option (some t) = some (stopped t)

lookup-all_stopped :
    (j : Bytes) (ts : Dict Topic) → lookup j (all_stopped ts) ≡ stopped_option (lookup j ts)
unfolding lookup
lookup-all_stopped j [] = refl
lookup-all_stopped j ((m, x) ∷ ts) = ground (arith, lookup-all_stopped j ts)

all_stopped-NodupKeys : (ts : Dict Topic) → NodupKeys ts → NodupKeys (all_stopped ts)
all_stopped-NodupKeys [] u = tt
all_stopped-NodupKeys ((m, x) ∷ ts) (fresh, u) =
    (lookup-all_stopped m ts ∙ ap stopped_option fresh, all_stopped-NodupKeys ts u)

stopped_from :
    (o : Option Topic) (t : Topic)
    → stopped_option o ≡ some t
    → (x : Topic) × (o ≡ some x) × (stopped x ≡ t)
stopped_from none t e = absurd (cc e)
stopped_from (some x) t e = (x, refl, cc e)

stopped-RestoredAt : (o o' : Option Topic) → RestoredAt (stopped_option o) o' → RestoredAt o o'
stopped-RestoredAt none none r = tt
stopped-RestoredAt none (some t') r = absurd r
stopped-RestoredAt (some t) none r = absurd r
stopped-RestoredAt (some t) (some t') r = record { same = r.same; lines = r.lines }

module _ {S : Type 0} (deps : Deps S) where
  stopped-IsRunning :
      (name : Bytes) (t : Topic) (w : World S)
      → IsRunning deps name t w
      → IsRunning deps name (stopped t) w
  stopped-IsRunning name t w r =
      let k = r.kept in
      record {
        named = r.named;
        plain = r.plain;
        kept = record {
          head_le = k.head_le;
          tail_lt = k.tail_lt;
          head_key = k.head_key;
          tail_key = k.tail_key;
          head_stored = k.head_stored;
          tail_stored = k.tail_stored;
          nodup = k.nodup;
          lines = λ n l e.
              let x = k.lines n l e in
              record {
                named = x.named;
                plain = x.plain;
                own = x.own;
                valid = x.valid;
                recycle_stored = x.recycle_stored;
              };
        };
        back = record {
          first = r.back.first;
          rest = r.back.rest;
          written = r.back.written;
          read = r.back.read;
          lines = r.back.lines;
        };
      }

  all_stopped-IsRunning :
      (u : UnitedQueue) (w : World S)
      → QueueKept deps u w
      → (name : Bytes) (t : Topic) → lookup name (all_stopped u.topics) ≡ some t
      → IsRunning deps name t w
  all_stopped-IsRunning u w h name t e =
      let (x, there, same) =
        stopped_from (lookup name u.topics) t (sym (lookup-all_stopped name u.topics) ∙ e) in
      subst (λ y. IsRunning deps name y w) same
        (stopped-IsRunning name x w (h.running name x there))

  stopped-apart :
      (u : UnitedQueue) (w : World S)
      → QueueKept deps u w
      → (name : Bytes) (t : Topic) → lookup name (all_stopped u.topics) ≡ some t
      → Foreign t.name storage_key_word
  stopped-apart u w h name t e =
      let (x, there, same) =
        stopped_from (lookup name u.topics) t (sym (lookup-all_stopped name u.topics) ∙ e) in
      let r = all_stopped-IsRunning u w h name t e in
      subst (Foreign t.name) (append-nil storage_key_word) (
        Foreign-other t.name storage_key_word [] r.plain storage_key_word-PlainName
          (λ f. h.apart name x there (cc (f, r.named))) tt)

  -- The world when Close has exported the topics, before it closes the storage.
  abbrev closing : UnitedQueue → World S → World S
  closing u w = export_topics deps (all_stopped u.topics) w

  loads_stored :
      (u : UnitedQueue) (w : World S) (r : Result Error Bytes) (names : List Bytes)
      → get_data deps storage_key_word w ≡ r
      → NamesStored deps r names
      → load_queue deps u w ≡ load_topics deps names u w
  unfolding load_queue load_stored load_topics
  loads_stored u w _ _ e (never x) = rw (e, load_queue) refl
  loads_stored u w _ _ e empty = rw (e, load_queue) refl
  loads_stored u w _ _ e (written b bs names f) = rw (e, load_queue) (rw f refl)

  there_from : (o : Option Topic) → is_there o ≡ true → (t : Topic) × (o ≡ some t)
  there_from none e = absurd (cc e)
  there_from (some t) e = (t, refl)

  not_there_from : (o : Option Topic) → is_there o ≡ false → o ≡ none
  not_there_from none e = refl
  not_there_from (some t) e = absurd (cc e)

module _ {S : Type 0} (deps : Deps S) (laws : Laws deps.storage)
    (reliable : Reliable deps.storage) where
  names-IsFound :
      (u : UnitedQueue) (w w' : World S) (h : QueueKept deps u w)
      → ((k : Bytes) → get_data deps k w' ≡ get_data deps k (closing deps u w))
      → (name : Bytes) → contains name h.names ≡ true
      → (t : Topic) × (lookup name (all_stopped u.topics) ≡ some t) × IsFound deps name t w'
  names-IsFound u w w' h opened name c =
      let (x, there) = there_from deps (lookup name u.topics) (sym (h.listed name) ∙ c) in
      let e : lookup name (all_stopped u.topics) ≡ some (stopped x) =
        lookup-all_stopped name u.topics ∙ ap stopped_option there in
      let saved =
        export_topics-TopicSaved deps laws reliable (all_stopped u.topics) w
          (all_stopped-NodupKeys u.topics h.nodup) (all_stopped-IsRunning deps u w h) name
          (stopped x) e in
      (
        stopped x,
        e,
        record {
          named = (h.running name x there).named;
          saved =
              KeepsOwn-TopicSaved deps (stopped x) (closing deps u w) w'
                (λ s m. opened (x.name ++ s)) saved;
        },
      )

  reloaded :
      (u : UnitedQueue) (w w' : World S)
      → QueueKept deps u w
      → ((k : Bytes) → get_data deps k w' ≡ get_data deps k (closing deps u w))
      → (u' : UnitedQueue) × (w'' : World S) × (new_united_queue deps w' ≡ loads (u', w''))
        × ((name : Bytes) → RestoredAt (lookup name u.topics) (lookup name u'.topics))
  unfolding new_united_queue
  reloaded u w w' h opened =
      let names_there : get_data deps storage_key_word w' ≡ get_data deps storage_key_word w =
        opened storage_key_word
        ∙ export_topics-Same deps laws storage_key_word (all_stopped u.topics) w
            (all_stopped-NodupKeys u.topics h.nodup) (stopped-apart deps u w h) in
      let blank : UnitedQueue = record { topics = [] } in
      let r =
        load_topics_saved deps (all_stopped u.topics) h.names blank w'
          (names-IsFound u w w' h opened) in
      (
        r.queue,
        r.world,
        loads_stored deps blank w' _ h.names names_there h.stored ∙ r.loaded,
        λ name. elim (Bool-cases (contains name h.names)) [
          | inl c ↦ stopped-RestoredAt (lookup name u.topics) (lookup name r.queue.topics) (
              subst (λ o. RestoredAt o (lookup name r.queue.topics))
                (lookup-all_stopped name u.topics) (r.found name c))
          | inr c ↦
              let gone : lookup name u.topics ≡ none =
                not_there_from deps (lookup name u.topics) (sym (h.listed name) ∙ c) in
              let gone' : lookup name r.queue.topics ≡ none =
                r.others name c ∙ (unfold lookup in refl) in
              rw (gone, gone') tt
        ],
      )

  -- Over a storage that does not fail, NewUnitedQueue on the storage that Close has closed, opened
  -- again with its content, succeeds with the same topics: no topic comes or goes, and each has its
  -- name, persistence, head, tail and keys, and the lines from before, with their heads, their
  -- messages in flight and, where they recycle, their maps of delivered ids. Before Close the queue
  -- must be running: plain names, its record of topics, the heads, tails and recycle times stored,
  -- and records that the protobuf code gives back.
  pub queue_close-new_united_queue :
      (u : UnitedQueue) (w : World S) (reopen : S → S)
      → ((k : Bytes) (s : S)
          → deps.storage.get k (reopen (deps.storage.close s)) ≡ deps.storage.get k s)
      → QueueKept deps u w
      → (u' : UnitedQueue) × (w' : World S) × (new_united_queue deps
            (record { stored = reopen (queue_close deps u w).1.stored; sent = [] })
          ≡ loads (u', w'))
        × ((name : Bytes) → RestoredAt (lookup name u.topics) (lookup name u'.topics))
  unfolding queue_close get_data
  queue_close-new_united_queue u w reopen opened h =
      reloaded u w _ h (λ k. ap internal (opened k (closing deps u w).stored))
