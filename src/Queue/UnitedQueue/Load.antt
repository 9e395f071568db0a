-- ===== src/Queue/UnitedQueue/Load.antt =====
-- queue/uQueue.go: loadQueue and loadTopic, which rebuild the queue from its storage.
use uq.Prelude.{ℕ, zero, suc, ◌+◌, ◌*◌, Bytes, codes, List, [], ◌∷◌, ◌++◌, false, Dict, insert}
use uq.Utils.Errors.{Result, ok, err, Error}
use uq.Queue.Line.{Line}
use uq.Queue.Deps.{Deps, World, TopicStore, get_data, register_topic}
use uq.Queue.Topic.{Topic}
use uq.Queue.Topic.Admin.{load_line}
use uq.Queue.Topic.Keys.{key_topic_head, key_topic_tail}
use uq.Queue.UnitedQueue.{UnitedQueue, with_topic}
use uq.Queue.UnitedQueue.Admin.{storage_key_word}

-- An error of the queue, the text of another error, or a panic of LittleEndian.Uint64 on fewer than
-- eight bytes.
pub data Loaded (A : Type 0) : Type 0 where
  loads : A → Loaded A
  fails : Error → Loaded A
  fails_with : Bytes → Loaded A
  panics : Loaded A

abbrev of_error : {A : Type 0} → Result Error A → Loaded A
of_error (ok a) = loads a
of_error (err e) = fails e

abbrev of_text : {A : Type 0} → Result Bytes A → Loaded A
of_text (ok a) = loads a
of_text (err e) = fails_with e

infixl 5 ◌>>=◌
abbrev ◌>>=◌ : {A B : Type 0} → Loaded A → (A → Loaded B) → Loaded B
loads a >>= f = f a
fails e >>= f = fails e
fails_with e >>= f = fails_with e
panics >>= f = panics

-- The number that the first `n` bytes spell, least first: binary.LittleEndian.Uint64 at 8.
unfoldable pub from_little_endian : ℕ → Bytes → Loaded ℕ
from_little_endian zero s = loads 0
from_little_endian (suc n) [] = panics
from_little_endian (suc n) (b ∷ s) = do x ← from_little_endian n s; loads (b + 256 * x)

-- Data of length 0 counts as missing.
abbrev present : Bytes → Bytes → Loaded Bytes
present text [] = fails_with text
present text (b ∷ bs) = loads (b ∷ bs)

module _ {S : Type 0} (deps : Deps S) where
  -- loadTopic's loop: a line whose recycle data is bad is left out.
  unfoldable pub load_lines :
      Topic → List Bytes → Dict Line → World S → Loaded (Dict Line × World S)
  load_lines t [] ls w = loads (ls, w)
  load_lines t (name ∷ names) ls w = do
    let key = t.name ++ (codes "/" ++ name)
    found ← of_error (get_data deps key w)
    bytes ← present (codes "line backup data missing: " ++ key) found
    store ← of_text (deps.unmarshal_line bytes)
    let (r, w') = load_line deps name store t w
    load_lines t names (elim r [ ok l ↦ insert name l ls | err e ↦ ls ]) w'

  unfoldable pub load_topic : Bytes → TopicStore → World S → Loaded (Topic × World S)
  unfolding load_lines
  load_topic name ts w = do
    head_bytes ← of_error (get_data deps (name ++ key_topic_head) w)
    head ← from_little_endian 8 head_bytes
    tail_bytes ← of_error (get_data deps (name ++ key_topic_tail) w)
    tail ← from_little_endian 8 tail_bytes
    let t : Topic = record {
      name = name;
      persist = ts.persist;
      lines = [];
      head = head;
      head_key = name ++ key_topic_head;
      tail = tail;
      tail_key = name ++ key_topic_tail;
      quit = false;
    }
    loaded ← load_lines t ts.lines [] w
    loads (record t { lines = loaded.0 }, register_topic deps name loaded.1)

  unfoldable pub load_topics : List Bytes → UnitedQueue → World S → Loaded (UnitedQueue × World S)
  load_topics [] u w = loads (u, w)
  load_topics (name ∷ names) u w = do
    found ← of_error (get_data deps name w)
    bytes ← present (codes "topic backup data missing: " ++ name) found
    ts ← of_text (deps.unmarshal_topic bytes)
    loaded ← load_topic name ts w
    load_topics names (with_topic name loaded.0 u) loaded.1

  unfoldable pub load_stored : Bytes → UnitedQueue → World S → Loaded (UnitedQueue × World S)
  unfolding load_topics
  load_stored [] u w = loads (u, w)
  load_stored (b ∷ bs) u w = do
    qs ← of_text (deps.unmarshal_queue (b ∷ bs))
    load_topics qs.topics u w

  -- loadQueue: a storage without the queue's key is a new one.
  unfoldable pub load_queue : UnitedQueue → World S → Loaded (UnitedQueue × World S)
  unfolding load_stored
  load_queue u w = elim (get_data deps storage_key_word w) [
    | err e ↦ loads (u, w)
    | ok bytes ↦ load_stored bytes u w
  ]

  -- NewUnitedQueue, up to the goroutine that it starts.
  unfoldable pub new_united_queue : World S → Loaded (UnitedQueue × World S)
  new_united_queue w = load_queue (record { topics = [] }) w
