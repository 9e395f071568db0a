-- ===== src/Queue/UnitedQueue/LoadTopic.antt =====
-- queue/uQueue.go: loadTopic on a topic that was saved.
use uq.Prelude.{
  ◌-◌, ℕ, zero, suc, ◌+◌, ◌*◌, ◌/◌, ◌%◌, ◌<◌, ◌≡◌, refl, sym, ap, subst, ◌∙◌, inl, inr, Bytes, [],
  ◌∷◌, ◌++◌, map, Option, some, none, arith, lookup, insert, lookup-insert, lookup-tail, NodupKeys,
  Dict, bytes_eq_refl, bytes_eq, true, false, Bool-cases, eq_of_bytes_eq, is_pos, if◌then◌else◌,
}
use uq.Utils.Errors.{ok}
use uq.Queue.Line.{Line}
use uq.Queue.Line.Valid.{IsValid}
use uq.Queue.Deps.{Deps, World, get_data, register_line, register_topic}
use uq.Queue.Deps.DataLaws.{get_data-register_line, get_data-register_topic}
use uq.Queue.LineData.{gen_line_store, line_store_key}
use uq.Queue.Topic.{Topic, little_endian}
use uq.Queue.Topic.Admin.{recycle_key, loaded_line, load_line, unconfirmed, in_flights}
use uq.Queue.Topic.Keys.{key_topic_head, key_topic_tail}
use uq.Queue.Topic.Restart.{loaded_line-gen_line_store}
use uq.Queue.Topic.Saved.{
  LineKept-moved, LineSaved-moved, LineReadBack, LineKept, LineSaved, TopicKept, TopicSaved,
  topic_store,
}
use uq.Queue.UnitedQueue.Load.{loads, from_little_endian, load_lines, load_topic}

-- The numbers of `n` bytes.
abbrev pub places : ℕ → ℕ
places zero = 1
places (suc n) = 256 * places n

-- LittleEndian.Uint64 reads what LittleEndian.PutUint64 writes.
pub from_little_endian-little_endian :
    (n x : ℕ) → x < places n → from_little_endian n (little_endian n x) ≡ loads x
unfolding from_little_endian little_endian
from_little_endian-little_endian zero x h = let none_left : x ≡ 0 = omega arith in rw none_left refl
from_little_endian-little_endian (suc n) x h =
    let whole : x % 256 + 256 * (x / 256) ≡ x = omega arith in
    rw (from_little_endian-little_endian n (x / 256) (omega (arith, h))) (ap loads whole)

-- The line that a restart has in place of `l`: the map of delivered ids is made anew from the ids
-- between `ihead` and `head` if the line does not recycle, which never reads it.
abbrev pub restored : Line → Line
restored l =
    if is_pos l.recycle
    then l
    else record l { imap = unconfirmed (l.head - l.ihead) l.ihead (λ i. none) }

abbrev pub restored_option : Option Line → Option Line
restored_option none = none
restored_option (some l) = some (restored l)

-- A key of the loaded lines: the saved line, or what was there before.
abbrev pub over : Option Line → Option Line → Option Line
over (some l) before = some (restored l)
over none before = before

content_step :
    (j m : Bytes) (x : Line) (ls acc : Dict Line)
    → x.name ≡ m
    → lookup m ls ≡ none
    → over (lookup j ls) (lookup j (insert x.name (restored x) acc))
      ≡ over (lookup j ((m, x) ∷ ls)) (lookup j acc)
unfolding lookup
content_step j m x ls acc named fresh = elim (Bool-cases (bytes_eq j m)) [
  | inl b ↦
      let same : j ≡ m = eq_of_bytes_eq j m b in
      let gone : lookup j ls ≡ none = rw same fresh in
      let here : bytes_eq j x.name ≡ true = rw named b in
      rw (gone, b) (lookup-insert x.name j (restored x) acc ∙ rw here refl)
  | inr b ↦
      let other : bytes_eq j x.name ≡ false = rw named b in
      rw b (ap (over (lookup j ls)) (lookup-insert x.name j (restored x) acc ∙ rw other refl))
]

-- `t'` is the topic `t` after a restart: its name, persistence, head, tail and keys, and under each
-- name the line from before.
pub record TopicRestored (t t' : Topic) : Type 0 where
  pub same : record t { lines = t'.lines; quit = false } ≡ t'
  pub lines : (name : Bytes) → lookup name t'.lines ≡ restored_option (lookup name t.lines)

module _ {S : Type 0} (deps : Deps S) where
  loaded_line-restored :
      {tail : ℕ} (topic : Bytes) (l : Line)
      → IsValid tail l
      → l.recycle_key ≡ recycle_key topic l.name
      → loaded_line deps topic l.name (gen_line_store l) l.recycle ≡ restored l
  unfolding loaded_line gen_line_store in_flights
  loaded_line-restored topic l v k = elim (Bool-cases (is_pos l.recycle)) [
    | inl p ↦ loaded_line-gen_line_store deps topic l v p k ∙ sym (rw p refl)
    | inr p ↦ rw p λ j. record l {
      recycle_key = sym k j;
      imap = in_flights (v.idle p j) (unconfirmed (l.head - l.ihead) l.ihead (λ i. none));
    }
  ]

  -- loadLine on the stored form of a line.
  load_line-restored :
      (t : Topic) (l : Line) (w : World S)
      → LineReadBack deps l
      → LineKept deps t l.name l w
      → load_line deps l.name (gen_line_store l) t w
        ≡ (ok (restored l), register_line deps t.name l.name (deps.duration_string l.recycle) w)
  unfolding load_line
  load_line-restored t l w c k =
      rw (k.recycle_stored, c.recycle_read, loaded_line-restored t.name l k.valid k.own) refl

  load_lines_step :
      (t : Topic) (m : Bytes) (x : Line) (ls acc : Dict Line) (w : World S)
      → LineSaved deps t.name x w
      → LineKept deps t x.name x w
      → load_lines deps t (map (λ ((name, l) : Bytes × Line). l.name) ((m, x) ∷ ls)) acc w
        ≡ load_lines deps t
            (map (λ ((name, l) : Bytes × Line). l.name) ls)
            (insert x.name (restored x) acc)
            (register_line deps t.name x.name (deps.duration_string x.recycle) w)
  unfolding load_lines line_store_key
  load_lines_step t m x ls acc w s k =
      rw (s.stored, s.back.read, load_line-restored t x w s.back k) refl

  -- The lines that the loop of loadTopic ends with: those that are saved, over those from before.
  pub record LinesLoaded (t : Topic) (ls acc : Dict Line) (w : World S) : Type 0 where
    pub lines : Dict Line
    pub world : World S
    pub loaded :
        load_lines deps t (map (λ ((name, l) : Bytes × Line). l.name) ls) acc w
        ≡ loads (lines, world)
    pub content : (j : Bytes) → lookup j lines ≡ over (lookup j ls) (lookup j acc)
    pub same : (k : Bytes) → get_data deps k world ≡ get_data deps k w

  load_lines_saved :
      (t : Topic) (ls acc : Dict Line) (w : World S)
      → NodupKeys ls
      → ((name : Bytes) (l : Line)
          → lookup name ls ≡ some l
          → LineKept deps t name l w × LineSaved deps t.name l w)
      → LinesLoaded t ls acc w
  load_lines_saved t [] acc w u h = record {
    lines = acc;
    world = w;
    loaded = unfold load_lines in refl;
    content = λ j. unfold lookup in refl;
    same = λ k. refl;
  }
  load_lines_saved t ((m, x) ∷ ls) acc w u h =
      let there : lookup m ((m, x) ∷ ls) ≡ some x = unfold lookup in (rw bytes_eq_refl refl) in
      let (kept, saved) = h m x there in
      let kept' : LineKept deps t x.name x w =
        subst (λ n. LineKept deps t n x w) (sym kept.named) kept in
      let w₁ = register_line deps t.name x.name (deps.duration_string x.recycle) w in
      let keeps = λ (k : Bytes).
        get_data-register_line deps t.name x.name (deps.duration_string x.recycle) k w in
      let rest = load_lines_saved t ls (insert x.name (restored x) acc) w₁ u.1 (λ j y e.
        let (a, b) = h j y (lookup-tail m j x y ls u.0 e) in
        (LineKept-moved deps t j y w w₁ keeps a, LineSaved-moved deps t.name y w w₁ keeps b)) in
      record {
        lines = rest.lines;
        world = rest.world;
        loaded = load_lines_step t m x ls acc w saved kept' ∙ rest.loaded;
        content = λ j. rest.content j ∙ content_step j m x ls acc kept.named u.0;
        same = λ k. rest.same k ∙ keeps k;
      }

  pub record TopicLoaded (t : Topic) (w : World S) : Type 0 where
    pub topic : Topic
    pub world : World S
    pub loaded : load_topic deps t.name (topic_store t) w ≡ loads (topic, world)
    pub restores : TopicRestored t topic
    pub same : (k : Bytes) → get_data deps k world ≡ get_data deps k w

  over_nothing : (o : Option Line) → over o none ≡ restored_option o
  over_nothing none = refl
  over_nothing (some l) = refl

  -- The topic that loadTopic starts with.
  abbrev begun : Topic → Topic
  begun t = record t {
    lines = [];
    head_key = t.name ++ key_topic_head;
    tail_key = t.name ++ key_topic_tail;
    quit = false;
  }

  begun-LineKept :
      (t : Topic) (name : Bytes) (l : Line) (w : World S)
      → LineKept deps t name l w
      → LineKept deps (begun t) name l w
  begun-LineKept t name l w k = record {
    named = k.named;
    plain = k.plain;
    own = k.own;
    valid = k.valid;
    recycle_stored = k.recycle_stored;
  }

  load_topic_lines :
      (t : Topic) (w : World S) (lines : Dict Line) (w' : World S)
      → TopicKept deps t w
      → load_lines deps (begun t) (topic_store t).lines [] w ≡ loads (lines, w')
      → load_topic deps t.name (topic_store t) w
        ≡ loads (record (begun t) { lines = lines }, register_topic deps t.name w')
  unfolding load_topic
  load_topic_lines t w lines w' k e = rw (k.head_stored) (
      rw (from_little_endian-little_endian 8 t.head (omega (arith, k.head_le, k.tail_lt))) (
        rw (k.tail_stored)
          (rw (from_little_endian-little_endian 8 t.tail (omega (arith, k.tail_lt))) (rw e refl))))

  -- loadTopic on a topic that is saved gives the topic back.
  pub load_topic_saved : (t : Topic) (w : World S) → TopicSaved deps t w → TopicLoaded t w
  load_topic_saved t w h =
      let k = h.kept in
      let r =
        load_lines_saved (begun t) t.lines [] w k.nodup
          (λ name l e. (begun-LineKept t name l w (k.lines name l e), h.lines name l e)) in
      record {
        topic = record (begun t) { lines = r.lines };
        world = register_topic deps t.name r.world;
        loaded = load_topic_lines t w r.lines r.world k r.loaded;
        restores = record {
          same = λ j. record (begun t) {
            lines = r.lines;
            head_key = k.head_key j;
            tail_key = k.tail_key j;
          };
          lines = λ name. r.content name ∙ (unfold lookup in (over_nothing (lookup name t.lines)));
        };
        same = λ j. get_data-register_topic deps t.name j r.world ∙ r.same j;
      }
