-- ===== src/Examples/Topics.antt =====
-- A topic "t" with one recycling line "x", over the in-memory storage.
use uq.Prelude.{
  ℕ, ◌≤◌, ◌<◌, ◌≡◌, refl, inl, inr, Bytes, bytes_eq, codes, List, [], ◌∷◌, ◌++◌, true, false, none,
  some, arith, pos, subst, Bool-cases, ◌==◌, ==_iff, lookup, u64_mod,
}
use uq.Utils.Errors.{Result, ok, err, Error, new_error, err_internal_error}
use uq.Store.Interface.{Storage, Laws}
use uq.Store.MemStore.{
  MemStore, new_mem_store, mem_storage, mem_storage-Laws, mem_storage-Reliable, set,
}
use uq.Queue.Line.{Line}
use uq.Queue.Line.Valid.{IsValid}
use uq.Queue.Line.Deliver.{is_ready}
use uq.Queue.Deps.{Deps, World, get_data, set_data}
use uq.Queue.Topic.{
  Topic, line_end, get_end, m_push, m_push_loop, export_tail, message_key, topic_pop, topic_m_pop,
}
use uq.Queue.Line.Order.{numbered}
use uq.Queue.Topic.Order.{m_push-topic_m_pop}
use uq.Queue.Topic.Keys.{key_topic_head, key_topic_tail}
use uq.Queue.Topic.Clean.{clear, clean}
use uq.Queue.Topic.CleanSafe.{clean_spares_needed}
use uq.Queue.Topic.CleanAll.{StoredTo, clean_reaches_end}
use uq.Queue.Topic.PushLoop.{Appended, KeptBelow}
use uq.Queue.Topic.Push.{m_push_appends, m_push_rolls_back}
use uq.Queue.Topic.Sound.{IsServed, IsSound}
use uq.Queue.Topic.Reach.{Steps, pushes, start, onto, Steps-IsSound, reachable_pop}

-- The protobuf code and the texts of durations play no part here.
abbrev pub no_codec : {A : Type 0} → Result Bytes A
no_codec = err (codes "none")

abbrev pub with_storage : {S : Type 0} → Storage S → Deps S
with_storage st = record {
  storage = st;
  marshal_line = λ s. no_codec;
  marshal_topic = λ s. no_codec;
  marshal_queue = λ s. no_codec;
  unmarshal_line = λ s. no_codec;
  unmarshal_topic = λ s. no_codec;
  unmarshal_queue = λ s. no_codec;
  duration_string = λ d. codes "10ns";
  parse_duration = λ s. no_codec;
  parse_uint_error = λ s. s;
  etcd = none;
}

abbrev pub in_memory : Deps MemStore
in_memory = with_storage mem_storage

-- A storage that refuses every write, as a full disk does.
abbrev read_only : Storage MemStore
read_only = record mem_storage {
  set = λ k v m. (err (codes "full"), m);
  del = λ k m. (err (codes "full"), m);
}

read_only-Laws : Laws read_only
read_only-Laws = record {
  not_found = [];
  get-set = λ k j v s h. absurd (cc h);
  get-set_err = λ k j v e s h. refl;
  get-del = λ k j s h. absurd (cc h);
  get-del_err = λ k j e s h. refl;
}

abbrev pub line_at : ℕ → Line
line_at n = record {
  name = codes "x";
  head = n;
  recycle = pos 10;
  recycle_key = codes "t/x:recycle";
  inflight = [];
  ihead = n;
  imap = λ i. none;
}

pub line_at-IsValid : (n tail : ℕ) → n ≤ tail → tail < u64_mod → IsValid tail (line_at n)
line_at-IsValid n tail h b = record {
  ihead_le = omega arith;
  head_le = h;
  tail_lt = b;
  idle = λ e. refl;
  in_range = λ i o. absurd (cc o);
  distinct = tt;
  tracked = λ p i. ground arith;
}

abbrev pub topic_at : ℕ → ℕ → ℕ → Topic
topic_at head n tail = record {
  name = codes "t";
  persist = false;
  lines = (codes "x", line_at n) ∷ [];
  head = head;
  head_key = codes "t" ++ key_topic_head;
  tail = tail;
  tail_key = codes "t" ++ key_topic_tail;
  quit = false;
}

abbrev pub empty_world : World MemStore
empty_world = record { stored = new_mem_store; sent = [] }

-- The topic as it is created, with its line.
pub only_line :
    (head n tail : ℕ) (name : Bytes) (l : Line)
    → lookup name (topic_at head n tail).lines ≡ some l
    → line_at n ≡ l
unfolding lookup
only_line head n tail name l e = ground arith

pub IsServed-topic_at :
    (head n tail : ℕ)
    → head ≤ n
    → n ≤ tail
    → tail < u64_mod
    → IsServed (topic_at head n tail) (line_at n)
unfolding line_end
IsServed-topic_at head n tail lo hi b = record { valid = line_at-IsValid n tail hi b; needs = lo }

pub empty_topic-IsSound : IsSound in_memory (topic_at 0 0 0) empty_world
empty_topic-IsSound = record {
  head_le = omega arith;
  tail_lt = omega arith;
  head_key = refl;
  tail_key = refl;
  served = λ name l e.
      subst (IsServed (topic_at 0 0 0)) (only_line 0 0 0 name l e)
        (IsServed-topic_at 0 0 0 (omega arith) (omega arith) (omega arith));
  stored = λ i lo hi. absurd (omega (arith, hi));
}

abbrev pub two_texts : List Bytes
two_texts = codes "one" ∷ codes "two" ∷ []

abbrev pushed_topic : Topic
pushed_topic = (m_push in_memory two_texts (topic_at 0 0 0) empty_world).1

abbrev pushed_world : World MemStore
pushed_world = (m_push in_memory two_texts (topic_at 0 0 0) empty_world).2

two_pushed : Steps in_memory (topic_at 0 0 0) empty_world pushed_topic pushed_world
two_pushed = onto _ _ _ _ start (pushes two_texts (omega arith))

pushed_ok : (m_push in_memory two_texts (topic_at 0 0 0) empty_world).0 ≡ ok tt
unfolding m_push m_push_loop set_data set export_tail
pushed_ok = refl

pushed_line : lookup (codes "x") pushed_topic.lines ≡ some (line_at 0)
unfolding m_push m_push_loop set_data lookup bytes_eq set export_tail
pushed_line = refl

pushed_ready : is_ready pushed_topic.tail 3 (line_at 0) ≡ true
unfolding m_push m_push_loop set_data set export_tail
pushed_ready = refl

reachable_pop_example :
    (id : ℕ) × (d : Bytes) × ((topic_pop in_memory (codes "x") 3 pushed_topic pushed_world).0
      ≡ ok (id, d))
reachable_pop_example =
    reachable_pop in_memory mem_storage-Laws (codes "x") 3 (line_at 0) empty_topic-IsSound
      two_pushed pushed_line pushed_ready

Steps-IsSound_example : IsSound in_memory pushed_topic pushed_world
Steps-IsSound_example = Steps-IsSound in_memory mem_storage-Laws empty_topic-IsSound two_pushed

two-Appended : Appended in_memory two_texts (topic_at 0 0 0) empty_world pushed_topic pushed_world
two-Appended =
    m_push_appends in_memory mem_storage-Laws two_texts (topic_at 0 0 0) empty_world refl
      (omega arith) pushed_ok

m_push_appends_example :
    Appended in_memory two_texts (topic_at 0 0 0) empty_world pushed_topic pushed_world
m_push_appends_example =
    m_push_appends in_memory mem_storage-Laws two_texts (topic_at 0 0 0) empty_world refl
      (omega arith) pushed_ok

abbrev disk_full : Error
disk_full = new_error err_internal_error (codes "full")

refused : (m_push (with_storage read_only) two_texts (topic_at 0 2 5) empty_world).0 ≡ err disk_full
unfolding m_push m_push_loop set_data set export_tail
refused = refl

m_push_rolls_back_example :
    ((m_push (with_storage read_only) two_texts (topic_at 0 2 5) empty_world).1 ≡ topic_at 0 2 5)
    × KeptBelow
        (with_storage read_only)
        (codes "t")
        5
        empty_world
        (m_push (with_storage read_only) two_texts (topic_at 0 2 5) empty_world).2
m_push_rolls_back_example =
    m_push_rolls_back (with_storage read_only) read_only-Laws two_texts (topic_at 0 2 5) empty_world
      disk_full refl (omega arith) refused

at_two : lookup (codes "x") (topic_at 0 2 5).lines ≡ some (line_at 2)
unfolding lookup bytes_eq
at_two = refl

-- The line is at message 2: clean may delete messages 0 and 1, and must keep message 2.
clean_spares_needed_example :
    get_data in_memory
      (message_key (codes "t") 2)
      (clean in_memory (λ i. clear) (topic_at 0 2 5) pushed_world).2
    ≡ get_data in_memory (message_key (codes "t") 2) pushed_world
clean_spares_needed_example =
    clean_spares_needed in_memory mem_storage-Laws (λ i. clear) (topic_at 0 2 5) pushed_world
      (codes "x") (line_at 2) 2 refl (omega arith) at_two
      (line_at-IsValid 2 5 (omega arith) (omega arith)) (inr (omega arith)) (omega arith)

end_is_two : get_end (topic_at 0 2 2) ≡ 2
unfolding get_end
end_is_two = refl

second : (i : ℕ) → (i == 0) ≡ false → i < get_end (topic_at 0 2 2) → i ≡ 1
second i e h = ground (arith, end_is_two)

abbrev cleanable : Topic
cleanable = topic_at 0 2 2

cleanable_stored : StoredTo in_memory (get_end cleanable) cleanable pushed_world
cleanable_stored i lo hi =
    let a = two-Appended in
    elim (Bool-cases (i == 0)) [
      | inl e ↦ (codes "one", rw ((==_iff i 0).0 e) (a.stored.0))
      | inr e ↦ (codes "two", rw (second i e hi) (a.stored.1.0))
    ]

clean_reaches_end_example :
    ((clean in_memory (λ i. clear) cleanable pushed_world).0 ≡ false)
    × ((clean in_memory (λ i. clear) cleanable pushed_world).1.head ≡ get_end cleanable)
clean_reaches_end_example =
    clean_reaches_end in_memory mem_storage-Laws mem_storage-Reliable (λ i. clear) (λ i. refl)
      cleanable pushed_world refl (omega arith) (omega (arith, end_is_two)) cleanable_stored

line_first : lookup (codes "x") (topic_at 0 0 0).lines ≡ some (line_at 0)
unfolding lookup bytes_eq
line_first = refl

m_push-topic_m_pop_example :
    (topic_m_pop in_memory (codes "x") 5 3 pushed_topic pushed_world).0 ≡ ok (numbered 0 two_texts)
m_push-topic_m_pop_example =
    m_push-topic_m_pop in_memory mem_storage-Laws two_texts (topic_at 0 0 0) empty_world (codes "x")
      (line_at 0) 5 3 empty_topic-IsSound line_first refl (λ p. refl) (omega arith) (omega arith)
      (omega arith) pushed_ok
