-- ===== src/Queue/Topic/Admin.antt =====
-- queue/uTopic.go: how lines are created, loaded, emptied and removed, and how a topic is closed and
-- removed; the walks over all lines.
use uq.Prelude.{
  ℕ, zero, suc, ◌+◌, ◌-◌, Bytes, codes, List, [], ◌∷◌, ◌++◌, map, Bool, true, false, none, some, ℤ,
  if◌then◌else◌, u64_mod, inc64, Dict, lookup, insert, without, put, NumberMap, ◌%◌,
}
use uq.Utils.Errors.{Result, ok, err, Error, err_line_existed, new_error, ◌>>=◌ as ◌>>=?◌}
use uq.Queue.Line.{Line, Message}
use uq.Queue.Deps.{
  Deps, World, Action, LineStore, internal, lift, and_then, ◌>>◌, get_data, del_data, register_line,
  unregister_line,
}
use uq.Queue.LineData.{
  LineStat, key_line_recycle, export_line, export_recycle, line_stat, empty, remove,
}
use uq.Queue.Topic.{
  Topic, Outcome, returns, blocks, export_head, export_topic, message_key, not_existed,
}

-- imap[i] = false for the ids from `i` on, `n` of them.
unfoldable pub unconfirmed : ℕ → ℕ → NumberMap Bool → NumberMap Bool
unconfirmed zero i m = m
unconfirmed (suc n) i m = unconfirmed n (inc64 i) (put i false m)

unfoldable pub in_flights : List Message → NumberMap Bool → NumberMap Bool
in_flights [] m = m
in_flights (x ∷ xs) m = in_flights xs (put x.tid true m)

-- The Stat of a topic.
pub record TopicStat : Type 0 where
  pub name : Bytes
  pub head : ℕ
  pub tail : ℕ
  pub count : ℕ
  pub lines : List LineStat

unfoldable pub recycle_key : Bytes → Bytes → Bytes
recycle_key topic name = topic ++ (codes "/" ++ (name ++ key_line_recycle))

module _ {S : Type 0} (deps : Deps S) where
  -- exportLines: an error is logged, and the walk goes on.
  unfoldable pub export_lines_of : Bytes → Dict Line → World S → World S
  export_lines_of topic [] w = w
  export_lines_of topic ((name, l) ∷ ls) w = export_lines_of topic ls (export_line deps topic l w).1

  unfoldable pub export_lines : Topic → World S → World S
  unfolding export_lines_of
  export_lines t w = export_lines_of t.name t.lines w

  -- The line that loadLine builds from its stored form.
  unfoldable pub loaded_line : Bytes → Bytes → LineStore → ℤ → Line
  unfolding unconfirmed in_flights recycle_key
  loaded_line topic name ls recycle = record {
    name = name;
    head = ls.head;
    recycle = recycle;
    recycle_key = recycle_key topic name;
    inflight = ls.inflights;
    ihead = ls.ihead;
    imap = in_flights ls.inflights (unconfirmed (ls.head - ls.ihead) ls.ihead (λ i. none));
  }

  unfoldable pub load_line : Bytes → LineStore → Topic → Action S Line
  unfolding loaded_line
  load_line name ls t w =
      and_then (load_recycle, w)
        λ recycle w'. (
          ok (loaded_line t.name name ls recycle),
          register_line deps t.name name (deps.duration_string recycle) w',
        )
    where
      load_recycle : Result Error ℤ
      load_recycle = get_data deps (recycle_key t.name name) w >>=? λ bytes.
          internal (deps.parse_duration bytes)

  unfoldable pub fresh_line : Bytes → ℤ → Topic → Line
  unfolding recycle_key
  fresh_line name recycle t =
      let start = if t.persist then 0 else t.head in
      record {
        name = name;
        head = start;
        recycle = recycle;
        recycle_key = recycle_key t.name name;
        inflight = [];
        ihead = start;
        imap = λ i. none;
      }

  unfoldable pub new_line : Bytes → ℤ → Topic → Action S Line
  unfolding fresh_line
  new_line name recycle t = do
    let l = fresh_line name recycle t
    export_line deps t.name l
    export_recycle deps l
    lift (ok l)

  -- createLine. It holds `linesLock`; where exportTopic fails it asks for that lock once more.
  unfoldable pub create_line :
      Bytes → ℤ → Bool → Topic → World S → Outcome (Result Error (Unit {0}) × Topic × World S)
  create_line name recycle from_etcd t w = elim (lookup name t.lines) [
    | some _ ↦ returns (err (new_error err_line_existed (codes "topic createLine")), t, w)
    | none ↦
        let (r, w') = new_line name recycle t w in
        elim r [
          | err e ↦ returns (err e, t, w')
          | ok l ↦
              let t' : Topic = record t { lines = insert name l t.lines } in
              let (r', w'') = export_topic deps t' w' in
              elim r' [
                | err e ↦ blocks
                | ok _ ↦ returns (
                  ok tt,
                  t',
                  if from_etcd
                      then w''
                      else register_line deps t.name l.name (deps.duration_string l.recycle) w'',
                )
              ]
        ]
  ]

  -- removeLine. It holds `linesLock` for reading; where exportTopic fails it asks for it for writing.
  unfoldable pub remove_line :
      Bytes → Bool → Topic → World S → Outcome (Result Error (Unit {0}) × Topic × World S)
  remove_line name from_etcd t w = elim (lookup name t.lines) [
    | none ↦ returns (err (not_existed (codes "topic statLine")), t, w)
    | some l ↦
        let t' : Topic = record t { lines = without name t.lines } in
        let (r, w') = export_topic deps t' w in
        elim r [
          | err e ↦ blocks
          | ok _ ↦
              let (r', w'') =
                remove deps t.name l
                  (if from_etcd then w' else unregister_line deps t.name name w') in
              returns (r', t', w'')
        ]
  ]

  -- The walk of empty: it ends at the first line that cannot be stored.
  unfoldable pub empty_lines :
      Bytes → ℕ → Dict Line → World S → Result Error (Unit {0}) × Dict Line × World S
  empty_lines topic tail [] w = (ok tt, [], w)
  empty_lines topic tail ((name, l) ∷ ls) w =
      let (r, l', w') = empty deps topic tail l w in
      elim r [
        | err e ↦ (err e, (name, l') ∷ ls, w')
        | ok _ ↦ let (r', ls', w'') = empty_lines topic tail ls w' in (r', (name, l') ∷ ls', w'')
      ]

  unfoldable pub empty_topic : Topic → World S → Result Error (Unit {0}) × Topic × World S
  unfolding empty_lines
  empty_topic t w =
      let (r, ls, w') = empty_lines t.name t.tail t.lines w in
      elim r [
        | err e ↦ (err e, record t { lines = ls }, w')
        | ok _ ↦
            let t' : Topic = record t { lines = ls; head = t.tail } in
            let (r', w'') = export_head deps t' w' in (r', t', w'')
      ]

  -- The stat of a topic: the count is computed in uint64.
  unfoldable pub stat : Topic → TopicStat
  stat t = record {
    name = t.name;
    head = t.head;
    tail = t.tail;
    count = (t.tail + u64_mod - t.head) % u64_mod;
    lines = map (λ ((name, l) : Bytes × Line). line_stat deps t.name t.tail l) t.lines;
  }

  unfoldable pub remove_lines_of : Bytes → Dict Line → World S → World S
  remove_lines_of topic [] w = w
  remove_lines_of topic ((name, l) ∷ ls) w = remove_lines_of topic ls (remove deps topic l w).1

  -- removeMsgData: the keys of `n` messages from `id` on; errors are logged.
  unfoldable pub remove_messages : ℕ → ℕ → Bytes → World S → World S
  remove_messages zero id topic w = w
  remove_messages (suc n) id topic w =
      remove_messages n (inc64 id) topic (del_data deps (message_key topic id) w).1

  -- remove: close, the lines, the keys of the topic, its messages; errors are logged.
  unfoldable pub remove_topic : Topic → World S → Topic × World S
  unfolding remove_lines_of remove_messages
  remove_topic t w =
      let w₁ = remove_lines_of t.name t.lines w in
      let w₂ = (del_data deps t.head_key w₁).1 in
      let w₃ = (del_data deps t.tail_key w₂).1 in
      let w₄ = (del_data deps t.name w₃).1 in
      (record t { quit = true; lines = [] }, remove_messages (t.tail - t.head) t.head t.name w₄)
