-- ===== src/Queue/Topic/Frame.antt =====
-- queue/uTopic.go: which keys an operation of a topic may write. A key that differs from those keeps
-- its value, whether the operation succeeds or not.
use uq.Prelude.{
  ℕ, ◌≡◌, ◌≢◌, refl, ◌∙◌, inl, inr, Bytes, List, [], ◌∷◌, lookup, Bool, Bool-cases, Option-cases, ℤ,
  Dict, map, if◌then◌else◌, bytes_eq_ne, inc64, without, some,
}
use uq.Utils.Errors.{Result, Error, Result-cases}
use uq.Store.Interface.{Laws}
use uq.Queue.Line.{Line}
use uq.Queue.Deps.{Deps, World, TopicStore, get_data, set_data, del_data, unregister_line}
use uq.Queue.Deps.DataLaws.{
  get_data-set_data_ne, get_data-del_data_ne, get_data-register_line, get_data-unregister_line,
}
use uq.Queue.LineData.{
  export_line, export_recycle, gen_line_store, line_store_key, empty, emptied, remove,
  remove_line_data, remove_recycle_data,
}
use uq.Queue.Topic.{
  Topic, Outcome, returns, blocks, message_key, with_line, export_topic, export_tail, empty_line,
  m_push, m_push_loop, m_push_end,
}
use uq.Queue.Topic.Admin.{
  export_lines_of, recycle_key, fresh_line, new_line, create_line, remove_line,
}

-- The key is not that of one of the lines.
abbrev pub NoLine : Bytes → Bytes → Dict Line → Type 0
NoLine topic k [] = Unit {0}
NoLine topic k ((name, l) ∷ ls) = (k ≢ line_store_key topic l.name) × NoLine topic k ls

abbrev pub NoMessage : Bytes → Bytes → Type 0
NoMessage topic k = (i : ℕ) → k ≢ message_key topic i

module _ {S : Type 0} (deps : Deps S) (k : Bytes) where
  abbrev pub Same : World S → World S → Type 0
  Same w w' = get_data deps k w' ≡ get_data deps k w

  -- What an operation that may wait for ever leaves of the key when it returns.
  abbrev pub SameReturned : World S → Outcome (Result Error (Unit {0}) × Topic × World S) → Type 0
  SameReturned w (returns (r, t, w')) = Same w w'
  SameReturned w blocks = Unit {0}

module _ {S : Type 0} (deps : Deps S) (laws : Laws deps.storage) (k : Bytes) where
  pub set_data-Same : (j v : Bytes) (w : World S) → k ≢ j → Same deps k w (set_data deps j v w).1
  set_data-Same j v w ne = get_data-set_data_ne deps laws j k v w (bytes_eq_ne k j ne)

  pub del_data-Same : (j : Bytes) (w : World S) → k ≢ j → Same deps k w (del_data deps j w).1
  del_data-Same j w ne = get_data-del_data_ne deps laws j k w (bytes_eq_ne k j ne)

  pub export_line-Same :
      (topic : Bytes) (l : Line) (w : World S)
      → k ≢ line_store_key topic l.name
      → Same deps k w (export_line deps topic l w).1
  unfolding export_line line_store_key
  export_line-Same topic l w ne = elim (Result-cases (deps.marshal_line (gen_line_store l))) [
    | inr (x, e) ↦ rw e refl
    | inl (buf, e) ↦ rw e (set_data-Same (line_store_key topic l.name) buf w ne)
  ]

  pub export_lines_of-Same :
      (topic : Bytes) (ls : Dict Line) (w : World S)
      → NoLine topic k ls
      → Same deps k w (export_lines_of deps topic ls w)
  unfolding export_lines_of
  export_lines_of-Same topic [] w ne = refl
  export_lines_of-Same topic ((name, l) ∷ ls) w ne =
      export_lines_of-Same topic ls (export_line deps topic l w).1 ne.1
      ∙ export_line-Same topic l w ne.0

  pub export_topic-Same :
      (t : Topic) (w : World S) → k ≢ t.name → Same deps k w (export_topic deps t w).1
  unfolding export_topic
  export_topic-Same t w ne =
      let st : TopicStore = record {
        lines = map (λ ((name, l) : Bytes × Line). l.name) t.lines;
        persist = t.persist;
      } in
      elim (Result-cases (deps.marshal_topic st)) [
        | inr (x, e) ↦ rw e refl
        | inl (buf, e) ↦ rw e (set_data-Same t.name buf w ne)
      ]

  pub m_push_loop-Same :
      (ds : List Bytes) (t : Topic) (w : World S)
      → NoMessage t.name k
      → Same deps k w (m_push_loop deps ds t w).2
        × ((m_push_loop deps ds t w).1.tail_key ≡ t.tail_key)
  unfolding m_push_loop
  m_push_loop-Same [] t w ne = (refl, refl)
  m_push_loop-Same (d ∷ ds) t w ne =
      let w₁ = (set_data deps (message_key t.name t.tail) d w).1 in
      let first = set_data-Same (message_key t.name t.tail) d w (ne t.tail) in
      let rest = m_push_loop-Same ds (record t { tail = inc64 t.tail }) w₁ ne in
      elim (Result-cases (set_data deps (message_key t.name t.tail) d w).0) [
        | inl (u, e) ↦ rw (e, m_push_loop) (rest.0 ∙ first, rest.1)
        | inr (x, e) ↦ rw (e, m_push_loop) (first, refl)
      ]

  -- mPush writes messages and the tail.
  pub m_push-Same :
      (ds : List Bytes) (t : Topic) (w : World S)
      → NoMessage t.name k
      → k ≢ t.tail_key
      → Same deps k w (m_push deps ds t w).2
  unfolding m_push export_tail
  m_push-Same ds t w ne tail_ne =
      let looped = m_push_loop deps ds t w in
      let (kept, own) = m_push_loop-Same ds t w ne in
      let stored : Same deps k looped.2 (export_tail deps looped.1 looped.2).1 =
        set_data-Same looped.1.tail_key _ looped.2 (λ e. tail_ne (e ∙ own)) in
      elim (Result-cases looped.0) [
        | inr (x, e) ↦ rw (e, m_push_end) kept
        | inl (u, e) ↦ elim (Result-cases (export_tail deps looped.1 looped.2).0) [
          | inr (x, f) ↦ rw (e, m_push_end) (rw f (stored ∙ kept))
          | inl (v, f) ↦ rw (e, m_push_end) (rw f (stored ∙ kept))
        ]
      ]

  pub new_line-Same :
      (name : Bytes) (recycle : ℤ) (t : Topic) (w : World S)
      → k ≢ line_store_key t.name name
      → k ≢ recycle_key t.name name
      → Same deps k w (new_line deps name recycle t w).1
  unfolding new_line export_recycle fresh_line
  new_line-Same name recycle t w ne ne' =
      let l = fresh_line deps name recycle t in
      let w₁ = (export_line deps t.name l w).1 in
      let first = export_line-Same t.name l w ne in
      let second = set_data-Same (recycle_key t.name name) (deps.duration_string recycle) w₁ ne' in
      elim (Result-cases (export_line deps t.name l w).0) [
        | inr (x, e) ↦ rw e first
        | inl (u, e) ↦ rw e (elim (Result-cases (export_recycle deps l w₁).0) [
          | inr (x, f) ↦ rw f (second ∙ first)
          | inl (v, f) ↦ rw f (second ∙ first)
        ])
      ]

  -- createLine writes the line, its recycle time and the topic.
  pub create_line-Same :
      (name : Bytes) (recycle : ℤ) (from_etcd : Bool) (t : Topic) (w : World S)
      → k ≢ line_store_key t.name name
      → k ≢ recycle_key t.name name
      → k ≢ t.name
      → SameReturned deps k w (create_line deps name recycle from_etcd t w)
  unfolding create_line
  create_line-Same name recycle from_etcd t w ne ne' ne'' =
      elim (Option-cases (lookup name t.lines)) [
        | inr (old, e) ↦ rw (e, create_line) refl
        | inl e ↦
            let w₁ = (new_line deps name recycle t w).1 in
            let first = new_line-Same name recycle t w ne ne' in
            elim (Result-cases (new_line deps name recycle t w).0) [
              | inr (x, f) ↦ rw (e, create_line) (rw f first)
              | inl (l, f) ↦
                  let t₁ = with_line deps name l t in
                  let second = export_topic-Same t₁ w₁ ne'' ∙ first in
                  elim (Result-cases (export_topic deps t₁ w₁).0) [
                    | inr (x, g) ↦ rw (e, create_line) (rw f (rw g tt))
                    | inl (u, g) ↦
                        rw (e, create_line)
                          (rw f (
                            rw g (elim (Bool-cases from_etcd) [
                              | inl b ↦ rw b second
                              | inr b ↦
                                  rw b (get_data-register_line deps t.name l.name _ k _ ∙ second)
                            ])))
                  ]
            ]
      ]

  pub remove-Same :
      (topic : Bytes) (l : Line) (w : World S)
      → k ≢ line_store_key topic l.name
      → k ≢ l.recycle_key
      → Same deps k w (remove deps topic l w).1
  unfolding remove remove_line_data remove_recycle_data
  remove-Same topic l w ne ne' =
      del_data-Same l.recycle_key _ ne' ∙ del_data-Same (line_store_key topic l.name) w ne

  -- removeLine writes the topic, and deletes the line and its recycle time.
  pub remove_line-Same :
      (name : Bytes) (from_etcd : Bool) (t : Topic) (w : World S)
      → ((l : Line)
          → lookup name t.lines ≡ some l
          → (k ≢ line_store_key t.name l.name) × (k ≢ l.recycle_key))
      → k ≢ t.name
      → SameReturned deps k w (remove_line deps name from_etcd t w)
  unfolding remove_line
  remove_line-Same name from_etcd t w ne ne' = elim (Option-cases (lookup name t.lines)) [
    | inl e ↦ rw (e, remove_line) refl
    | inr (l, e) ↦
        let t₁ : Topic = record t { lines = without name t.lines } in
        let w₁ = (export_topic deps t₁ w).1 in
        let first = export_topic-Same t₁ w ne' in
        elim (Result-cases (export_topic deps t₁ w).0) [
          | inr (x, f) ↦ rw (e, remove_line) (rw f tt)
          | inl (u, f) ↦
              let told : Same deps k w₁
                  (if from_etcd then w₁ else unregister_line deps t.name name w₁) =
                elim (Bool-cases from_etcd) [
                  | inl b ↦ rw b refl
                  | inr b ↦ rw b (get_data-unregister_line deps t.name name k w₁)
                ] in
              rw (e, remove_line)
                (rw f (remove-Same t.name l _ (ne l e).0 (ne l e).1 ∙ (told ∙ first)))
        ]
  ]

  -- emptyLine writes the line.
  pub empty_line-Same :
      (name : Bytes) (t : Topic) (w : World S)
      → ((l : Line) → lookup name t.lines ≡ some l → k ≢ line_store_key t.name l.name)
      → Same deps k w (empty_line deps name t w).2
  unfolding empty_line empty emptied
  empty_line-Same name t w ne = elim (Option-cases (lookup name t.lines)) [
    | inl e ↦ rw (e, empty_line) refl
    | inr (l, e) ↦ rw (e, empty_line) (export_line-Same t.name (emptied deps t.tail l) w (ne l e))
  ]
