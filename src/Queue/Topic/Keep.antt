-- ===== src/Queue/Topic/Keep.antt =====
-- The operations of a topic that write other keys than those of its messages: createLine, emptyLine
-- and the export of the lines.
use uq.Prelude.{
  ℕ, ◌≤◌, ◌<◌, ◌≡◌, refl, subst, ◌∙◌, inl, inr, Bytes, [], ◌∷◌, arith, u64_mod, lookup, Bool,
  Bool-cases, Option-cases, ℤ, Dict, map,
}
use uq.Utils.Errors.{Result, ok, Error, Result-cases}
use uq.Store.Interface.{Laws}
use uq.Queue.Line.{Line}
use uq.Queue.Deps.{Deps, World, TopicStore, get_data}
use uq.Queue.Deps.DataLaws.{get_data-set_data_ne, get_data-register_line}
use uq.Queue.LineData.{export_line, export_recycle, gen_line_store, line_store_key, empty, emptied}
use uq.Queue.Topic.{
  Topic, Outcome, returns, blocks, message_key, with_line, line_end, export_topic, empty_line,
}
use uq.Queue.Topic.Admin.{
  export_lines, export_lines_of, recycle_key, fresh_line, new_line, create_line,
}
use uq.Queue.Topic.Keys.{message_key-ne-slash, message_key-ne-name}
use uq.Queue.Topic.Sound.{IsServed, IsSound, with_line-IsSound}

module _ {S : Type 0} (deps : Deps S) where
  -- The messages of the topic are those of before.
  abbrev pub KeepsMessages : Bytes → World S → World S → Type 0
  KeepsMessages topic w w' =
      (i : ℕ) → get_data deps (message_key topic i) w' ≡ get_data deps (message_key topic i) w

  pub KeepsMessages-IsSound :
      (t : Topic) (w w' : World S)
      → KeepsMessages t.name w w'
      → IsSound deps t w
      → IsSound deps t w'
  KeepsMessages-IsSound t w w' k h = record {
    head_le = h.head_le;
    tail_lt = h.tail_lt;
    head_key = h.head_key;
    tail_key = h.tail_key;
    served = h.served;
    stored = λ i lo hi. let (d, s) = h.stored i lo hi in (d, k i ∙ s);
  }

module _ {S : Type 0} (deps : Deps S) (laws : Laws deps.storage) where
  pub export_line_keeps :
      (topic : Bytes) (l : Line) (w : World S)
      → KeepsMessages deps topic w (export_line deps topic l w).1
  unfolding export_line line_store_key
  export_line_keeps topic l w i = elim (Result-cases (deps.marshal_line (gen_line_store l))) [
    | inr (x, e) ↦ rw e refl
    | inl (buf, e) ↦ rw e (
        get_data-set_data_ne deps laws (line_store_key topic l.name) (message_key topic i) buf w
          (message_key-ne-slash topic l.name i))
  ]

  export_lines_keeps :
      (topic : Bytes) (ls : Dict Line) (w : World S)
      → KeepsMessages deps topic w (export_lines_of deps topic ls w)
  unfolding export_lines_of
  export_lines_keeps topic [] w i = refl
  export_lines_keeps topic ((name, l) ∷ ls) w i =
      export_lines_keeps topic ls (export_line deps topic l w).1 i ∙ export_line_keeps topic l w i

  -- The backup tick writes the lines only.
  pub export_lines-IsSound :
      (t : Topic) (w : World S) → IsSound deps t w → IsSound deps t (export_lines deps t w)
  unfolding export_lines
  export_lines-IsSound t w h =
      KeepsMessages-IsSound deps t w _ (export_lines_keeps t.name t.lines w) h

  pub emptied-IsServed :
      (t : Topic) (l : Line)
      → t.head ≤ t.tail
      → t.tail < u64_mod
      → IsServed t (emptied deps t.tail l)
  unfolding emptied line_end
  emptied-IsServed t l h b = record {
    valid = record {
      ihead_le = omega arith;
      head_le = omega arith;
      tail_lt = b;
      idle = λ e. refl;
      in_range = λ i o. absurd (cc o);
      distinct = tt;
      tracked = λ p i. ground arith;
    };
    needs = ground (arith, h);
  }

  -- emptyLine takes the line to the tail, whether it can be stored or not.
  pub empty_line-IsSound :
      (name : Bytes) (t : Topic) (w : World S)
      → IsSound deps t w
      → IsSound deps (empty_line deps name t w).1 (empty_line deps name t w).2
  unfolding empty_line empty
  empty_line-IsSound name t w h = elim (Option-cases (lookup name t.lines)) [
    | inl e ↦ rw (e, empty_line) h
    | inr (l, e) ↦
        rw (e, empty_line)
          (KeepsMessages-IsSound deps (with_line deps name (emptied deps t.tail l) t) w _
            (export_line_keeps t.name (emptied deps t.tail l) w)
            (with_line-IsSound name _ h (emptied-IsServed t l h.head_le h.tail_lt)))
  ]

  fresh-IsServed :
      (name : Bytes) (recycle : ℤ) (t : Topic)
      → t.head ≤ t.tail
      → t.tail < u64_mod
      → IsServed t (fresh_line deps name recycle t)
  unfolding fresh_line line_end
  fresh-IsServed name recycle t h b = record {
    valid = record {
      ihead_le = omega arith;
      head_le = ground (arith, h);
      tail_lt = b;
      idle = λ e. refl;
      in_range = λ i o. absurd (cc o);
      distinct = tt;
      tracked = λ p i. ground arith;
    };
    needs = ground arith;
  }

  pub export_topic_keeps :
      (t : Topic) (w : World S) → KeepsMessages deps t.name w (export_topic deps t w).1
  unfolding export_topic
  export_topic_keeps t w i =
      let st : TopicStore = record {
        lines = map (λ ((name, l) : Bytes × Line). l.name) t.lines;
        persist = t.persist;
      } in
      elim (Result-cases (deps.marshal_topic st)) [
        | inr (x, e) ↦ rw e refl
        | inl (buf, e) ↦ rw e (
            get_data-set_data_ne deps laws t.name (message_key t.name i) buf w
              (message_key-ne-name t.name i))
      ]

  export_recycle_keeps :
      (name : Bytes) (recycle : ℤ) (t : Topic) (w : World S)
      → KeepsMessages deps t.name w (export_recycle deps (fresh_line deps name recycle t) w).1
  unfolding export_recycle fresh_line recycle_key
  export_recycle_keeps name recycle t w i =
      get_data-set_data_ne deps laws (recycle_key t.name name) (message_key t.name i) _ w
        (message_key-ne-slash t.name _ i)

  new_line_keeps :
      (name : Bytes) (recycle : ℤ) (t : Topic) (w : World S)
      → KeepsMessages deps t.name w (new_line deps name recycle t w).1
  unfolding new_line
  new_line_keeps name recycle t w i =
      let l = fresh_line deps name recycle t in
      let w₁ = (export_line deps t.name l w).1 in
      let first = export_line_keeps t.name l w i in
      elim (Result-cases (export_line deps t.name l w).0) [
        | inr (x, e) ↦ rw e first
        | inl (u, e) ↦ rw e (elim (Result-cases (export_recycle deps l w₁).0) [
          | inr (x, f) ↦ rw f (export_recycle_keeps name recycle t w₁ i ∙ first)
          | inl (v, f) ↦ rw f (export_recycle_keeps name recycle t w₁ i ∙ first)
        ])
      ]

  new_line_fresh :
      (name : Bytes) (recycle : ℤ) (t : Topic) (w : World S) (l : Line)
      → (new_line deps name recycle t w).0 ≡ ok l
      → fresh_line deps name recycle t ≡ l
  unfolding new_line
  new_line_fresh name recycle t w l h =
      let l₀ = fresh_line deps name recycle t in
      elim (Result-cases (export_line deps t.name l₀ w).0) [
        | inr (x, e) ↦ absurd (cc (rw e at h))
        | inl (u, e) ↦
            let h₁ = rw e at h in
            elim (Result-cases (export_recycle deps l₀ (export_line deps t.name l₀ w).1).0) [
              | inr (x, f) ↦ absurd (cc (rw f at h₁))
              | inl (v, f) ↦ cc (rw f at h₁)
            ]
      ]

  -- The topic and the world of a call that returns.
  abbrev Returned : Outcome (Result Error (Unit {0}) × Topic × World S) → Type 0
  Returned (returns (r, t, w)) = IsSound deps t w
  Returned blocks = Unit {0}

  created-IsSound :
      (name : Bytes) (recycle : ℤ) (from_etcd : Bool) (t : Topic) (w : World S)
      → IsSound deps t w
      → Returned (create_line deps name recycle from_etcd t w)
  unfolding create_line
  created-IsSound name recycle from_etcd t w h = elim (Option-cases (lookup name t.lines)) [
    | inr (old, e) ↦ rw (e, create_line) h
    | inl e ↦
        let w₁ = (new_line deps name recycle t w).1 in
        let sound₁ = KeepsMessages-IsSound deps t w w₁ (new_line_keeps name recycle t w) h in
        elim (Result-cases (new_line deps name recycle t w).0) [
          | inr (x, f) ↦ rw (e, create_line) (rw f sound₁)
          | inl (l, f) ↦
              let t₁ = with_line deps name l t in
              let served : IsServed t l =
                subst (IsServed t) (new_line_fresh name recycle t w l f)
                  (fresh-IsServed name recycle t h.head_le h.tail_lt) in
              let sound₂ =
                KeepsMessages-IsSound deps t₁ w₁ (export_topic deps t₁ w₁).1
                  (export_topic_keeps t₁ w₁) (with_line-IsSound name l sound₁ served) in
              elim (Result-cases (export_topic deps t₁ w₁).0) [
                | inr (x, g) ↦ rw (e, create_line) (rw f (rw g tt))
                | inl (u, g) ↦
                    rw (e, create_line)
                      (rw f (
                        rw g (elim (Bool-cases from_etcd) [
                          | inl b ↦ rw b sound₂
                          | inr b ↦ rw b (
                              KeepsMessages-IsSound deps t₁ (export_topic deps t₁ w₁).1 _
                                (λ i.
                                  get_data-register_line deps t.name l.name _ (message_key t.name i)
                                    _)
                                sound₂)
                        ])))
              ]
        ]
  ]

  -- createLine that returns, with an error or not, leaves the topic sound.
  pub create_line-IsSound :
      (name : Bytes) (recycle : ℤ) (from_etcd : Bool) (t : Topic) (w : World S)
      (r : Result Error (Unit {0})) (t' : Topic) (w' : World S)
      → create_line deps name recycle from_etcd t w ≡ returns (r, t', w')
      → IsSound deps t w
      → IsSound deps t' w'
  create_line-IsSound name recycle from_etcd t w r t' w' e h =
      subst Returned e (created-IsSound name recycle from_etcd t w h)
