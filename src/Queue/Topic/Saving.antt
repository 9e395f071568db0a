-- ===== src/Queue/Topic/Saving.antt =====
-- queue/uTopic.go, queue/uLine.go: exportLines and exportTopic leave a running topic saved.
use uq.Prelude.{
  ◌≡◌, ◌≢◌, refl, sym, ap, subst, ◌∙◌, inl, inr, Bytes, [], ◌∷◌, ◌++◌, some, arith, lookup,
  lookup-tail, NodupKeys, Dict, bytes_eq_refl, bytes_eq, Bool-cases,
}
use uq.Utils.Errors.{ok}
use uq.Store.Interface.{Laws, Reliable}
use uq.Queue.Line.{Line}
use uq.Queue.Deps.{Deps, World, get_data, set_data}
use uq.Queue.Deps.DataLaws.{get_data-set_data, set_data_ok}
use uq.Queue.LineData.{line_store_key, export_line}
use uq.Queue.Topic.{Topic, export_topic}
use uq.Queue.Topic.Admin.{recycle_key, export_lines_of, export_lines}
use uq.Queue.Topic.Keys.{key_topic_head, key_topic_tail}
use uq.Queue.Topic.Owned.{PlainName}
use uq.Queue.Topic.Frame.{NoLine, export_lines_of-Same, export_topic-Same}
use uq.Queue.Topic.Saved.{
  TopicKept-moved, topic_store, LineReadBack, TopicReadBack, TopicKept, LineSaved, TopicSaved,
  KeepsRunning,
}
use uq.Queue.Topic.LineKeys.{
  line_key-ne-recycle, line_key-injective, head-ne-line, tail-ne-line, longer-ne-name, NoLine-each,
}

module _ {S : Type 0} (deps : Deps S) where
  -- What exportTopics does with one topic.
  abbrev pub exported : Topic → World S → World S
  exported t w = (export_topic deps t (export_lines deps t w)).1

  export_topic_written :
      (t : Topic) (w : World S) (buf : Bytes)
      → deps.marshal_topic (topic_store t) ≡ ok buf
      → (export_topic deps t w).1 ≡ (set_data deps t.name buf w).1
  unfolding export_topic
  export_topic_written t w buf e = rw e refl

module _ {S : Type 0} (deps : Deps S) (laws : Laws deps.storage)
    (reliable : Reliable deps.storage) where
  export_line-LineSaved :
      (topic : Bytes) (l : Line) (w : World S)
      → LineReadBack deps l
      → LineSaved deps topic l (export_line deps topic l w).1
  unfolding export_line
  export_line-LineSaved topic l w c = record {
    back = c;
    stored = rw c.written (
        get_data-set_data deps laws (line_store_key topic l.name) (c.first ∷ c.rest) w
          (set_data_ok deps reliable _ _ w));
  }

  -- exportLines stores every line.
  export_lines-LineSaved :
      (topic : Bytes) (ls : Dict Line) (w : World S)
      → NodupKeys ls
      → ((name : Bytes) (l : Line)
          → lookup name ls ≡ some l
          → (l.name ≡ name) × LineReadBack deps l)
      → (name : Bytes) (l : Line) → lookup name ls ≡ some l
      → LineSaved deps topic l (export_lines_of deps topic ls w)
  unfolding export_lines_of
  export_lines-LineSaved topic [] w u h name l e = unfold lookup in absurd (cc e)
  export_lines-LineSaved topic ((m, x) ∷ ls) w u h name l e =
      let w₁ = (export_line deps topic x w).1 in
      let rest =
        λ (j : Bytes) (y : Line) (f : lookup j ls ≡ some y). h j y (lookup-tail m j x y ls u.0 f) in
      elim (Bool-cases (bytes_eq name m)) [
        | inr b ↦
            export_lines-LineSaved topic ls w₁ u.1 rest name l
              (unfold lookup in (ground (arith, e, b)))
        | inl b ↦
            let here : x ≡ l = unfold lookup in (ground (arith, e, b)) in
            let (named, c) = h m x (unfold lookup in (rw bytes_eq_refl refl)) in
            let saved = export_line-LineSaved topic x w c in
            let apart = NoLine-each topic (line_store_key topic x.name) ls u.1 (λ j y f g.
              let same : x.name ≡ y.name = line_key-injective topic x.name y.name g in
              let twice : m ≡ j = cc (same, named, (rest j y f).0) in cc (u.0, f, twice)) in
            subst (λ z. LineSaved deps topic z (export_lines_of deps topic ls w₁)) here
              (record {
                back = saved.back;
                stored =
                    export_lines_of-Same deps laws (line_store_key topic x.name) topic ls w₁ apart
                    ∙ saved.stored;
              })
      ]

  exported_keeps :
      (t : Topic) (w : World S) → TopicKept deps t w → KeepsRunning deps t w (exported deps t w)
  unfolding KeepsRunning export_lines recycle_key
  exported_keeps t w h =
      let walked = export_lines_of deps t.name t.lines w in
      let kept = λ (k : Bytes) (ne : NoLine t.name k t.lines) (ne' : k ≢ t.name).
        export_topic-Same deps laws k t walked ne'
        ∙ export_lines_of-Same deps laws k t.name t.lines w ne in
      (
        kept (t.name ++ key_topic_head)
            (NoLine-each t.name _ t.lines h.nodup (λ j l e. head-ne-line t.name l.name))
            (longer-ne-name t.name _ _),
        kept (t.name ++ key_topic_tail)
            (NoLine-each t.name _ t.lines h.nodup (λ j l e. tail-ne-line t.name l.name))
            (longer-ne-name t.name _ _),
        λ name l e.
            kept (recycle_key t.name name)
              (NoLine-each t.name _ t.lines h.nodup (λ j x f.
                let k = h.lines j x f in
                line_key-ne-recycle t.name x.name name (subst PlainName (sym k.named) k.plain)))
              (longer-ne-name t.name _ _),
      )

  -- exportLines and exportTopic of a running topic leave it saved.
  pub exported-TopicSaved :
      (t : Topic) (w : World S)
      → TopicReadBack deps t
      → TopicKept deps t w
      → TopicSaved deps t (exported deps t w)
  unfolding export_lines
  exported-TopicSaved t w c h =
      let walked = export_lines_of deps t.name t.lines w in
      let written : exported deps t w ≡ (set_data deps t.name (c.first ∷ c.rest) walked).1 =
        export_topic_written deps t walked (c.first ∷ c.rest) c.written in
      record {
        kept = TopicKept-moved deps t w (exported deps t w) (exported_keeps t w h) h;
        first = c.first;
        rest = c.rest;
        topic_stored =
            ap (get_data deps t.name) written
            ∙ get_data-set_data deps laws t.name (c.first ∷ c.rest) walked
                (set_data_ok deps reliable _ _ walked);
        topic_read = c.read;
        lines = λ name l e.
            let k = h.lines name l e in
            let s =
              export_lines-LineSaved t.name t.lines w h.nodup
                (λ j x f. ((h.lines j x f).named, c.lines j x f)) name l e in
            record {
              back = s.back;
              stored =
                  export_topic-Same deps laws (line_store_key t.name l.name) t walked
                    (unfold line_store_key in (longer-ne-name t.name _ _))
                  ∙ s.stored;
            };
      }
