-- ===== src/Queue/Topic/Durable/Empty.antt =====
-- empty keeps a topic durable.
use uq.Prelude.{
  ℕ, ◌≡◌, refl, sym, ap, subst, ◌∙◌, inl, inr, Bytes, [], ◌∷◌, some, none, lookup, Dict, NodupKeys,
  Option-cases,
}
use uq.Utils.Errors.{ok, Result-cases}
use uq.Store.Interface.{Laws, Reliable}
use uq.Queue.Line.{Line}
use uq.Queue.Deps.{Deps, World, get_data, set_data}
use uq.Queue.Deps.DataLaws.{get_data-set_data, set_data_ok}
use uq.Queue.LineData.{emptied, export_line}
use uq.Queue.Topic.{Topic, little_endian, export_head}
use uq.Queue.Topic.Admin.{empty_lines, empty_topic}
use uq.Queue.Topic.Owned.{PlainName}
use uq.Queue.Topic.Sound.{IsSound}
use uq.Queue.Topic.Empty.{empty_lines_err, empty_lines_ok, empty_lines-lookup}
use uq.Queue.Topic.Frame.{NoLine}
use uq.Queue.Topic.FrameSteps.{export_head-Same, empty_lines-Same}
use uq.Queue.Topic.LineKeys.{head-ne-line, tail-ne-line, line_key-ne-recycle, NoLine-each}
use uq.Queue.Topic.Durable.{IsDurable}
use uq.Queue.Topic.Durable.Moves.{recycle-ne-head, head-ne-tail, counted-IsDurable, lines-IsDurable}

module _ {S : Type 0} (deps : Deps S) (laws : Laws deps.storage)
    (reliable : Reliable deps.storage) where
  -- The walk of empty keeps the identity of every line, and no key comes twice.
  empty_lines-NodupKeys :
      (topic : Bytes) (tail : ℕ) (ls : Dict Line) (w : World S)
      → NodupKeys ls
      → NodupKeys (empty_lines deps topic tail ls w).1
  empty_lines-NodupKeys topic tail [] w u = unfold empty_lines in tt
  empty_lines-NodupKeys topic tail ((m, x) ∷ ls) w u =
      let w₁ = (export_line deps topic (emptied deps tail x) w).1 in
      elim (Result-cases (export_line deps topic (emptied deps tail x) w).0) [
        | inr (e, f) ↦ rw (empty_lines_err deps topic tail m x ls w e f) u
        | inl (v, f) ↦ rw (empty_lines_ok deps topic tail m x ls w f) (
          absent m (empty_lines deps topic tail ls w₁).1 (λ l' e.
              let (l, g, o) = empty_lines-lookup deps topic tail ls w₁ m l' e in
              absurd (cc (g, u.0))),
          empty_lines-NodupKeys topic tail ls w₁ u.1,
        )
      ]
    where
      absent :
          (m : Bytes) (ls : Dict Line)
          → ((l : Line) → lookup m ls ≡ some l → ⊥)
          → lookup m ls ≡ none
      absent m ls h = elim (Option-cases (lookup m ls)) [ inl e ↦ e | inr (l, e) ↦ absurd (h l e) ]

  walked-IsDurable :
      (t : Topic) (w : World S)
      → IsDurable deps t w
      → IsDurable deps
          (record t { lines = (empty_lines deps t.name t.tail t.lines w).1 })
          (empty_lines deps t.name t.tail t.lines w).2
  walked-IsDurable t w h =
      let kept = λ (k : Bytes) (ne : NoLine t.name k t.lines).
        empty_lines-Same deps laws k t.name t.tail t.lines w ne in
      lines-IsDurable deps t _ w _ (empty_lines-NodupKeys t.name t.tail t.lines w h.nodup)
        (λ j l' e.
          let (l, f, o) = empty_lines-lookup deps t.name t.tail t.lines w j l' e in
          (
            l,
            f,
            elim o [
              | inl same ↦
                  (ap (λ x. x.name) same, ap (λ x. x.recycle) same, ap (λ x. x.recycle_key) same)
              | inr same ↦
                  unfold emptied in
                  (ap (λ x. x.name) same, ap (λ x. x.recycle) same, ap (λ x. x.recycle_key) same)
            ],
          ))
        (kept _ (NoLine-each t.name _ t.lines h.nodup (λ j l e. head-ne-line t.name l.name)))
        (kept _ (NoLine-each t.name _ t.lines h.nodup (λ j l e. tail-ne-line t.name l.name)))
        (λ j l e. kept _ (
          NoLine-each t.name _ t.lines h.nodup (λ i x f.
            let o = h.lines i x f in
            line_key-ne-recycle t.name x.name j (subst PlainName (sym o.named) o.plain))))
        h

  pub empty_topic-IsDurable :
      (t : Topic) (w : World S)
      → IsSound deps t w
      → IsDurable deps t w
      → IsDurable deps (empty_topic deps t w).1 (empty_topic deps t w).2
  unfolding empty_topic
  empty_topic-IsDurable t w s h =
      let r = empty_lines deps t.name t.tail t.lines w in
      let walked = walked-IsDurable t w h in
      let t₁ : Topic = record t { lines = r.1 } in
      let t₂ : Topic = record t { lines = r.1; head = t.tail } in
      elim (Result-cases r.0) [
        | inr (x, e) ↦ rw (e, empty_topic) walked
        | inl (u, e) ↦
            rw (e, empty_topic)
              (counted-IsDurable deps t₁ t₂ r.2 _ refl refl
                (unfold export_head in
                  subst
                    (λ j.
                      get_data deps j (set_data deps t.head_key (little_endian 8 t.tail) r.2).1
                      ≡ ok (little_endian 8 t.tail))
                    s.head_key
                    (get_data-set_data deps laws t.head_key _ r.2
                      (set_data_ok deps reliable _ _ r.2)))
                (export_head-Same deps laws _ t₂ r.2
                    (λ e. head-ne-tail t.name (sym (e ∙ s.head_key)))
                  ∙ walked.tail_stored)
                (λ name.
                  export_head-Same deps laws _ t₂ r.2
                    (λ e. recycle-ne-head t.name name (e ∙ s.head_key)))
                walked)
      ]
