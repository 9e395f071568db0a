-- ===== src/Queue/Topic/FrameSteps.antt =====
-- queue/uTopic.go: which keys clean, empty and any step of a topic leave alone.
use uq.Prelude.{
  ℕ, zero, suc, ◌≢◌, refl, ap, ◌∙◌, inl, inr, Bytes, [], ◌∷◌, ltb, inc64, Bool-cases, Dict,
}
use uq.Utils.Errors.{Result-cases}
use uq.Store.Interface.{Laws}
use uq.Queue.Line.{Line}
use uq.Queue.Deps.{Deps, World, get_data, del_data}
use uq.Queue.LineData.{export_line, emptied}
use uq.Queue.Topic.{Topic, message_key, export_head}
use uq.Queue.Topic.Admin.{empty_lines, empty_topic}
use uq.Queue.Topic.Clean.{Poll, clean_loop, clean, clean_tick}
use uq.Queue.Topic.CleanSafe.{Poll-cases}
use uq.Queue.Topic.Preserve.{clean_tick_idle, clean_tick_runs}
use uq.Queue.Topic.Empty.{empty_lines_err, empty_lines_ok}
use uq.Queue.Topic.Frame.{NoLine, NoMessage, Same, set_data-Same, del_data-Same, export_line-Same}

module _ {S : Type 0} (deps : Deps S) (laws : Laws deps.storage) (k : Bytes) where
  pub export_head-Same :
      (t : Topic) (w : World S) → k ≢ t.head_key → Same deps k w (export_head deps t w).1
  unfolding export_head
  export_head-Same t w ne = set_data-Same deps laws k t.head_key _ w ne

  pub clean_loop-Same :
      (fuel : ℕ) (polls : ℕ → Poll) (ending : ℕ) (t : Topic) (w : World S)
      → NoMessage t.name k
      → k ≢ t.head_key
      → Same deps k w (clean_loop deps fuel polls ending t w).2
  unfolding clean_loop
  clean_loop-Same zero polls ending t w ne ne' = refl
  clean_loop-Same (suc fuel) polls ending t w ne ne' =
      let w₁ = (del_data deps (message_key t.name t.head) w).1 in
      let t₁ : Topic = record t { head = inc64 t.head } in
      let w₂ = (export_head deps t₁ w₁).1 in
      let first = del_data-Same deps laws k (message_key t.name t.head) w (ne t.head) in
      let second = export_head-Same t₁ w₁ ne' ∙ first in
      elim (Bool-cases (ltb t.head ending)) [
        | inr a ↦ rw (a, clean_loop) refl
        | inl a ↦ elim (Poll-cases (polls fuel)) [
          | inl p ↦ rw (a, clean_loop) (rw p refl)
          | inr (inl p) ↦ rw (a, clean_loop) (rw p refl)
          | inr (inr p) ↦ elim (Result-cases (del_data deps (message_key t.name t.head) w).0) [
            | inr (x, d) ↦ rw (a, clean_loop) (rw p (rw d first))
            | inl (u, d) ↦ elim (Result-cases (export_head deps t₁ w₁).0) [
              | inr (x, h) ↦ rw (a, clean_loop) (rw p (rw d (rw h second)))
              | inl (v, h) ↦
                  rw (a, clean_loop)
                    (rw p (rw d (rw h (clean_loop-Same fuel polls ending t₁ w₂ ne ne' ∙ second))))
            ]
          ]
        ]
      ]

  -- The clean tick deletes messages and writes the head.
  pub clean_tick-Same :
      (polls : ℕ → Poll) (t : Topic) (w : World S)
      → NoMessage t.name k
      → k ≢ t.head_key
      → Same deps k w (clean_tick deps polls t w).1
  unfolding clean
  clean_tick-Same polls t w ne ne' = elim (Bool-cases t.persist) [
    | inl p ↦ rw (clean_tick_idle deps laws polls t w p) refl
    | inr p ↦ rw (clean_tick_runs deps laws polls t w p) (clean_loop-Same _ polls _ t w ne ne')
  ]

  pub empty_lines-Same :
      (topic : Bytes) (tail : ℕ) (ls : Dict Line) (w : World S)
      → NoLine topic k ls
      → Same deps k w (empty_lines deps topic tail ls w).2
  empty_lines-Same topic tail [] w ne = unfold empty_lines in refl
  empty_lines-Same topic tail ((name, l) ∷ ls) w ne =
      let l' = emptied deps tail l in
      let first : Same deps k w (export_line deps topic l' w).1 =
        unfold emptied in export_line-Same deps laws k topic l' w ne.0 in
      elim (Result-cases (export_line deps topic l' w).0) [
        | inr (x, f) ↦
            ap (λ r. get_data deps k r.2) (empty_lines_err deps topic tail name l ls w x f) ∙ first
        | inl (u, f) ↦
            ap (λ r. get_data deps k r.2) (empty_lines_ok deps topic tail name l ls w f)
            ∙ (empty_lines-Same topic tail ls (export_line deps topic l' w).1 ne.1 ∙ first)
      ]

  -- empty writes the lines and the head.
  pub empty_topic-Same :
      (t : Topic) (w : World S)
      → NoLine t.name k t.lines
      → k ≢ t.head_key
      → Same deps k w (empty_topic deps t w).2
  unfolding empty_topic
  empty_topic-Same t w ne ne' =
      let walked = empty_lines deps t.name t.tail t.lines w in
      let first = empty_lines-Same t.name t.tail t.lines w ne in
      elim (Result-cases walked.0) [
        | inr (x, e) ↦ rw (e, empty_topic) first
        | inl (u, e) ↦
            rw (e, empty_topic)
              (export_head-Same (record t { lines = walked.1; head = t.tail }) walked.2 ne' ∙ first)
      ]
