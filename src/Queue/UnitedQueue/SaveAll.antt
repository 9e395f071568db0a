-- ===== src/Queue/UnitedQueue/SaveAll.antt =====
-- queue/uQueue.go: exportTopics saves every topic.
use uq.Prelude.{
  ◌≡◌, ◌≢◌, refl, sym, subst, ◌∙◌, inl, inr, Bytes, [], ◌∷◌, ◌++◌, some, none, arith, lookup,
  lookup-tail, NodupKeys, Dict, bytes_eq_refl, bytes_eq, Bool-cases,
}
use uq.Store.Interface.{Laws, Reliable}
use uq.Queue.Deps.{Deps, World}
use uq.Queue.Topic.{Topic}
use uq.Queue.Topic.Admin.{export_lines}
use uq.Queue.Topic.Owned.{PlainName, Foreign, Foreign-other, KeepsForeign}
use uq.Queue.Topic.Frame.{Same, export_topic-Same, export_lines_of-Same}
use uq.Queue.Topic.Apart.{foreign_name, foreign_lines}
use uq.Queue.Topic.Saved.{
  TopicReadBack, TopicKept, TopicSaved, KeepsOwn, KeepsOwn-TopicKept, KeepsOwn-TopicSaved,
}
use uq.Queue.Topic.Saving.{exported, exported-TopicSaved}
use uq.Queue.UnitedQueue.Remove.{export_topics}

-- A topic of a running queue.
pub record IsRunning {S : Type 0} (deps : Deps S) (name : Bytes) (t : Topic) (w : World S)
    : Type 0 where
  pub named : t.name ≡ name
  pub plain : PlainName t.name
  pub kept : TopicKept deps t w
  pub back : TopicReadBack deps t

module _ {S : Type 0} (deps : Deps S) (laws : Laws deps.storage) where
  exported-KeepsForeign : (t : Topic) (w : World S) → KeepsForeign deps t.name w (exported deps t w)
  unfolding export_lines
  exported-KeepsForeign t w k f =
      export_topic-Same deps laws k t (export_lines deps t w) (foreign_name t.name k f)
      ∙ export_lines_of-Same deps laws k t.name t.lines w (foreign_lines t.name k f t.lines)

  -- exportTopics writes keys of the topics only.
  pub export_topics-Same :
      (k : Bytes) (ts : Dict Topic) (w : World S)
      → NodupKeys ts
      → ((name : Bytes) (t : Topic) → lookup name ts ≡ some t → Foreign t.name k)
      → Same deps k w (export_topics deps ts w)
  unfolding export_topics
  export_topics-Same k [] w u f = refl
  export_topics-Same k ((m, x) ∷ ts) w u f =
      export_topics-Same k ts (exported deps x w) u.1
        (λ name t e. f name t (lookup-tail m name x t ts u.0 e))
      ∙ exported-KeepsForeign x w k (f m x (unfold lookup in (rw bytes_eq_refl refl)))

  other-KeepsOwn :
      (a b : Bytes) (w w' : World S)
      → PlainName a
      → PlainName b
      → a ≢ b
      → KeepsForeign deps a w w'
      → KeepsOwn deps b w w'
  other-KeepsOwn a b w w' p q ne k s m = k (b ++ s) (Foreign-other a b s p q ne m)

module _ {S : Type 0} (deps : Deps S) (laws : Laws deps.storage)
    (reliable : Reliable deps.storage) where
  -- exportTopics of running topics leaves each of them saved.
  pub export_topics-TopicSaved :
      (ts : Dict Topic) (w : World S)
      → NodupKeys ts
      → ((name : Bytes) (t : Topic) → lookup name ts ≡ some t → IsRunning deps name t w)
      → (name : Bytes) (t : Topic) → lookup name ts ≡ some t
      → TopicSaved deps t (export_topics deps ts w)
  unfolding export_topics
  export_topics-TopicSaved [] w u h name t e = unfold lookup in absurd (cc e)
  export_topics-TopicSaved ((m, x) ∷ ts) w u h name t e =
      let w₁ = exported deps x w in
      let first = h m x (unfold lookup in (rw bytes_eq_refl refl)) in
      let apart = λ (j : Bytes) (y : Topic) (f : lookup j ts ≡ some y) (g : x.name ≡ y.name).
        let r = h j y (lookup-tail m j x y ts u.0 f) in
        let twice : m ≡ j = cc (g, first.named, r.named) in
        let none_there : lookup j ts ≡ none = subst (λ n. lookup n ts ≡ none) twice u.0 in
        let impossible : ⊥ = cc (none_there, f) in impossible in
      elim (Bool-cases (bytes_eq name m)) [
        | inr b ↦
            export_topics-TopicSaved ts w₁ u.1
              (λ j y f.
                let r = h j y (lookup-tail m j x y ts u.0 f) in
                record {
                  named = r.named;
                  plain = r.plain;
                  kept =
                      KeepsOwn-TopicKept deps y w w₁
                        (other-KeepsOwn deps laws x.name y.name w w₁ first.plain r.plain
                          (apart j y f) (exported-KeepsForeign deps laws x w))
                        r.kept;
                  back = r.back;
                })
              name t (unfold lookup in (ground (arith, e, b)))
        | inl b ↦
            let here : x ≡ t = unfold lookup in (ground (arith, e, b)) in
            let saved = exported-TopicSaved deps laws reliable x w first.back first.kept in
            subst (λ z. TopicSaved deps z (export_topics deps ts w₁)) here
              (KeepsOwn-TopicSaved deps x w₁ (export_topics deps ts w₁)
                (λ s mark. export_topics-Same deps laws (x.name ++ s) ts w₁ u.1 (λ j y f.
                  let r = h j y (lookup-tail m j x y ts u.0 f) in
                  Foreign-other y.name x.name s r.plain first.plain (λ g. apart j y f (sym g))
                    mark))
                saved)
      ]
