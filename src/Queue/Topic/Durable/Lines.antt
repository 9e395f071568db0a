-- ===== src/Queue/Topic/Durable/Lines.antt =====
-- createLine and removeLine keep a topic durable.
use mathlib.Core.List.{append_cancel_left, append_cancel_right}
use uq.Prelude.{
  ◌≡◌, ◌≢◌, refl, sym, ap, subst, ◌∙◌, inl, inr, Bytes, ◌++◌, some, none, arith, lookup, codes, ℤ,
  Bool, without, lookup-without, without-NodupKeys, insert-NodupKeys, lookup-insert, bytes_eq,
  bytes_eq_refl, eq_of_bytes_eq, Bool-cases, Option-cases, if◌then◌else◌,
}
use uq.Utils.Errors.{ok, Result-cases, Result, Error}
use uq.Store.Interface.{Laws, Reliable}
use uq.Queue.Line.{Line}
use uq.Queue.Deps.{Deps, World, get_data, unregister_line}
use uq.Queue.Deps.DataLaws.{
  get_data-set_data, set_data_ok, get_data-register_line, get_data-unregister_line,
}
use uq.Queue.LineData.{line_store_key, export_line, export_recycle, key_line_recycle, remove}
use uq.Queue.Topic.{Topic, Outcome, returns, blocks, with_line, export_topic}
use uq.Queue.Topic.Admin.{recycle_key, new_line, fresh_line, create_line, remove_line}
use uq.Queue.Topic.Keys.{key_topic_head, key_topic_tail}
use uq.Queue.Topic.Owned.{PlainName}
use uq.Queue.Topic.Frame.{Same, new_line-Same, export_topic-Same, remove-Same}
use uq.Queue.Topic.Saved.{KeepsRunning}
use uq.Queue.Topic.LineKeys.{longer-ne-name, head-ne-line, tail-ne-line, line_key-ne-recycle}
use uq.Queue.Topic.Durable.{LineOwned, IsDurable, IsDurable-moved}
use uq.Queue.Topic.Durable.Moves.{recycle-ne-head, recycle-ne-tail, lines-IsDurable}

recycle_key-injective : (topic a b : Bytes) → recycle_key topic a ≡ recycle_key topic b → a ≡ b
unfolding recycle_key
recycle_key-injective topic a b e =
    let tails : codes "/" ++ (a ++ key_line_recycle) ≡ codes "/" ++ (b ++ key_line_recycle) =
      append_cancel_left topic _ _ e in
    let names : a ++ key_line_recycle ≡ b ++ key_line_recycle = cc tails in
    append_cancel_right a b key_line_recycle names

recycle-ne-name : (topic name : Bytes) → recycle_key topic name ≢ topic
unfolding recycle_key
recycle-ne-name topic name = longer-ne-name topic _ _

module _ {S : Type 0} (deps : Deps S) where
  -- A write that spares the keys that a restart reads, but for those of the line `name`.
  KeepsBut : Topic → Bytes → World S → World S → Type 0
  KeepsBut t name w w' =
      (k : Bytes)
      → k ≢ line_store_key t.name name
      → k ≢ recycle_key t.name name
      → k ≢ t.name
      → Same deps k w w'

  but_head :
      (t : Topic) (name : Bytes) (w w' : World S)
      → KeepsBut t name w w'
      → Same deps (t.name ++ key_topic_head) w w'
  unfolding KeepsBut
  but_head t name w w' k =
      k _ (head-ne-line t.name name) (λ e. recycle-ne-head t.name name (sym e))
        (longer-ne-name t.name _ _)

  but_tail :
      (t : Topic) (name : Bytes) (w w' : World S)
      → KeepsBut t name w w'
      → Same deps (t.name ++ key_topic_tail) w w'
  unfolding KeepsBut
  but_tail t name w w' k =
      k _ (tail-ne-line t.name name) (λ e. recycle-ne-tail t.name name (sym e))
        (longer-ne-name t.name _ _)

  but_recycle :
      (t : Topic) (name j : Bytes) (w w' : World S)
      → PlainName name
      → j ≢ name
      → KeepsBut t name w w'
      → Same deps (recycle_key t.name j) w w'
  unfolding KeepsBut
  but_recycle t name j w w' p ne k =
      k _ (line_key-ne-recycle t.name name j p) (λ e. ne (recycle_key-injective t.name j name e))
        (recycle-ne-name t.name j)

  -- A new line, with its recycle time stored.
  added-IsDurable :
      (name : Bytes) (recycle : ℤ) (t : Topic) (w w' : World S)
      → lookup name t.lines ≡ none
      → PlainName name
      → KeepsBut t name w w'
      → get_data deps (recycle_key t.name name) w' ≡ ok (deps.duration_string recycle)
      → IsDurable deps t w
      → IsDurable deps (with_line deps name (fresh_line deps name recycle t) t) w'
  unfolding fresh_line
  added-IsDurable name recycle t w w' fresh p k r h =
      let l = fresh_line deps name recycle t in
      record {
        head_stored = but_head t name w w' k ∙ h.head_stored;
        tail_stored = but_tail t name w w' k ∙ h.tail_stored;
        nodup = insert-NodupKeys name l t.lines h.nodup;
        lines = λ j x f. elim (Bool-cases (bytes_eq j name)) [
          | inr other ↦
              let there : lookup j t.lines ≡ some x =
                ground (arith, lookup-insert name j l t.lines) in
              let o = h.lines j x there in
              let apart = λ (e : j ≡ name).
                let gone : lookup j t.lines ≡ none = rw e fresh in
                let no : ⊥ = cc (gone, there) in no in
              record {
                named = o.named;
                plain = o.plain;
                own = o.own;
                recycle_stored = but_recycle t name j w w' p apart k ∙ o.recycle_stored;
              }
          | inl same ↦
              let here : l ≡ x = ground (arith, lookup-insert name j l t.lines) in
              let at_name : j ≡ name = eq_of_bytes_eq j name same in
              let made : LineOwned deps (with_line deps name l t) name l w' = record {
                named = refl;
                plain = p;
                own = refl;
                recycle_stored = r;
              } in
              subst (λ y. LineOwned deps (with_line deps name l t) j y w') here
                (subst (λ m. LineOwned deps (with_line deps name l t) m l w') (sym at_name) made)
        ];
      }

  -- The topic of a call that returns is durable.
  abbrev Returned : Outcome (Result Error (Unit {0}) × Topic × World S) → Type 0
  Returned (returns (r, t, w)) = IsDurable deps t w
  Returned blocks = Unit {0}

module _ {S : Type 0} (deps : Deps S) (laws : Laws deps.storage)
    (reliable : Reliable deps.storage) where
  new_line_recycle :
      (name : Bytes) (recycle : ℤ) (t : Topic) (w : World S) (l : Line)
      → (new_line deps name recycle t w).0 ≡ ok l
      → (fresh_line deps name recycle t ≡ l)
        × (get_data deps (recycle_key t.name name) (new_line deps name recycle t w).1
            ≡ ok (deps.duration_string recycle))
  unfolding new_line export_recycle fresh_line
  new_line_recycle name recycle t w l h =
      let l₀ = fresh_line deps name recycle t in
      let w₁ = (export_line deps t.name l₀ w).1 in
      let done : (export_recycle deps l₀ w₁).0 ≡ ok tt = set_data_ok deps reliable _ _ w₁ in
      elim (Result-cases (export_line deps t.name l₀ w).0) [
        | inr (x, e) ↦ absurd (cc (rw e at h))
        | inl (u, e) ↦
            let h₁ = rw e at h in
            let h₂ = rw done at h₁ in
            (
              cc h₂,
              rw e (
                  rw done (
                    get_data-set_data deps laws (recycle_key t.name name)
                      (deps.duration_string recycle) w₁ done)),
            )
      ]

  unmade-IsDurable :
      (name : Bytes) (recycle : ℤ) (t : Topic) (w : World S)
      → lookup name t.lines ≡ none
      → PlainName name
      → IsDurable deps t w
      → IsDurable deps t (new_line deps name recycle t w).1
  unfolding KeepsRunning KeepsBut
  unmade-IsDurable name recycle t w fresh p h =
      let w₁ = (new_line deps name recycle t w).1 in
      let k : KeepsBut deps t name w w₁ =
        λ j a b c. new_line-Same deps laws j name recycle t w a b in
      IsDurable-moved deps t w w₁
        (
          but_head deps t name w w₁ k,
          but_tail deps t name w w₁ k,
          λ j x e.
              but_recycle deps t name j w w₁ p
                (λ f.
                  let gone : lookup j t.lines ≡ none = rw f fresh in
                  let no : ⊥ = cc (gone, e) in no)
                k,
        )
        h

  created-IsDurable :
      (name : Bytes) (recycle : ℤ) (from_etcd : Bool) (t : Topic) (w : World S)
      → PlainName name
      → IsDurable deps t w
      → Returned deps (create_line deps name recycle from_etcd t w)
  unfolding create_line KeepsBut
  created-IsDurable name recycle from_etcd t w p h = elim (Option-cases (lookup name t.lines)) [
    | inr (old, e) ↦ rw (e, create_line) h
    | inl e ↦
        let w₁ = (new_line deps name recycle t w).1 in
        elim (Result-cases (new_line deps name recycle t w).0) [
          | inr (x, f) ↦ rw (e, create_line) (rw f (unmade-IsDurable name recycle t w e p h))
          | inl (l, f) ↦
              let (is_fresh, time) = new_line_recycle name recycle t w l f in
              let t₁ = with_line deps name l t in
              let w₂ = (export_topic deps t₁ w₁).1 in
              let added = λ (w' : World S) (s : (k : Bytes) → Same deps k w₂ w').
                subst (λ y. IsDurable deps (with_line deps name y t) w') is_fresh
                  (added-IsDurable deps name recycle t w w' e p
                    (λ k a b c.
                      s k
                      ∙ export_topic-Same deps laws k t₁ w₁ c
                      ∙ new_line-Same deps laws k name recycle t w a b)
                    (s _ ∙ export_topic-Same deps laws _ t₁ w₁ (recycle-ne-name t.name name) ∙ time)
                    h) in
              elim (Result-cases (export_topic deps t₁ w₁).0) [
                | inr (x, g) ↦ rw (e, create_line) (rw f (rw g tt))
                | inl (u, g) ↦
                    rw (e, create_line)
                      (rw f (
                        rw g (elim (Bool-cases from_etcd) [
                          | inl b ↦ rw b (added w₂ (λ k. refl))
                          | inr b ↦ rw b (
                              added _ (λ k.
                                get_data-register_line deps t.name l.name
                                  (deps.duration_string l.recycle) k w₂))
                        ])))
              ]
        ]
  ]

  -- createLine of a line with a plain name keeps a topic durable.
  pub create_line-IsDurable :
      (name : Bytes) (recycle : ℤ) (from_etcd : Bool) (t : Topic) (w : World S)
      (r : Result Error (Unit {0})) (t' : Topic) (w' : World S)
      → create_line deps name recycle from_etcd t w ≡ returns (r, t', w')
      → PlainName name
      → IsDurable deps t w
      → IsDurable deps t' w'
  create_line-IsDurable name recycle from_etcd t w r t' w' e p h =
      subst (Returned deps) e (created-IsDurable name recycle from_etcd t w p h)

  -- The topic without a line, over a storage that lost the keys of that line only.
  told_keeps :
      (name : Bytes) (from_etcd : Bool) (topic k : Bytes) (w : World S)
      → Same deps k w (if from_etcd then w else unregister_line deps topic name w)
  told_keeps name from_etcd topic k w = elim (Bool-cases from_etcd) [
    | inl b ↦ rw b refl
    | inr b ↦ rw b (get_data-unregister_line deps topic name k w)
  ]

  left-IsDurable :
      (name : Bytes) (t : Topic) (w w' : World S)
      → PlainName name
      → KeepsBut deps t name w w'
      → IsDurable deps t w
      → IsDurable deps (record t { lines = without name t.lines }) w'
  left-IsDurable name t w w' p k h =
      lines-IsDurable deps t (without name t.lines) w w' (without-NodupKeys name t.lines h.nodup)
        (λ j l e. (l, ground (arith, e, lookup-without name j t.lines), (refl, refl, refl)))
        (but_head deps t name w w' k) (but_tail deps t name w w' k)
        (λ j l e.
          but_recycle deps t name j w w' p
            (λ f.
              let gone : lookup j (without name t.lines) ≡ none =
                lookup-without name j t.lines ∙ (rw (f, bytes_eq_refl) refl) in
              let no : ⊥ = cc (gone, e) in no)
            k)
        h

  removed-IsDurable :
      (name : Bytes) (from_etcd : Bool) (t : Topic) (w : World S)
      → IsDurable deps t w
      → Returned deps (remove_line deps name from_etcd t w)
  unfolding remove_line KeepsBut
  removed-IsDurable name from_etcd t w h = elim (Option-cases (lookup name t.lines)) [
    | inl e ↦ rw (e, remove_line) h
    | inr (l, e) ↦
        let o = h.lines name l e in
        let t₁ : Topic = record t { lines = without name t.lines } in
        let w₁ = (export_topic deps t₁ w).1 in
        elim (Result-cases (export_topic deps t₁ w).0) [
          | inr (x, f) ↦ rw (e, remove_line) (rw f tt)
          | inl (u, f) ↦
              let told = if from_etcd then w₁ else unregister_line deps t.name name w₁ in
              let same = λ (k : Bytes). told_keeps name from_etcd t.name k w₁ in
              rw (e, remove_line)
                (rw f (
                  left-IsDurable name t w (remove deps t.name l told).1 o.plain
                    (λ k a b c.
                      remove-Same deps laws k t.name l told
                        (λ g. a (g ∙ ap (line_store_key t.name) o.named))
                        (λ g. b (g ∙ o.own ∙ ap (recycle_key t.name) o.named))
                      ∙ same k
                      ∙ export_topic-Same deps laws k t₁ w c)
                    h))
        ]
  ]

  -- removeLine keeps a topic durable.
  pub remove_line-IsDurable :
      (name : Bytes) (from_etcd : Bool) (t : Topic) (w : World S) (r : Result Error (Unit {0}))
      (t' : Topic) (w' : World S)
      → remove_line deps name from_etcd t w ≡ returns (r, t', w')
      → IsDurable deps t w
      → IsDurable deps t' w'
  remove_line-IsDurable name from_etcd t w r t' w' e h =
      subst (Returned deps) e (removed-IsDurable name from_etcd t w h)
