-- ===== src/Queue/Topic/Empty.antt =====
-- empty of a topic keeps it sound.
use uq.Prelude.{
  ℕ, ◌≤◌, ◌<◌, ◌≡◌, refl, sym, ap, subst, ◌∙◌, ◌⊎◌, inl, inr, Bytes, bytes_eq, [], ◌∷◌, some, arith,
  lookup, Bool-cases, Dict,
}
use uq.Utils.Errors.{Result, ok, err, Error, Result-cases}
use uq.Store.Interface.{Laws}
use uq.Queue.Line.{Line}
use uq.Queue.Deps.{Deps, World, get_data}
use uq.Queue.LineData.{export_line, empty, emptied}
use uq.Queue.Topic.{Topic, message_key, export_head}
use uq.Queue.Topic.Admin.{empty_lines, empty_topic}
use uq.Queue.Topic.Sound.{IsServed, IsSound, base}
use uq.Queue.Topic.CleanSafe.{export_head_keeps}
use uq.Queue.Topic.Keep.{KeepsMessages, export_line_keeps, emptied-IsServed}

module _ {S : Type 0} (deps : Deps S) where
  pub empty_lines_err :
      (topic : Bytes) (tail : ℕ) (name : Bytes) (l : Line) (ls : Dict Line) (w : World S)
      (x : Error)
      → (export_line deps topic (emptied deps tail l) w).0 ≡ err x
      → empty_lines deps topic tail ((name, l) ∷ ls) w ≡ (
        err x,
        (name, emptied deps tail l) ∷ ls,
        (export_line deps topic (emptied deps tail l) w).1,
      )
  unfolding empty_lines empty
  empty_lines_err topic tail name l ls w x e = rw (e, empty_lines) refl

  pub empty_lines_ok :
      (topic : Bytes) (tail : ℕ) (name : Bytes) (l : Line) (ls : Dict Line) (w : World S)
      → (export_line deps topic (emptied deps tail l) w).0 ≡ ok tt
      → empty_lines deps topic tail ((name, l) ∷ ls) w ≡ (
          let rest =
            empty_lines deps topic tail ls (export_line deps topic (emptied deps tail l) w).1 in
          (rest.0, (name, emptied deps tail l) ∷ rest.1, rest.2))
  unfolding empty_lines empty
  empty_lines_ok topic tail name l ls w e = rw (e, empty_lines) refl

  -- A line after the walk is one from before, or one that was emptied.
  abbrev pub Emptied : ℕ → Bytes → Dict Line → Line → Type 0
  Emptied tail j ls l' =
      (l : Line) × (lookup j ls ≡ some l) × ((l' ≡ l) ⊎ (l' ≡ emptied deps tail l))

  lookup_head :
      (tail : ℕ) (j name : Bytes) (l l' : Line) (ls ls' : Dict Line)
      → lookup j ((name, emptied deps tail l) ∷ ls') ≡ some l'
      → (lookup j ls' ≡ some l' → Emptied tail j ls l')
      → Emptied tail j ((name, l) ∷ ls) l'
  unfolding lookup
  lookup_head tail j name l l' ls ls' e k = elim (Bool-cases (bytes_eq j name)) [
    | inl b ↦ (l, rw b refl, inr (ground (arith, e, b)))
    | inr b ↦ let (m, f, o) = k (ground (arith, e, b)) in (m, rw b f, o)
  ]

  pub empty_lines-lookup :
      (topic : Bytes) (tail : ℕ) (ls : Dict Line) (w : World S) (j : Bytes) (l' : Line)
      → lookup j (empty_lines deps topic tail ls w).1 ≡ some l'
      → Emptied tail j ls l'
  empty_lines-lookup topic tail [] w j l' e = unfold empty_lines lookup in absurd (cc (e))
  empty_lines-lookup topic tail ((name, l) ∷ ls) w j l' e =
      elim (Result-cases (export_line deps topic (emptied deps tail l) w).0) [
        | inr (x, f) ↦
            lookup_head tail j name l l' ls ls
              (subst (λ r. lookup j r.1 ≡ some l') (empty_lines_err topic tail name l ls w x f) e)
              (λ g. (l', g, inl refl))
        | inl (u, f) ↦
            let w' = (export_line deps topic (emptied deps tail l) w).1 in
            lookup_head tail j name l l' ls (empty_lines deps topic tail ls w').1
              (subst (λ r. lookup j r.1 ≡ some l') (empty_lines_ok topic tail name l ls w f) e)
              (empty_lines-lookup topic tail ls w' j l')
      ]

  -- A walk that succeeds has emptied every line.
  empty_lines_all :
      (topic : Bytes) (tail : ℕ) (ls : Dict Line) (w : World S) (j : Bytes) (l' : Line)
      → (empty_lines deps topic tail ls w).0 ≡ ok tt
      → lookup j (empty_lines deps topic tail ls w).1 ≡ some l'
      → (l : Line) × (l' ≡ emptied deps tail l)
  empty_lines_all topic tail [] w j l' r e = unfold empty_lines lookup in absurd (cc (e))
  empty_lines_all topic tail ((name, l) ∷ ls) w j l' r e =
      elim (Result-cases (export_line deps topic (emptied deps tail l) w).0) [
        | inr (x, f) ↦ absurd (cc (r, ap (λ r. r.0) (empty_lines_err topic tail name l ls w x f)))
        | inl (u, f) ↦
            let w' = (export_line deps topic (emptied deps tail l) w).1 in
            let walked = empty_lines_ok topic tail name l ls w f in
            here tail j name l l' (empty_lines deps topic tail ls w').1
              (subst (λ r. lookup j r.1 ≡ some l') walked e)
              (empty_lines_all topic tail ls w' j l' (sym (ap (λ r. r.0) walked) ∙ r))
      ]
    where
      here :
          (tail : ℕ) (j name : Bytes) (l l' : Line) (ls' : Dict Line)
          → lookup j ((name, emptied deps tail l) ∷ ls') ≡ some l'
          → (lookup j ls' ≡ some l' → (m : Line) × (l' ≡ emptied deps tail m))
          → (m : Line) × (l' ≡ emptied deps tail m)
      here tail j name l l' ls' e k =
          unfold lookup in
          elim (Bool-cases (bytes_eq j name)) [
            | inl b ↦ (l, ground (arith, e, b))
            | inr b ↦ k (ground (arith, e, b))
          ]

module _ {S : Type 0} (deps : Deps S) (laws : Laws deps.storage) where
  empty_lines_keeps :
      (topic : Bytes) (tail : ℕ) (ls : Dict Line) (w : World S)
      → KeepsMessages deps topic w (empty_lines deps topic tail ls w).2
  empty_lines_keeps topic tail [] w i = unfold empty_lines in refl
  empty_lines_keeps topic tail ((name, l) ∷ ls) w i =
      let l' = emptied deps tail l in
      let w' = (export_line deps topic l' w).1 in
      let first = export_line_keeps deps laws topic l' w i in
      elim (Result-cases (export_line deps topic l' w).0) [
        | inr (x, f) ↦
            ap (λ r. get_data deps (message_key topic i) r.2)
              (empty_lines_err deps topic tail name l ls w x f)
            ∙ first
        | inl (u, f) ↦
            ap (λ r. get_data deps (message_key topic i) r.2)
              (empty_lines_ok deps topic tail name l ls w f)
            ∙ (empty_lines_keeps topic tail ls w' i ∙ first)
      ]

  abbrev walked : Topic → World S → Result Error (Unit {0}) × Dict Line × World S
  walked t w = empty_lines deps t.name t.tail t.lines w

  -- The lines after the walk are served, before the head of the topic moves.
  walked-IsSound :
      (t : Topic) (w : World S)
      → IsSound deps t w
      → IsSound deps (record t { lines = (walked t w).1 }) (walked t w).2
  walked-IsSound t w h = record {
    head_le = h.head_le;
    tail_lt = h.tail_lt;
    head_key = h.head_key;
    tail_key = h.tail_key;
    served = λ j l' e.
        let (l, f, o) = empty_lines-lookup deps t.name t.tail t.lines w j l' e in
        let s : IsServed t l' = elim o [
          | inl same ↦ subst (IsServed t) (sym same) (h.served j l f)
          | inr same ↦
              subst (IsServed t) (sym same) (emptied-IsServed deps laws t l h.head_le h.tail_lt)
        ] in
        record { valid = s.valid; needs = s.needs };
    stored = λ i lo hi.
        let (d, s) = h.stored i lo hi in (d, empty_lines_keeps t.name t.tail t.lines w i ∙ s);
  }

  abbrev at_end : Topic → World S → Topic
  at_end t w = record t { lines = (walked t w).1; head = t.tail }

  base-at_end : (t : Topic) (w : World S) (i : ℕ) → base (at_end t w) ≤ i → i < t.tail → base t ≤ i
  base-at_end t w i lo hi = elim (Bool-cases t.persist) [
    | inl p ↦ rw p (omega arith)
    | inr p ↦ let past : t.tail ≤ i = (rw p at lo) in absurd (omega (arith, past, hi))
  ]

  at_end-IsSound :
      (t : Topic) (w : World S)
      → IsSound deps t w
      → (walked t w).0 ≡ ok tt
      → IsSound deps (at_end t w) (export_head deps (at_end t w) (walked t w).2).1
  at_end-IsSound t w h r = record {
    head_le = omega arith;
    tail_lt = h.tail_lt;
    head_key = h.head_key;
    tail_key = h.tail_key;
    served = λ j l' e.
        let (l, same) = empty_lines_all deps t.name t.tail t.lines w j l' r e in
        subst (IsServed (at_end t w)) (sym same)
          (emptied-IsServed deps laws (at_end t w) l (omega arith) h.tail_lt);
    stored = λ i lo hi.
        let (d, s) = (walked-IsSound t w h).stored i (base-at_end t w i lo hi) hi in
        (
          d,
          export_head_keeps deps laws (at_end t w) (walked t w).2 i h.head_key
                (omega (arith, hi, h.tail_lt))
              ∙ s,
        );
  }

  -- empty leaves the topic sound, whether its lines and its head can be stored or not.
  pub empty_topic-IsSound :
      (t : Topic) (w : World S)
      → IsSound deps t w
      → IsSound deps (empty_topic deps t w).1 (empty_topic deps t w).2
  unfolding empty_topic
  empty_topic-IsSound t w h = elim (Result-cases (walked t w).0) [
    | inr (x, e) ↦ rw (e, empty_topic) (walked-IsSound t w h)
    | inl (u, e) ↦ rw (e, empty_topic) (at_end-IsSound t w h e)
  ]
