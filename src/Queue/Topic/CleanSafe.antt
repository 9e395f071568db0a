-- ===== src/Queue/Topic/CleanSafe.antt =====
-- clean deletes only what no line needs.
use uq.Prelude.{
  ℕ, zero, suc, ◌-◌, ◌≤◌, ◌<◌, ◌≡◌, ◌⊎◌, refl, ◌∙◌, inl, inr, Bytes, ◌++◌, true, false, some, arith,
  ltb, ◌==◌, u64_mod, inc64, lookup, Bool-cases, ltb→lt, is_pos,
}
use uq.Utils.Errors.{ok, err, Error, Result-cases}
use uq.Store.Interface.{Laws}
use uq.Queue.Line.{Line}
use uq.Queue.Line.Valid.{in_flight, IsValid}
use uq.Queue.Deps.{Deps, World, get_data, del_data}
use uq.Queue.Deps.DataLaws.{
  get_data-set_data_ne, get_data-del_data_ne, get_data-del_data_err, get_data-del_data,
}
use uq.Queue.Topic.{Topic, get_end, line_end, export_head, message_key}
use uq.Queue.Topic.Keys.{key_topic_head, message_key_eq, message_key-ne-head}
use uq.Queue.Topic.Clean.{Poll, quitting, late, clear, clean_loop, clean}
use uq.Queue.Topic.End.{get_end-le-line_end, get_end_bounds}

module _ {S : Type 0} (deps : Deps S) where
  -- `t' w'` is `t w` after messages from `t.head` to `t'.head`, and no others, were deleted.
  pub record Cleaned (ending : ℕ) (t : Topic) (w : World S) (t' : Topic) (w' : World S)
      : Type 0 where
    pub forward : t.head ≤ t'.head
    pub bounded : (t'.head ≤ ending) ⊎ (t'.head ≡ t.head)
    pub kept :
        (i : ℕ)
        → i < u64_mod
        → (i < t.head) ⊎ (t'.head ≤ i)
        → get_data deps (message_key t.name i) w' ≡ get_data deps (message_key t.name i) w
    pub gone :
        (i : ℕ)
        → t.head ≤ i
        → i < t'.head
        → (e : Error) × (get_data deps (message_key t.name i) w' ≡ err e)
    pub same : record t { head = t'.head } ≡ t'

  Cleaned-refl :
      (ending : ℕ) (t : Topic) (w w' : World S)
      → ((i : ℕ) → get_data deps (message_key t.name i) w' ≡ get_data deps (message_key t.name i) w)
      → Cleaned ending t w t w'
  Cleaned-refl ending t w w' s = record {
    forward = omega arith;
    bounded = inr refl;
    kept = λ i h o. s i;
    gone = λ i lo hi. absurd (omega arith);
    same = refl;
  }

pub Poll-cases : (p : Poll) → (p ≡ quitting) ⊎ ((p ≡ late) ⊎ (p ≡ clear))
Poll-cases quitting = inl refl
Poll-cases late = inr (inl refl)
Poll-cases clear = inr (inr refl)

line_end-le : {tail : ℕ} (l : Line) → IsValid tail l → line_end l ≤ l.head
unfolding line_end
line_end-le l v = ground (arith, v.ihead_le)

line_end-le_in_flight :
    {tail : ℕ} (l : Line) (i : ℕ) → IsValid tail l → in_flight i l.inflight ≡ true → line_end l ≤ i
unfolding line_end
line_end-le_in_flight l i v o = elim (Bool-cases (is_pos l.recycle)) [
  | inl p ↦ rw p ((v.in_range i o).0)
  | inr n ↦ cc (v.idle n, o)
]

needed :
    (t : Topic) (name : Bytes) (l : Line) (i : ℕ)
    → lookup name t.lines ≡ some l
    → IsValid t.tail l
    → (in_flight i l.inflight ≡ true) ⊎ (l.head ≤ i)
    → get_end t ≤ i
needed t name l i e v (inl o) =
    omega (arith, get_end-le-line_end t name l e, line_end-le_in_flight l i v o)
needed t name l i e v (inr o) = omega (arith, get_end-le-line_end t name l e, line_end-le l v)

module _ {S : Type 0} (deps : Deps S) (laws : Laws deps.storage) where
  -- One message is deleted, and the new head is stored, or not.
  abbrev pub deleted : Topic → World S → World S
  deleted t w = (del_data deps (message_key t.name t.head) w).1

  abbrev pub next_topic : Topic → Topic
  next_topic t = record t { head = inc64 t.head }

  -- Storing the head leaves the messages alone.
  pub export_head_keeps :
      (t : Topic) (w : World S) (i : ℕ)
      → t.head_key ≡ t.name ++ key_topic_head
      → i < u64_mod
      → get_data deps (message_key t.name i) (export_head deps t w).1
        ≡ get_data deps (message_key t.name i) w
  unfolding export_head
  export_head_keeps t w i k h =
      get_data-set_data_ne deps laws t.head_key (message_key t.name i) _ w
        (rw k (message_key-ne-head t.name i h))

  pub deleted_keeps :
      (t : Topic) (w : World S) (i : ℕ)
      → (i == t.head) ≡ false
      → i < u64_mod
      → t.head < u64_mod
      → get_data deps (message_key t.name i) (deleted t w) ≡ get_data deps (message_key t.name i) w
  deleted_keeps t w i n h k =
      get_data-del_data_ne deps laws (message_key t.name t.head) (message_key t.name i) w
        (message_key_eq t.name i t.head h k ∙ n)

  pub round :
      (ending : ℕ) (t t' : Topic) (w w' : World S)
      → t.head_key ≡ t.name ++ key_topic_head
      → t.head < ending
      → ending < u64_mod
      → (del_data deps (message_key t.name t.head) w).0 ≡ ok tt
      → Cleaned deps ending (next_topic t) (export_head deps (next_topic t) (deleted t w)).1 t' w'
      → Cleaned deps ending t w t' w'
  round ending t t' w w' k h b d c = record {
    forward = omega (arith, c.forward);
    bounded = inl (omega (arith, c.bounded));
    kept = λ i hi o.
        c.kept i hi (ground (arith, c.forward))
        ∙ export_head_keeps (next_topic t) (deleted t w) i k hi
        ∙ deleted_keeps t w i (ground (arith, c.forward)) hi (omega arith);
    gone = λ i lo hi. elim (Bool-cases (i == t.head)) [
      | inl e ↦
          let here : i ≡ t.head = ground arith in
          rw here (
            _,
            c.kept t.head (omega arith) (inl (omega arith))
                ∙ export_head_keeps (next_topic t) (deleted t w) t.head k (omega arith)
                ∙ get_data-del_data deps laws (message_key t.name t.head) w d,
          )
      | inr e ↦ c.gone i (ground arith) hi
    ];
    same = c.same;
  }

  clean_loop-Cleaned :
      (fuel : ℕ) (polls : ℕ → Poll) (ending : ℕ) (t : Topic) (w : World S)
      → t.head_key ≡ t.name ++ key_topic_head
      → ending < u64_mod
      → Cleaned deps ending t w
          (clean_loop deps fuel polls ending t w).1
          (clean_loop deps fuel polls ending t w).2
  unfolding clean_loop
  clean_loop-Cleaned zero polls ending t w k b = Cleaned-refl deps ending t w w (λ i. refl)
  clean_loop-Cleaned (suc fuel) polls ending t w k b =
      let stay = Cleaned-refl deps ending t w w (λ i. refl) in
      let t₁ = next_topic t in
      let w₁ = deleted t w in
      let w₂ = (export_head deps t₁ w₁).1 in
      elim (Bool-cases (ltb t.head ending)) [
        | inr e ↦ rw (e, clean_loop) stay
        | inl e ↦ elim (Poll-cases (polls fuel)) [
          | inl p ↦ rw (e, clean_loop) (rw p stay)
          | inr (inl p) ↦ rw (e, clean_loop) (rw p stay)
          | inr (inr p) ↦ elim (Result-cases (del_data deps (message_key t.name t.head) w).0) [
            | inr (x, d) ↦
                rw (e, clean_loop)
                  (rw p (
                    rw d (
                      Cleaned-refl deps ending t w w₁
                        (λ i. get_data-del_data_err deps laws _ (message_key t.name i) x w d))))
            | inl (u, d) ↦
                let step = λ (t' : Topic) (w' : World S) (c : Cleaned deps ending t₁ w₂ t' w').
                  round ending t t' w w' k (ltb→lt _ _ e) b d c in
                elim (Result-cases (export_head deps t₁ w₁).0) [
                  | inr (x, h) ↦
                      rw (e, clean_loop)
                        (rw p
                          (rw d (rw h (step _ _ (Cleaned-refl deps ending t₁ w₂ w₂ (λ i. refl))))))
                  | inl (u', h) ↦
                      rw (e, clean_loop)
                        (rw p
                          (rw d (rw h (step _ _ (clean_loop-Cleaned fuel polls ending t₁ w₂ k b)))))
                ]
          ]
        ]
      ]

  get_end-lt : (t : Topic) → t.head < u64_mod → t.tail < u64_mod → get_end t < u64_mod
  get_end-lt t h k = omega (arith, get_end_bounds t)

  pub clean-Cleaned :
      (polls : ℕ → Poll) (t : Topic) (w : World S)
      → t.head_key ≡ t.name ++ key_topic_head
      → t.head ≤ t.tail
      → t.tail < u64_mod
      → Cleaned deps (get_end t) t w (clean deps polls t w).1 (clean deps polls t w).2
  unfolding clean
  clean-Cleaned polls t w k h b =
      clean_loop-Cleaned (get_end t - t.head) polls (get_end t) t w k
        (get_end-lt t (omega (arith, h, b)) b)

  -- On a topic with its own head key and with its head at most its tail, whatever the polls, and
  -- whether the storage fails or not, clean leaves alone the stored bytes of every message, with
  -- an id below 2 ^ 64, that a valid line of the topic has in flight or has not read yet.
  pub clean_spares_needed :
      (polls : ℕ → Poll) (t : Topic) (w : World S) (name : Bytes) (l : Line) (i : ℕ)
      → t.head_key ≡ t.name ++ key_topic_head
      → t.head ≤ t.tail
      → lookup name t.lines ≡ some l
      → IsValid t.tail l
      → (in_flight i l.inflight ≡ true) ⊎ (l.head ≤ i)
      → i < u64_mod
      → get_data deps (message_key t.name i) (clean deps polls t w).2
        ≡ get_data deps (message_key t.name i) w
  clean_spares_needed polls t w name l i k h e v need b =
      let c = clean-Cleaned polls t w k h v.tail_lt in
      let low : get_end t ≤ i = needed t name l i e v need in
      c.kept i b (ground (arith, c.bounded, c.forward))
