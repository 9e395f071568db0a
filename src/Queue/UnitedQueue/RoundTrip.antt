-- ===== src/Queue/UnitedQueue/RoundTrip.antt =====
-- Pop and Confirm of the queue: the key that one returns and the other takes.
use uq.Prelude.{
  ℕ, ◌<◌, ◌≡◌, ◌≢◌, refl, sym, ap, subst, ◌∙◌, inl, inr, Bytes, List, [], ◌∷◌, true, some, arith,
  codes, u64_mod, bytes_eq_refl, lookup, insert, lookup-insert, is_pos,
}
use uq.Utils.Errors.{ok, err, Error, Result-cases}
use uq.Utils.Strings.{acatui, split_slash, format_uint}
use uq.Utils.Strings.Decimal.{parse_uint-format_uint}
use uq.Utils.Strings.Parts.{key_parts}
use uq.Queue.Line.{Line, pop, confirm}
use uq.Queue.Line.Valid.{IsValid}
use uq.Queue.Line.Deliver.{pop-IsValid, pop_hands_out}
use uq.Queue.Line.Confirm.{confirm_delivered}
use uq.Queue.Deps.{Deps, World}
use uq.Queue.Topic.{Topic, topic_data, topic_pop, topic_confirm, with_line}
use uq.Queue.UnitedQueue.{
  UnitedQueue, trim_key, with_topic, queue_pop, queue_confirm, pop_parts, pop_from, confirm_parts,
  confirm_id, confirm_in,
}

pub lookup_inserted :
    {V : Type 0} (k : Bytes) (v : V) (m : List (Bytes × V)) → lookup k (insert k v m) ≡ some v
lookup_inserted k v m = ground (arith, lookup-insert k k v m, bytes_eq_refl k)

module _ {S : Type 0} (deps : Deps S) where
  -- The line `line` of the topic `topic` in a new state.
  abbrev moved : Bytes → Bytes → Line → Topic → UnitedQueue → UnitedQueue
  moved topic line l t u = with_topic topic (with_line deps line l t) u

  queue_pop_ok :
      (key : Bytes) (now : ℕ) (u : UnitedQueue) (w : World S) (topic line : Bytes) (t : Topic)
      (l : Line) (id : ℕ) (d : Bytes)
      → split_slash (trim_key key) ≡ topic ∷ line ∷ []
      → lookup topic u.topics ≡ some t
      → lookup line t.lines ≡ some l
      → (pop (topic_data deps t w) t.tail now l).0 ≡ ok (id, d)
      → queue_pop deps key now u w ≡ (
        ok (acatui (trim_key key) (codes "/") id, d),
        moved topic line (pop (topic_data deps t w) t.tail now l).1 t u,
      )
  unfolding queue_pop topic_pop
  queue_pop_ok key now u w topic line t l id d e f g r =
      rw (e, pop_parts) (rw (f, pop_from) (rw (g, topic_pop) (rw r refl)))

  queue_pop_err :
      (key : Bytes) (now : ℕ) (u : UnitedQueue) (w : World S) (topic line : Bytes) (t : Topic)
      (l : Line) (x : Error)
      → split_slash (trim_key key) ≡ topic ∷ line ∷ []
      → lookup topic u.topics ≡ some t
      → lookup line t.lines ≡ some l
      → (pop (topic_data deps t w) t.tail now l).0 ≡ err x
      → (queue_pop deps key now u w).0 ≡ err x
  unfolding queue_pop topic_pop
  queue_pop_err key now u w topic line t l x e f g r =
      rw (e, pop_parts) (rw (f, pop_from) (rw (g, topic_pop) (rw r refl)))

  queue_confirm_ok :
      (key : Bytes) (u : UnitedQueue) (topic line : Bytes) (t : Topic) (l : Line) (id : ℕ)
      → split_slash (trim_key key) ≡ topic ∷ line ∷ format_uint id ∷ []
      → id < u64_mod
      → lookup topic u.topics ≡ some t
      → lookup line t.lines ≡ some l
      → (queue_confirm deps key u).0 ≡ (confirm id l).0
  unfolding queue_confirm topic_confirm
  queue_confirm_ok key u topic line t l id e b f g =
      rw (e, confirm_parts)
        (rw (parse_uint-format_uint id b, confirm_id)
          (rw (f, confirm_in) (rw (g, topic_confirm) refl)))

  returned_parts :
      (key topic line : Bytes) (id : ℕ)
      → split_slash (trim_key key) ≡ topic ∷ line ∷ []
      → topic ≢ []
      → split_slash (trim_key (acatui (trim_key key) (codes "/") id))
        ≡ topic ∷ line ∷ format_uint id ∷ []
  unfolding trim_key
  returned_parts key topic line id e ne = key_parts (trim_key key) topic line id e ne

  -- The key that Pop on a valid recycling line returns is a key that Confirm takes: right after the
  -- Pop, Confirm of that key succeeds. The name of the topic must not be empty.
  pub queue_pop-queue_confirm :
      (key : Bytes) (now : ℕ) (u : UnitedQueue) (w : World S) (topic line : Bytes) (t : Topic)
      (l : Line) (k d : Bytes)
      → split_slash (trim_key key) ≡ topic ∷ line ∷ []
      → topic ≢ []
      → lookup topic u.topics ≡ some t
      → lookup line t.lines ≡ some l
      → IsValid t.tail l
      → is_pos l.recycle ≡ true
      → (queue_pop deps key now u w).0 ≡ ok (k, d)
      → (queue_confirm deps k (queue_pop deps key now u w).1).0 ≡ ok tt
  queue_pop-queue_confirm key now u w topic line t l k d e ne f g v p r =
      elim (Result-cases (pop (topic_data deps t w) t.tail now l).0) [
        | inr (x, h) ↦ absurd (cc (r, queue_pop_err key now u w topic line t l x e f g h))
        | inl ((id, c), h) ↦
            let l' = (pop (topic_data deps t w) t.tail now l).1 in
            let handed = pop_hands_out (topic_data deps t w) now v id c h in
            let popped = queue_pop_ok key now u w topic line t l id c e f g h in
            let same : acatui (trim_key key) (codes "/") id ≡ k = cc (r, ap (λ x. x.0) popped) in
            let found =
              queue_confirm_ok (acatui (trim_key key) (codes "/") id) (moved topic line l' t u)
                topic line (with_line deps line l' t) l' id (returned_parts key topic line id e ne)
                (omega (arith, handed.within, v.tail_lt)) (lookup_inserted topic _ u.topics)
                (lookup_inserted line l' t.lines) in
            let taken =
              confirm_delivered id (pop-IsValid (topic_data deps t w) now v) (handed.guarded p) in
            subst (λ x. (queue_confirm deps x (queue_pop deps key now u w).1).0 ≡ ok tt) same
              (subst (λ y. (queue_confirm deps (acatui (trim_key key) (codes "/") id) y).0 ≡ ok tt)
                (sym (ap (λ x. x.1) popped)) (found ∙ taken.0))
      ]
