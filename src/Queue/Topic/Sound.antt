-- ===== src/Queue/Topic/Sound.antt =====
-- What holds of a topic and its storage between two operations, and how the operations on its lines
-- keep it.
use uq.Prelude.{
  ℕ, ◌≤◌, ◌<◌, ◌≡◌, subst, inl, inr, Bytes, bytes_eq, ◌++◌, some, arith, u64_mod, if◌then◌else◌,
  lookup, lookup-insert, Bool-cases,
}
use uq.Utils.Errors.{ok}
use uq.Queue.Line.{Line}
use uq.Queue.Line.Valid.{IsValid}
use uq.Queue.Line.Deliver.{Readable}
use uq.Queue.Line.Onward.{Onward}
use uq.Queue.Deps.{Deps, World, get_data}
use uq.Queue.Topic.{Topic, line_end, message_key, with_line, topic_data}
use uq.Queue.Topic.Keys.{key_topic_head, key_topic_tail}

-- The first message that a line of the topic may ask for.
abbrev pub base : Topic → ℕ
base t = if t.persist then 0 else t.head

-- The line is valid, and asks for no message that may be gone.
pub record IsServed (t : Topic) (l : Line) : Type 0 where
  pub valid : IsValid t.tail l
  pub needs : base t ≤ line_end l

module _ {S : Type 0} (deps : Deps S) where
  pub record IsSound (t : Topic) (w : World S) : Type 0 where
    pub head_le : t.head ≤ t.tail
    pub tail_lt : t.tail < u64_mod
    pub head_key : t.head_key ≡ t.name ++ key_topic_head
    pub tail_key : t.tail_key ≡ t.name ++ key_topic_tail
    pub served : (name : Bytes) (l : Line) → lookup name t.lines ≡ some l → IsServed t l
    pub stored :
        (i : ℕ)
        → base t ≤ i
        → i < t.tail
        → (d : Bytes) × (get_data deps (message_key t.name i) w ≡ ok d)

line_end-Onward : {l l' : Line} → Onward l l' → line_end l ≤ line_end l'
unfolding line_end
line_end-Onward {l} {l'} o = ground (arith, o.recycle, o.ihead, o.head)

pub Onward-IsServed :
    {t : Topic} {l l' : Line} → IsServed t l → IsValid t.tail l' → Onward l l' → IsServed t l'
Onward-IsServed s v o = record { valid = v; needs = omega (arith, s.needs, line_end-Onward o) }

module _ {S : Type 0} {deps : Deps S} where
  -- A line may be replaced by any line that is served too.
  pub with_line-IsSound :
      (name : Bytes) (l' : Line) {t : Topic} {w : World S}
      → IsSound deps t w
      → IsServed t l'
      → IsSound deps (with_line deps name l' t) w
  with_line-IsSound name l' {t = t} h s = record {
    head_le = h.head_le;
    tail_lt = h.tail_lt;
    head_key = h.head_key;
    tail_key = h.tail_key;
    served = λ j l e. elim (Bool-cases (bytes_eq j name)) [
      | inl same ↦
          let is_new : l' ≡ l = ground (arith, lookup-insert name j l' t.lines) in
          let fresh : IsServed (with_line deps name l' t) l' = record {
            valid = s.valid;
            needs = s.needs;
          } in
          subst (λ x. IsServed (with_line deps name l' t) x) is_new fresh
      | inr other ↦
          let old = h.served j l (ground (arith, lookup-insert name j l' t.lines)) in
          record { valid = old.valid; needs = old.needs }
    ];
    stored = h.stored;
  }

  -- On a sound topic every line can read what it may still hand out.
  pub IsSound-Readable :
      {t : Topic} {w : World S} (name : Bytes) (l : Line)
      → IsSound deps t w
      → lookup name t.lines ≡ some l
      → Readable (topic_data deps t w) t.tail l
  unfolding topic_data line_end
  IsSound-Readable name l h e i lo hi = h.stored i (omega (arith, (h.served name l e).needs, lo)) hi
