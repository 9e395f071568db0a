-- ===== src/Queue/Topic/Durable/Moves.antt =====
-- queue/uTopic.go: the keys of a topic that a restart reads differ from the others, and a topic stays
-- durable while they have the right values.
use uq.Prelude.{
  ℕ, ◌≡◌, ◌≢◌, sym, ap, subst, ◌∙◌, Bytes, ◌∷◌, ◌++◌, some, arith, lookup, Dict, codes, NodupKeys,
  bytes_eq, bytes_eq_refl, ◌<◌, true, false,
}
use mathlib.Core.List.{append_cancel_left}
use uq.Utils.Errors.{ok}
use uq.Queue.Line.{Line}
use uq.Queue.Deps.{Deps, World, get_data}
use uq.Utils.Strings.{format_uint}
use uq.Utils.Strings.Decimal.{format_uint_low}
use uq.Queue.LineData.{key_line_recycle}
use uq.Queue.Topic.{Topic, message_key, little_endian}
use uq.Queue.Topic.Admin.{recycle_key}
use uq.Queue.Topic.Keys.{key_topic_head, key_topic_tail}
use uq.Queue.Line.Identity.{SameIdentity}
use uq.Queue.Topic.Frame.{NoMessage, Same}
use uq.Queue.Topic.Durable.{IsDurable}

letter-NoMessage : (topic s : Bytes) (c : ℕ) → b'9' < c → NoMessage topic (topic ++ (b':' ∷ c ∷ s))
unfolding message_key
letter-NoMessage topic s c h i e =
    let tails : b':' ∷ c ∷ s ≡ codes ":" ++ format_uint i = append_cancel_left topic _ _ e in
    let text : format_uint i ≡ c ∷ s = cc tails in format_uint_low i c s h text

pub head-NoMessage : (topic : Bytes) → NoMessage topic (topic ++ key_topic_head)
head-NoMessage topic = letter-NoMessage topic (codes "ead") b'h' (omega arith)

pub tail-NoMessage : (topic : Bytes) → NoMessage topic (topic ++ key_topic_tail)
tail-NoMessage topic = letter-NoMessage topic (codes "ail") b't' (omega arith)

pub recycle-NoMessage : (topic name : Bytes) → NoMessage topic (recycle_key topic name)
unfolding message_key recycle_key
recycle-NoMessage topic name i e =
    let tails : codes "/" ++ (name ++ key_line_recycle) ≡ codes ":" ++ format_uint i =
      append_cancel_left topic _ _ e in
    absurd (cc tails)

pub recycle-ne-head : (topic name : Bytes) → recycle_key topic name ≢ topic ++ key_topic_head
unfolding recycle_key
recycle-ne-head topic name e =
    let tails : codes "/" ++ (name ++ key_line_recycle) ≡ key_topic_head =
      append_cancel_left topic _ _ e in
    absurd (cc tails)

pub recycle-ne-tail : (topic name : Bytes) → recycle_key topic name ≢ topic ++ key_topic_tail
unfolding recycle_key
recycle-ne-tail topic name e =
    let tails : codes "/" ++ (name ++ key_line_recycle) ≡ key_topic_tail =
      append_cancel_left topic _ _ e in
    absurd (cc tails)

pub head-ne-tail : (topic : Bytes) → topic ++ key_topic_head ≢ topic ++ key_topic_tail
unfolding bytes_eq
head-ne-tail topic e =
    let tails : key_topic_head ≡ key_topic_tail = append_cancel_left topic _ _ e in
    let equal : false ≡ true =
      ap (λ s. bytes_eq s key_topic_tail) tails ∙ bytes_eq_refl key_topic_tail in
    cc equal

module _ {S : Type 0} (deps : Deps S) where
  -- A durable topic whose lines stay and whose head or tail moves, over a storage with the new ones.
  pub counted-IsDurable :
      (t t' : Topic) (w w' : World S)
      → t'.name ≡ t.name
      → t'.lines ≡ t.lines
      → get_data deps (t.name ++ key_topic_head) w' ≡ ok (little_endian 8 t'.head)
      → get_data deps (t.name ++ key_topic_tail) w' ≡ ok (little_endian 8 t'.tail)
      → ((name : Bytes) → Same deps (recycle_key t.name name) w w')
      → IsDurable deps t w
      → IsDurable deps t' w'
  counted-IsDurable t t' w w' n ls a b c h = record {
    head_stored = ap (λ m. get_data deps (m ++ key_topic_head) w') n ∙ a;
    tail_stored = ap (λ m. get_data deps (m ++ key_topic_tail) w') n ∙ b;
    nodup = subst NodupKeys (sym ls) h.nodup;
    lines = λ name l e.
        let x = h.lines name l (ap (lookup name) (sym ls) ∙ e) in
        record {
          named = x.named;
          plain = x.plain;
          own = x.own ∙ ap (λ m. recycle_key m l.name) (sym n);
          recycle_stored =
              ap (λ m. get_data deps (recycle_key m name) w') n ∙ c name ∙ x.recycle_stored;
        };
  }

  -- A durable topic whose lines keep their identity, one for one.
  pub lines-IsDurable :
      (t : Topic) (ls : Dict Line) (w w' : World S)
      → NodupKeys ls
      → ((j : Bytes) (l' : Line)
          → lookup j ls ≡ some l'
          → (l : Line) × (lookup j t.lines ≡ some l) × SameIdentity l l')
      → Same deps (t.name ++ key_topic_head) w w'
      → Same deps (t.name ++ key_topic_tail) w w'
      → ((j : Bytes) (l' : Line) → lookup j ls ≡ some l' → Same deps (recycle_key t.name j) w w')
      → IsDurable deps t w
      → IsDurable deps (record t { lines = ls }) w'
  lines-IsDurable t ls w w' u same a b c h = record {
    head_stored = a ∙ h.head_stored;
    tail_stored = b ∙ h.tail_stored;
    nodup = u;
    lines = λ j l' e.
        let (l, f, (n, r, k)) = same j l' e in
        let o = h.lines j l f in
        record {
          named = n ∙ o.named;
          plain = o.plain;
          own = k ∙ o.own ∙ ap (recycle_key t.name) (sym n);
          recycle_stored =
              c j l' e ∙ o.recycle_stored ∙ ap (λ z. ok (deps.duration_string z)) (sym r);
        };
  }
