-- ===== src/Queue/Topic/Keys.antt =====
-- The storage keys of one topic: those of its messages differ from one another and from the others.
use mathlib.Core.List.{append_cancel_left}
use uq.Prelude.{
  ℕ, ◌<◌, ◌≡◌, ◌≢◌, sym, ◌∙◌, Bytes, codes, ◌∷◌, ◌++◌, append-nil, false, inl, inr, arith, u64_mod,
  bytes_eq, bytes_eq_refl, bytes_eq_ne, ◌==◌, Bool-cases, ==_iff, ==_refl,
}
use uq.Utils.Strings.Decimal.{format_uint-injective, format_uint_digit}
use uq.Queue.Topic.{message_key}

-- uQueue.go's keyTopicHead and keyTopicTail.
abbrev pub key_topic_head : Bytes
key_topic_head = codes ":head"

abbrev pub key_topic_tail : Bytes
key_topic_tail = codes ":tail"

-- Two messages of a topic with different uint64 ids have different storage keys.
pub message_key-injective :
    (topic : Bytes) (i j : ℕ)
    → i < u64_mod
    → j < u64_mod
    → message_key topic i ≡ message_key topic j
    → i ≡ j
unfolding message_key
message_key-injective topic i j hi hj e =
    format_uint-injective i j hi hj
      (append_cancel_left (codes ":") _ _ (append_cancel_left topic _ _ e))

-- The test of two message keys of one topic is the test of the ids.
pub message_key_eq :
    (topic : Bytes) (i j : ℕ)
    → i < u64_mod
    → j < u64_mod
    → bytes_eq (message_key topic i) (message_key topic j) ≡ (i == j)
message_key_eq topic i j hi hj = elim (Bool-cases (i == j)) [
  | inl e ↦ let same : i ≡ j = (==_iff i j).0 e in rw same (bytes_eq_refl _ ∙ sym (==_refl j))
  | inr e ↦ rw e (
      bytes_eq_ne _ _
        (λ k. let same : i ≡ j = message_key-injective topic i j hi hj k in ground arith))
]

key_ne_letter :
    (topic s : Bytes) (c i : ℕ)
    → i < u64_mod
    → 57 < c
    → message_key topic i ≢ topic ++ (b':' ∷ c ∷ s)
unfolding message_key
key_ne_letter topic s c i hi hc e =
    format_uint_digit i c s hi hc
      (append_cancel_left (codes ":") _ _ (append_cancel_left topic _ _ e))

-- No message key is the key of the head or of the tail.
pub message_key-ne-head :
    (topic : Bytes) (i : ℕ)
    → i < u64_mod
    → bytes_eq (message_key topic i) (topic ++ key_topic_head) ≡ false
message_key-ne-head topic i h =
    bytes_eq_ne _ _ (key_ne_letter topic (codes "ead") b'h' i h (omega arith))

pub message_key-ne-tail :
    (topic : Bytes) (i : ℕ)
    → i < u64_mod
    → bytes_eq (message_key topic i) (topic ++ key_topic_tail) ≡ false
message_key-ne-tail topic i h =
    bytes_eq_ne _ _ (key_ne_letter topic (codes "ail") b't' i h (omega arith))

-- No message key is the key of a line of the topic, nor of the topic itself.
pub message_key-ne-slash :
    (topic s : Bytes) (i : ℕ) → bytes_eq (message_key topic i) (topic ++ (b'/' ∷ s)) ≡ false
unfolding message_key
message_key-ne-slash topic s i = bytes_eq_ne _ _ (λ e. absurd (cc (append_cancel_left topic _ _ e)))

pub message_key-ne-name : (topic : Bytes) (i : ℕ) → bytes_eq (message_key topic i) topic ≡ false
unfolding message_key
message_key-ne-name topic i =
    bytes_eq_ne _ _ (λ e. absurd (cc (append_cancel_left topic _ _ (e ∙ sym (append-nil topic)))))
