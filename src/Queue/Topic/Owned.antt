-- ===== src/Queue/Topic/Owned.antt =====
-- queue/uTopic.go: the storage keys that belong to a topic, and what it means to leave the others.
use uq.Prelude.{
  ℕ, ◌≡◌, ◌≢◌, refl, sym, ◌∙◌, Bytes, [], ◌∷◌, ◌++◌, true, false, ◌||◌, ◌==◌, arith, bytes_eq_ne,
}
use uq.Store.Interface.{Laws}
use uq.Queue.Deps.{Deps, World, get_data, set_data, del_data}
use uq.Queue.Deps.DataLaws.{get_data-set_data_ne, get_data-del_data_ne}

-- What stands behind the name of a topic in one of its keys: nothing, or a colon or a slash first.
abbrev pub Marked : Bytes → Type 0
Marked [] = Unit {0}
Marked (c ∷ s) = (c == b':' || c == b'/') ≡ true

-- A name with neither a colon nor a slash.
abbrev pub PlainName : Bytes → Type 0
PlainName [] = Unit {0}
PlainName (c ∷ s) = ((c == b':' || c == b'/') ≡ false) × PlainName s

-- The key is none of the topic's.
abbrev pub Foreign : Bytes → Bytes → Type 0
Foreign topic k = (s : Bytes) → Marked s → k ≢ topic ++ s

Marked-head : (c : ℕ) (s a : Bytes) → Marked s → s ≡ c ∷ a → (c == b':' || c == b'/') ≡ true
Marked-head c [] a m e = absurd (cc e)
Marked-head c (d ∷ s) a m e = let same : d ≡ c = cc e in ground (arith, m)

-- Of two keys of topics with plain names that are equal, the topics have the same name.
pub PlainName-prefix :
    (a b s z : Bytes) → PlainName a → PlainName b → Marked s → Marked z → a ++ s ≡ b ++ z → a ≡ b
PlainName-prefix [] [] s z p q m n e = refl
PlainName-prefix [] (y ∷ b) s z p q m n e = absurd (cc (q.0, Marked-head y s (b ++ z) m e))
PlainName-prefix (x ∷ a) [] s z p q m n e = absurd (cc (p.0, Marked-head x z (a ++ s) n (sym e)))
PlainName-prefix (x ∷ a) (y ∷ b) s z p q m n e =
    let first : x ≡ y = cc e in
    let rest : a ++ s ≡ b ++ z = cc e in
    let same : a ≡ b = PlainName-prefix a b s z p.1 q.1 m n rest in cc (first, same)

-- The keys of a topic are foreign to another one.
pub Foreign-other :
    (a b s : Bytes) → PlainName a → PlainName b → a ≢ b → Marked s → Foreign a (b ++ s)
Foreign-other a b s p q ne m z n e = ne (sym (PlainName-prefix b a s z q p m n e))

module _ {S : Type 0} (deps : Deps S) where
  -- Every key that is not the topic's has the value of before.
  abbrev pub KeepsForeign : Bytes → World S → World S → Type 0
  KeepsForeign topic w w' = (k : Bytes) → Foreign topic k → get_data deps k w' ≡ get_data deps k w

module _ {S : Type 0} (deps : Deps S) (laws : Laws deps.storage) (topic s : Bytes)
    (m : Marked s) where
  pub set_data-Foreign :
      (k v : Bytes) (w : World S)
      → k ≡ topic ++ s
      → KeepsForeign deps topic w (set_data deps k v w).1
  set_data-Foreign k v w e j f =
      get_data-set_data_ne deps laws k j v w (bytes_eq_ne j k (λ h. f s m (h ∙ e)))

  pub del_data-Foreign :
      (k : Bytes) (w : World S) → k ≡ topic ++ s → KeepsForeign deps topic w (del_data deps k w).1
  del_data-Foreign k w e j f =
      get_data-del_data_ne deps laws k j w (bytes_eq_ne j k (λ h. f s m (h ∙ e)))
