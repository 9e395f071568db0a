-- ===== src/Queue/Topic/LineKeys.antt =====
-- queue/uLine.go: the keys of lines differ from one another and from the topic's other keys.
use uq.Prelude.{
  ℕ, ◌≡◌, ◌≢◌, refl, sym, ◌∙◌, Bytes, [], ◌∷◌, ◌++◌, some, arith, lookup, lookup-tail, NodupKeys,
  Dict, append-nil, codes, bytes_eq_refl,
}
use mathlib.Core.List.{append_cancel_left}
use uq.Queue.Line.{Line}
use uq.Queue.LineData.{line_store_key, key_line_recycle}
use uq.Queue.Topic.Admin.{recycle_key}
use uq.Queue.Topic.Keys.{key_topic_head, key_topic_tail}
use uq.Queue.Topic.Owned.{PlainName}
use uq.Queue.Topic.Frame.{NoLine}

-- A plain name is not a name followed by ":recycle".
plain-ne-recycle : (a b : Bytes) → PlainName a → a ≢ b ++ key_line_recycle
plain-ne-recycle [] [] p e = cc
plain-ne-recycle [] (y ∷ b) p e = cc
plain-ne-recycle (x ∷ a) [] p e = let c : x ≡ b':' = cc e in ground (arith, p.0)
plain-ne-recycle (x ∷ a) (y ∷ b) p e =
    let rest : a ≡ b ++ key_line_recycle = cc e in plain-ne-recycle a b p.1 rest

pub line_key-ne-recycle :
    (topic a b : Bytes) → PlainName a → recycle_key topic b ≢ line_store_key topic a
unfolding recycle_key line_store_key
line_key-ne-recycle topic a b p e =
    let tails : codes "/" ++ (b ++ key_line_recycle) ≡ codes "/" ++ a =
      append_cancel_left topic _ _ e in
    let same : b ++ key_line_recycle ≡ a = cc tails in plain-ne-recycle a b p (sym same)

pub line_key-injective :
    (topic a b : Bytes) → line_store_key topic a ≡ line_store_key topic b → a ≡ b
unfolding line_store_key
line_key-injective topic a b e =
    let tails : codes "/" ++ a ≡ codes "/" ++ b = append_cancel_left topic _ _ e in cc tails

pub head-ne-line : (topic a : Bytes) → topic ++ key_topic_head ≢ line_store_key topic a
unfolding line_store_key
head-ne-line topic a e =
    let tails : key_topic_head ≡ codes "/" ++ a = append_cancel_left topic _ _ e in cc tails

pub tail-ne-line : (topic a : Bytes) → topic ++ key_topic_tail ≢ line_store_key topic a
unfolding line_store_key
tail-ne-line topic a e =
    let tails : key_topic_tail ≡ codes "/" ++ a = append_cancel_left topic _ _ e in cc tails

-- A key of the topic with something behind its name is not the name.
pub longer-ne-name : (topic : Bytes) (c : ℕ) (s : Bytes) → topic ++ (c ∷ s) ≢ topic
longer-ne-name topic c s e =
    let none_left : c ∷ s ≡ [] = append_cancel_left topic _ _ (e ∙ sym (append-nil topic)) in
    cc none_left

pub NoLine-each :
    (topic k : Bytes) (ls : Dict Line)
    → NodupKeys ls
    → ((name : Bytes) (l : Line) → lookup name ls ≡ some l → k ≢ line_store_key topic l.name)
    → NoLine topic k ls
NoLine-each topic k [] u h = tt
NoLine-each topic k ((name, l) ∷ ls) u h = (
  h name l (unfold lookup in (rw bytes_eq_refl refl)),
  NoLine-each topic k ls u.1 (λ j x e. h j x (lookup-tail name j l x ls u.0 e)),
)
