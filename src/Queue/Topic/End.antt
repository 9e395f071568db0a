-- ===== src/Queue/Topic/End.antt =====
-- getEnd: a lower bound of what every line still needs.
use uq.Prelude.{
  ℕ, ◌≤◌, ◌≡◌, ◌⊎◌, refl, inl, inr, Bytes, [], ◌∷◌, some, arith, ltb, if◌then◌else◌, Dict, lookup,
}
use uq.Queue.Line.{Line}
use uq.Queue.Topic.{Topic, line_end, lowest, end_of, get_end}

lowest-le : (end : ℕ) (ls : Dict Line) → lowest end ls ≤ end
unfolding lowest
lowest-le end [] = omega arith
lowest-le end ((name, l) ∷ ls) =
    let e = if ltb (line_end l) end then line_end l else end in ground (arith, lowest-le e ls)

-- getEnd is at most the need of each line.
lowest-le-line_end :
    (end : ℕ) (ls : Dict Line) (name : Bytes) (l : Line)
    → lookup name ls ≡ some l
    → lowest end ls ≤ line_end l
unfolding lowest lookup
lowest-le-line_end end [] name l h = cc
lowest-le-line_end end ((n, x) ∷ ls) name l h =
    let e = if ltb (line_end x) end then line_end x else end in
    ground (arith, lowest-le e ls, lowest-le-line_end e ls name l)

end_of-le-line_end :
    (head tail : ℕ) (ls : Dict Line) (name : Bytes) (l : Line)
    → lookup name ls ≡ some l
    → end_of head tail ls ≤ line_end l
end_of-le-line_end head tail [] name l h = absurd (unfold lookup in cc)
end_of-le-line_end head tail (x ∷ ls) name l h =
    unfold end_of in lowest-le-line_end tail (x ∷ ls) name l h

-- No line needs a message below getEnd: for every line of the topic, getEnd is at most its `ihead`
-- if it recycles, and its `head` if not.
pub get_end-le-line_end :
    (t : Topic) (name : Bytes) (l : Line) → lookup name t.lines ≡ some l → get_end t ≤ line_end l
get_end-le-line_end t name l h = unfold get_end in end_of-le-line_end t.head t.tail t.lines name l h

end_of_bounds :
    (head tail : ℕ) (ls : Dict Line) → (end_of head tail ls ≡ head) ⊎ (end_of head tail ls ≤ tail)
end_of_bounds head tail [] = inl (unfold end_of in refl)
end_of_bounds head tail (x ∷ ls) = inr (unfold end_of in lowest-le tail (x ∷ ls))

-- getEnd is the head of a topic without lines, and at most the tail of any other.
pub get_end_bounds : (t : Topic) → (get_end t ≡ t.head) ⊎ (get_end t ≤ t.tail)
get_end_bounds t = unfold get_end in end_of_bounds t.head t.tail t.lines
