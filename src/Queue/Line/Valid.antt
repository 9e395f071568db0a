-- ===== src/Queue/Line/Valid.antt =====
-- What the fields of a line have to do with one another, and with the tail of the topic.
use uq.Prelude.{
  ℕ, ◌≤◌, ◌<◌, ◌≡◌, refl, List, [], ◌∷◌, ◌++◌, Bool, true, false, ◌&&◌, ◌||◌, some, none, arith,
  ltb, leb, ◌==◌, if◌then◌else◌, is_pos, u64_mod,
}
use uq.Queue.Line.{Line, Message}

-- Is message `i` delivered and not yet confirmed?
abbrev pub in_flight : ℕ → List Message → Bool
in_flight i [] = false
in_flight i (m ∷ ms) = (m.tid == i) || in_flight i ms

abbrev pub Distinct : List Message → Type 0
Distinct [] = Unit {0}
Distinct (m ∷ ms) = (in_flight m.tid ms ≡ false) × Distinct ms

-- The map has exactly the ids from `ihead` to `head`, and says which of them are in flight.
abbrev pub Tracked : Line → Type 0
Tracked l =
    (i : ℕ)
    → l.imap i ≡ (if leb l.ihead i && ltb i l.head then some (in_flight i l.inflight) else none)

pub record IsValid (tail : ℕ) (l : Line) : Type 0 where
  pub ihead_le : l.ihead ≤ l.head
  pub head_le : l.head ≤ tail
  pub tail_lt : tail < u64_mod
  pub idle : is_pos l.recycle ≡ false → l.inflight ≡ []
  pub in_range : (i : ℕ) → in_flight i l.inflight ≡ true → (l.ihead ≤ i) × (i < l.head)
  pub distinct : Distinct l.inflight
  pub tracked : is_pos l.recycle ≡ true → Tracked l

-- A line stays valid when its topic grows.
pub IsValid-mono : {t u : ℕ} {l : Line} → t ≤ u → u < u64_mod → IsValid t l → IsValid u l
IsValid-mono h k v = record {
  ihead_le = v.ihead_le;
  head_le = omega arith;
  tail_lt = k;
  idle = v.idle;
  in_range = v.in_range;
  distinct = v.distinct;
  tracked = v.tracked;
}

pub in_flight-append :
    (i : ℕ) (ms ns : List Message) → in_flight i (ms ++ ns) ≡ (in_flight i ms || in_flight i ns)
in_flight-append i [] ns = refl
in_flight-append i (m ∷ ms) ns = ground (arith, in_flight-append i ms ns)

pub Distinct-append :
    (m : Message) (ms : List Message)
    → in_flight m.tid ms ≡ false
    → Distinct ms
    → Distinct (ms ++ m ∷ [])
Distinct-append m [] h d = (refl, tt)
Distinct-append m (n ∷ ms) h d =
    (ground (arith, in_flight-append n.tid ms (m ∷ [])), Distinct-append m ms (ground arith) d.1)

pub in_flight_self : (m : Message) (ms : List Message) → in_flight m.tid (m ∷ ms) ≡ true
in_flight_self m ms = ground arith
