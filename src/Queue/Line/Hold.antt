-- ===== src/Queue/Line/Hold.antt =====
-- How long a message that was handed out is held back.
use uq.Prelude.{
  ℕ, ◌+◌, ◌≤◌, ◌<◌, ◌≡◌, ◌≢◌, refl, List, [], ◌∷◌, ◌++◌, Bool, true, false, ◌||◌, ◌&&◌, not, arith,
  i64_mod, ◌==◌, is_pos, pos_part, Bytes,
}
use uq.Utils.Errors.{Result, ok, Error}
use uq.Queue.Line.{exptime_at, is_after, Line, Message, pop, flight}
use uq.Queue.Line.Valid.{in_flight, Distinct, IsValid}
use uq.Queue.Line.Flight.{sent}
use uq.Queue.Line.Pop.{Pops, again, unreadable, next, lost, blank, pop-Pops, to_back}
use uq.Queue.Line.Times.{exptime_at_early}
use uq.Queue.Line.Deliver.{pop-IsValid}

is_after_mono : (u t exptime : ℕ) → u ≤ t → is_after u exptime ≡ true → is_after t exptime ≡ true
unfolding is_after
is_after_mono u t exptime le h = ground (arith, le, h)

-- Message `id` is in flight, and not before `t` is its time over.
abbrev pub is_held : ℕ → ℕ → List Message → Bool
is_held t id [] = false
is_held t id (m ∷ ms) = (m.tid == id && not (is_after t m.exptime)) || is_held t id ms

is_held-append :
    (t id : ℕ) (ms ns : List Message)
    → is_held t id (ms ++ ns) ≡ (is_held t id ms || is_held t id ns)
is_held-append t id [] ns = refl
is_held-append t id (m ∷ ms) ns = ground (arith, is_held-append t id ms ns)

is_held-in_flight : (t id : ℕ) (ms : List Message) → is_held t id ms ≡ true → in_flight id ms ≡ true
is_held-in_flight t id [] h = cc
is_held-in_flight t id (m ∷ ms) h = ground (arith, is_held-in_flight t id ms)

-- The one message `id` stands in front and is due: so it is not held.
due_not_held :
    (t id : ℕ) (m : Message) (rest : List Message)
    → m.tid ≡ id
    → is_after t m.exptime ≡ true
    → Distinct (m ∷ rest)
    → is_held t id (m ∷ rest) ≡ false
due_not_held t id m rest e h d = ground (arith, h, is_held-in_flight t id rest)

-- A front message that is due at `now ≤ t` is another one, and goes to the back or stays.
held_moves :
    (t id now u : ℕ) (m : Message) (rest : List Message)
    → now ≤ t
    → is_after now m.exptime ≡ true
    → is_held t id (m ∷ rest) ≡ true
    → (is_held t id (to_back u m rest) ≡ true)
      × (is_held t id ((record m { exptime = u }) ∷ rest) ≡ true)
held_moves t id now u m rest le h o =
    let m' : Message = record m { exptime = u } in
    ground (arith, is_held-append t id rest (m' ∷ []), is_after_mono now t m.exptime le h)

module _ (now : ℕ) (l : Line) where
  sent_held :
      (t id : ℕ) → is_held t id l.inflight ≡ true → is_held t id (sent now l).inflight ≡ true
  unfolding flight
  sent_held t id o =
      let m : Message = record { tid = l.head; exptime = exptime_at now l.recycle } in
      ground (arith, is_held-append t id l.inflight (m ∷ []))

  again_holds :
      (m : Message) (rest : List Message)
      → now + pos_part l.recycle < i64_mod
      → is_held (now + pos_part l.recycle) m.tid (to_back (exptime_at now l.recycle) m rest) ≡ true
  again_holds m rest fits =
      let u = now + pos_part l.recycle in
      let m' : Message = record m { exptime = exptime_at now l.recycle } in
      ground (
        arith,
        is_held-append u m.tid rest (m' ∷ []),
        exptime_at_early u now l.recycle fits (omega arith),
      )

  sent_holds :
      is_pos l.recycle ≡ true
      → now + pos_part l.recycle < i64_mod
      → is_held (now + pos_part l.recycle) l.head (sent now l).inflight ≡ true
  unfolding flight
  sent_holds p fits =
      let u = now + pos_part l.recycle in
      let m : Message = record { tid = l.head; exptime = exptime_at now l.recycle } in
      ground (
        arith,
        is_held-append u l.head l.inflight (m ∷ []),
        exptime_at_early u now l.recycle fits (omega arith),
      )

module _ {fetch : ℕ → Result Error Bytes} {tail : ℕ} (now : ℕ) {l : Line} (v : IsValid tail l) where
  Pops-not_early :
      {r : Result Error (ℕ × Bytes) × Line}
      → Pops fetch tail now l r
      → (id : ℕ) (d : Bytes) → is_held now id l.inflight ≡ true
      → r.0 ≢ ok (id, d)
  Pops-not_early (again m rest c p e h f) id d o q =
      let same_id : m.tid ≡ id = cc in
      let o' : is_held now id (m ∷ rest) ≡ true = rw e at o in
      cc (due_not_held now id m rest same_id h (rw e at (v.distinct)), o')
  Pops-not_early (unreadable m rest x p e h f) id d o q = cc
  Pops-not_early (next c n h f) id d o q =
      let same_id : l.head ≡ id = cc in
      let out = v.in_range id (is_held-in_flight now id l.inflight o) in omega (arith, out.1)
  Pops-not_early (lost x n h f) id d o q = cc
  Pops-not_early (blank n h) id d o q = cc

  Pops-keep_held :
      {r : Result Error (ℕ × Bytes) × Line}
      → Pops fetch tail now l r
      → (t id : ℕ) → now ≤ t
      → is_held t id l.inflight ≡ true
      → is_held t id r.1.inflight ≡ true
  Pops-keep_held (again m rest c p e h f) t id le o =
      (held_moves t id now _ m rest le h (rw e at o)).0
  Pops-keep_held (unreadable m rest x p e h f) t id le o =
      (held_moves t id now _ m rest le h (rw e at o)).1
  Pops-keep_held (next c n h f) t id le o = sent_held now l t id o
  Pops-keep_held (lost x n h f) t id le o = o
  Pops-keep_held (blank n h) t id le o = o

  Pops-hold :
      {r : Result Error (ℕ × Bytes) × Line}
      → Pops fetch tail now l r
      → (id : ℕ) (d : Bytes) → is_pos l.recycle ≡ true
      → now + pos_part l.recycle < i64_mod
      → r.0 ≡ ok (id, d)
      → is_held (now + pos_part l.recycle) id r.1.inflight ≡ true
  Pops-hold (again m rest c p e h f) id d y fits q =
      let same_id : m.tid ≡ id = cc in rw (← same_id) (again_holds now l m rest fits)
  Pops-hold (unreadable m rest x p e h f) id d y fits q = cc
  Pops-hold (next c n h f) id d y fits q =
      let same_id : l.head ≡ id = cc in rw (← same_id) (sent_holds now l y fits)
  Pops-hold (lost x n h f) id d y fits q = cc
  Pops-hold (blank n h) id d y fits q = cc

-- The results of pops at the given times, one after the other.
pub pops_at : (ℕ → Result Error Bytes) → ℕ → List ℕ → Line → List (Result Error (ℕ × Bytes))
pops_at fetch tail [] l = []
pops_at fetch tail (now ∷ times) l =
    let (r, l') = pop fetch tail now l in r ∷ pops_at fetch tail times l'

abbrev pub Never : ℕ → List (Result Error (ℕ × Bytes)) → Type 0
Never id [] = Unit {0}
Never id (r ∷ rs) = ((d : Bytes) → r ≢ ok (id, d)) × Never id rs

abbrev pub AllUpTo : ℕ → List ℕ → Type 0
AllUpTo t [] = Unit {0}
AllUpTo t (u ∷ us) = (u ≤ t) × AllUpTo t us

is_held_mono :
    (t u id : ℕ) (ms : List Message) → u ≤ t → is_held t id ms ≡ true → is_held u id ms ≡ true
is_held_mono t u id [] le h = h
is_held_mono t u id (m ∷ ms) le h =
    ground (arith, is_held_mono t u id ms le, is_after_mono u t m.exptime le)

held-Never :
    (fetch : ℕ → Result Error Bytes) (tail t id : ℕ) (times : List ℕ) (l : Line)
    → IsValid tail l
    → AllUpTo t times
    → is_held t id l.inflight ≡ true
    → Never id (pops_at fetch tail times l)
unfolding pops_at
held-Never fetch tail t id [] l v b o = tt
held-Never fetch tail t id (now ∷ times) l v b o = (
  λ d. Pops-not_early now v (pop-Pops fetch tail now l) id d (is_held_mono t now id _ b.0 o),
  held-Never fetch tail t id times _ (pop-IsValid fetch now v) b.1
      (Pops-keep_held now v (pop-Pops fetch tail now l) t id b.0 o),
)

-- On a valid recycling line, if `now + recycle` fits in the int64 of an expiry time, a message that pop
-- hands out at time `now` is handed out by none of the pops that follow at times up to `now + recycle`.
pub pop_not_again :
    (fetch : ℕ → Result Error Bytes) (now : ℕ) (times : List ℕ) {tail : ℕ} {l : Line}
    → IsValid tail l
    → is_pos l.recycle ≡ true
    → now + pos_part l.recycle < i64_mod
    → (id : ℕ) (d : Bytes) → (pop fetch tail now l).0 ≡ ok (id, d)
    → AllUpTo (now + pos_part l.recycle) times
    → Never id (pops_at fetch tail times (pop fetch tail now l).1)
pop_not_again fetch now times {tail = tail} {l = l} v p fits id d q b =
    held-Never fetch tail _ id times _ (pop-IsValid fetch now v) b
      (Pops-hold now v (pop-Pops fetch tail now l) id d p fits q)
