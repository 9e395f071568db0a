-- ===== src/Queue/Topic/Restart.antt =====
-- loadLine after exportLine: the line that a restart builds from what was stored.
use uq.Prelude.{
  ℕ, zero, suc, ◌+◌, ◌-◌, ◌<◌, ◌≡◌, refl, sym, ◌∙◌, Bytes, List, [], ◌∷◌, true, false, some, none,
  arith, u64_mod, inc64, ltb, leb, ◌&&◌, if◌then◌else◌, Bool, is_pos, NumberMap, put,
}
use uq.Queue.Line.{Line, Message}
use uq.Queue.Line.Valid.{IsValid, in_flight}
use uq.Queue.Deps.{Deps}
use uq.Queue.LineData.{gen_line_store}
use uq.Queue.Topic.Admin.{unconfirmed, in_flights, loaded_line, recycle_key}

-- The first loop of loadLine marks the ids from `ihead` to `head`.
unconfirmed_lem :
    (n start i : ℕ) (m : NumberMap Bool)
    → start + n < u64_mod
    → unconfirmed n start m i ≡ (if leb start i && ltb i (start + n) then some false else m i)
unfolding unconfirmed
unconfirmed_lem zero start i m h = ground arith
unconfirmed_lem (suc n) start i m h =
    let next : inc64 start ≡ suc start = omega arith in
    rw next (ground (arith, unconfirmed_lem n (suc start) i (put start false m) (omega arith)))

-- The second loop marks the messages in flight.
in_flights_lem :
    (ms : List Message) (i : ℕ) (m : NumberMap Bool)
    → in_flights ms m i ≡ (if in_flight i ms then some true else m i)
unfolding in_flights
in_flights_lem [] i m = refl
in_flights_lem (x ∷ ms) i m = ground (arith, in_flights_lem ms i (put x.tid true m))

module _ {S : Type 0} (deps : Deps S) where
  imap_restored :
      {tail : ℕ} (l : Line) (i : ℕ)
      → IsValid tail l
      → is_pos l.recycle ≡ true
      → in_flights l.inflight (unconfirmed (l.head - l.ihead) l.ihead (λ j. none)) i ≡ l.imap i
  imap_restored l i v p =
      in_flights_lem l.inflight i _
      ∙ ground (
        arith,
        unconfirmed_lem (l.head - l.ihead) l.ihead i (λ j. none)
            (omega (arith, v.ihead_le, v.head_le, v.tail_lt)),
        v.tracked p i,
        v.in_range i,
        v.ihead_le,
      )

  -- A valid recycling line with its own recycle key, rebuilt from its stored form as a restart
  -- does, is the line that was stored: the map of delivered ids, which is not stored, is computed
  -- back.
  pub loaded_line-gen_line_store :
      {tail : ℕ} (topic : Bytes) (l : Line)
      → IsValid tail l
      → is_pos l.recycle ≡ true
      → l.recycle_key ≡ recycle_key topic l.name
      → loaded_line deps topic l.name (gen_line_store l) l.recycle ≡ l
  unfolding loaded_line gen_line_store recycle_key
  loaded_line-gen_line_store topic l v p k j = record l {
    recycle_key = sym k j;
    imap = λ i. imap_restored l i v p j;
  }
