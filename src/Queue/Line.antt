-- ===== src/Queue/Line.antt =====
-- queue/uLine.go: one line of a topic. A line reads its topic through `fetch`, which is `t.getData`,
-- and `tail`, which is `t.getTail()`; `now` is the reading of the clock that a call takes. Each
-- operation holds the locks of its line throughout, so it is one step. Instants are nanoseconds
-- since 1970; the time at which a message expires is an int64 of them, which wraps around.
pub mod Valid
pub mod Advance
pub mod Flight
pub mod Pop
pub mod Deliver
pub mod Hold
pub mod Times
pub mod MultiPop
pub mod MultiValid
pub mod Onward
pub mod Identity
pub mod Order
pub mod Confirm
use uq.Prelude.{
  ℕ, zero, suc, ◌+◌, ◌-◌, Bytes, codes, List, [], ◌∷◌, ◌++◌, map, Bool, true, false, Option, none,
  some, ℤ, pos_part, is_pos, is_zero, ltb, leb, ◌==◌, if◌then◌else◌, inc64, u64_mod, i64_mod, ◌%◌,
  ◌||◌, length, NumberMap, put, drop_key,
}
use mathlib.Core.Option
use uq.Utils.Errors.{Result, ok, err, ◌>>=◌, Error, new_error, err_none, err_not_delivered}

-- InflightMessage
pub record Message : Type 0 where
  pub tid : ℕ
  pub exptime : ℕ

-- `recycle` is a time.Duration in nanoseconds, and `imap` the Go map of delivered ids.
pub record Line : Type 0 where
  pub name : Bytes
  pub head : ℕ
  pub recycle : ℤ
  pub recycle_key : Bytes
  pub inflight : List Message
  pub ihead : ℕ
  pub imap : NumberMap Bool

-- UnixNano of `now.Add(recycle)`: an int64 that wraps around, kept as its 64 bits.
unfoldable pub exptime_at : ℕ → ℤ → ℕ
exptime_at now recycle = (now + pos_part recycle) % u64_mod

-- `now.After(time.Unix(0, exptime))`: an int64 with its top bit is an instant before 1970.
unfoldable pub is_after : ℕ → ℕ → Bool
is_after now exptime = leb i64_mod exptime || ltb exptime now

-- The loop of updateiHead: `ihead` passes ids that are not in the map or are confirmed. `fuel` bounds
-- the rounds; `update_ihead` gives one for each id up to `head`.
advance : ℕ → Line → Line
advance zero l = l
advance (suc fuel) l = elim (ltb l.ihead l.head) [
  | false ↦ l
  | true ↦ elim (l.imap l.ihead) [
    | none ↦ advance fuel (record l { ihead = inc64 l.ihead })
    | some true ↦ l
    | some false ↦ advance fuel (record l { ihead = inc64 l.ihead; imap = drop_key l.ihead l.imap })
  ]
]

unfoldable pub update_ihead : Line → Line
unfolding advance
update_ihead l = advance (l.head - l.ihead) l

-- Message `tid` is out until `now + recycle`, if the line recycles.
pub flight : ℕ → ℕ → Line → Line
flight now tid l =
    if is_pos l.recycle
    then record l {
      inflight = l.inflight ++ (record { tid = tid; exptime = exptime_at now l.recycle }) ∷ [];
      imap = put tid true l.imap;
    }
    else l

-- mPop's second loop: `fc` messages go from the front to the back, with a new time.
pub rotate : ℕ → ℤ → ℕ → List Message → List Message
rotate now recycle zero ms = ms
rotate now recycle (suc fc) [] = []
rotate now recycle (suc fc) (m ∷ ms) =
    rotate now recycle fc (ms ++ (record m { exptime = exptime_at now recycle }) ∷ [])

-- The end of mPop: an empty result is the error ErrNone.
pub finish : List (ℕ × Bytes) → List (ℕ × Bytes) × Line → Result Error (List (ℕ × Bytes)) × Line
finish [] ([], l) = (err (new_error err_none (codes "line mPop")), l)
finish [] (x ∷ xs, l) = (ok (x ∷ xs), l)
finish (x ∷ xs) (ys, l) = (ok (x ∷ xs ++ ys), l)

module _ (fetch : ℕ → Result Error Bytes) (tail now : ℕ) where
  deliver : Line → Result Error Bytes → Result Error (ℕ × Bytes) × Line
  unfolding flight
  deliver l (err e) = (err e, l)
  deliver l (ok d) = (ok (l.head, d), flight now l.head (record l { head = inc64 l.head }))

  -- The second half of pop: the next message of the topic.
  pop_head : Line → Result Error (ℕ × Bytes) × Line
  unfolding deliver
  pop_head l =
      if leb tail l.head
      then (err (new_error err_none (codes "line pop")), l)
      else deliver l (fetch l.head)

  -- The expired message `m` at the front gets its new time before its data is read.
  redeliver : Line → Message → List Message → Result Error Bytes → Result Error (ℕ × Bytes) × Line
  redeliver l m rest (err e) =
      (err e, record l { inflight = record m { exptime = exptime_at now l.recycle } ∷ rest })
  redeliver l m rest (ok d) = (
    ok (m.tid, d),
    record l { inflight = rest ++ (record m { exptime = exptime_at now l.recycle }) ∷ [] },
  )

  pop_front : Line → List Message → Result Error (ℕ × Bytes) × Line
  unfolding pop_head redeliver
  pop_front l [] = pop_head l
  pop_front l (m ∷ rest) =
      if is_after now m.exptime then redeliver l m rest (fetch m.tid) else pop_head l

  unfoldable pub pop : Line → Result Error (ℕ × Bytes) × Line
  unfolding pop_front
  pop l = if is_pos l.recycle then pop_front l l.inflight else pop_head l

  -- mPop's first loop: at most `room` expired messages from the front. The result slices `ids` and
  -- `datas` grow together, and are one list of pairs here.
  expired : ℕ → List Message → Result Error (List (ℕ × Bytes))
  expired zero ms = ok []
  expired (suc room) [] = ok []
  expired (suc room) (m ∷ ms) =
      if is_after now m.exptime
      then (fetch m.tid >>= λ d. expired room ms >>= λ got. ok ((m.tid, d) ∷ got))
      else ok []

  -- mPop's third loop: at most `room` messages from the topic, up to the first that cannot be read.
  pub fill : ℕ → Line → List (ℕ × Bytes) × Line
  unfolding flight
  fill zero l = ([], l)
  fill (suc room) l = elim (leb tail l.head) [
    | true ↦ ([], l)
    | false ↦ elim (fetch l.head) [
      | err e ↦ ([], l)
      | ok d ↦
          let (got, l') = fill room (flight now l.head (record l { head = inc64 l.head })) in
          ((l.head, d) ∷ got, l')
    ]
  ]

  m_pop_from : ℕ → Line → Result Error (List (ℕ × Bytes)) → Result Error (List (ℕ × Bytes)) × Line
  unfolding rotate fill finish
  m_pop_from n l (err e) = (err e, l)
  m_pop_from n l (ok got) =
      let fc = length got in
      let l' = record l { inflight = rotate now l.recycle fc l.inflight } in
      if leb n fc then (ok got, l') else finish got (fill (n - fc) l')

  -- `n` is the Go int; a negative one acts as 0.
  unfoldable pub m_pop : ℕ → Line → Result Error (List (ℕ × Bytes)) × Line
  unfolding expired m_pop_from
  m_pop n l =
      if is_pos l.recycle then m_pop_from n l (expired n l.inflight) else finish [] (fill n l)

-- confirm's loop: the list without its first message `id`, if there is one.
remove_tid : ℕ → List Message → Option (List Message)
remove_tid id [] = none
remove_tid id (m ∷ ms) = if m.tid == id then some ms else Option.map (λ r. m ∷ r) (remove_tid id ms)

pub not_delivered : Error
not_delivered = new_error err_not_delivered (codes "line confirm")

confirm_found : ℕ → Line → Option (List Message) → Result Error (Unit {0}) × Line
unfolding not_delivered
confirm_found id l none = (err not_delivered, l)
confirm_found id l (some rest) =
    (ok tt, update_ihead (record l { inflight = rest; imap = put id false l.imap }))

unfoldable pub confirm : ℕ → Line → Result Error (Unit {0}) × Line
unfolding confirm_found not_delivered remove_tid
confirm id l =
    if is_zero l.recycle
    then (err not_delivered, l)
    else if leb l.head id
    then (err not_delivered, l)
    else confirm_found id l (remove_tid id l.inflight)
