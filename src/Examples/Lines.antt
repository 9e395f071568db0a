-- ===== src/Examples/Lines.antt =====
-- A line with two messages out: message 0 is due, message 2 is not, and message 1 was confirmed.
-- The topic has four messages.
use uq.Prelude.{
  ℕ, ◌≡◌, refl, Bytes, codes, [], ◌∷◌, true, false, none, arith, pos, is_pos, put, ◌&&◌, ◌==◌,
  if◌then◌else◌,
}
use uq.Utils.Errors.{Result, ok, err, Error}
use uq.Queue.Line.{is_after, Line, pop, m_pop, confirm, finish, update_ihead, not_delivered}
use uq.Queue.LineData.{gen_line_store}
use uq.Queue.Topic.Admin.{loaded_line, recycle_key}
use uq.Queue.Topic.Restart.{loaded_line-gen_line_store}
use uq.Examples.Topics.{in_memory}
use uq.Queue.Line.Valid.{IsValid, Tracked}
use uq.Queue.Line.Advance.{Advanced, update_ihead-Advanced}
use uq.Queue.Line.Deliver.{Handed, Readable, pop_hands_out, pop_ready}
use uq.Queue.Line.Hold.{Never, pops_at, pop_not_again}
use uq.Queue.Line.Times.{pop_times}
use uq.Queue.Line.MultiPop.{m_pop-pop}
use uq.Queue.Line.Confirm.{Confirmed, confirm_delivered, confirm_twice}

abbrev two_out : Line
two_out = record {
  name = codes "x";
  head = 3;
  recycle = pos 10;
  recycle_key = codes "t/x:recycle";
  inflight = record { tid = 0; exptime = 5 } ∷ record { tid = 2; exptime = 20 } ∷ [];
  ihead = 0;
  imap = put 2 true (put 1 false (put 0 true (λ i. none)));
}

-- Message `i` has the one byte `i`.
abbrev one_byte : ℕ → Result Error Bytes
one_byte i = ok (i ∷ [])

two_out-Tracked : Tracked two_out
two_out-Tracked i = ground arith

two_out-IsValid : IsValid 4 two_out
two_out-IsValid = record {
  ihead_le = omega arith;
  head_le = omega arith;
  tail_lt = omega arith;
  idle = λ e. absurd (cc (e));
  in_range = λ i o. (ground arith, ground arith);
  distinct = (refl, (refl, tt));
  tracked = λ p. two_out-Tracked;
}

two_out-Readable : Readable one_byte 4 two_out
two_out-Readable i lo hi = (i ∷ [], refl)

m_pop-pop_example : m_pop one_byte 4 9 2 two_out ≡ (
    if is_pos two_out.recycle && (2 == 0)
    then (ok [], two_out)
    else finish [] (pop_times one_byte 4 9 2 two_out))
m_pop-pop_example = m_pop-pop one_byte 9 2 two_out-IsValid two_out-Readable (omega arith)

confirm_delivered_example :
    ((confirm 0 two_out).0 ≡ ok tt) × Confirmed 0 two_out (confirm 0 two_out).1
confirm_delivered_example = confirm_delivered 0 two_out-IsValid refl

-- Message 0 is confirmed, and `ihead` passes message 1 as well.
confirm_moves : (confirm 0 two_out).1.ihead ≡ 2
unfolding confirm update_ihead
confirm_moves = refl

pop_first : (pop one_byte 4 9 two_out).0 ≡ ok (0, 0 ∷ [])
unfolding pop is_after
pop_first = refl

pop_not_again_example : Never 0 (pops_at one_byte 4 (9 ∷ 12 ∷ 19 ∷ []) (pop one_byte 4 9 two_out).1)
pop_not_again_example =
    pop_not_again one_byte 9 (9 ∷ 12 ∷ 19 ∷ []) two_out-IsValid refl (omega arith) 0 (0 ∷ [])
      pop_first (omega arith, (omega arith, (omega arith, tt)))

pop_hands_out_example : Handed one_byte 4 0 (0 ∷ []) two_out (pop one_byte 4 9 two_out).1
pop_hands_out_example = pop_hands_out one_byte 9 two_out-IsValid 0 (0 ∷ []) pop_first

pop_ready_example : (id : ℕ) × (d : Bytes) × ((pop one_byte 4 9 two_out).0 ≡ ok (id, d))
unfolding is_after
pop_ready_example = pop_ready one_byte 9 two_out-IsValid two_out-Readable refl

update_ihead-Advanced_example : Advanced two_out (update_ihead two_out)
update_ihead-Advanced_example =
    update_ihead-Advanced two_out (omega arith) (omega arith) two_out-Tracked

confirm_twice_example : confirm 2 (confirm 2 two_out).1 ≡ (err not_delivered, (confirm 2 two_out).1)
confirm_twice_example = confirm_twice 2 two_out-IsValid

stored_key : two_out.recycle_key ≡ recycle_key (codes "t") (codes "x")
unfolding recycle_key
stored_key = refl

-- After a restart the line is the one that was stored.
loaded_line-gen_line_store_example :
    loaded_line in_memory (codes "t") (codes "x") (gen_line_store two_out) (pos 10) ≡ two_out
loaded_line-gen_line_store_example =
    loaded_line-gen_line_store in_memory (codes "t") two_out two_out-IsValid refl stored_key
