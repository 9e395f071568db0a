-- ===== src/Entry/Memcached/Server.antt =====
-- entry/mcEntry.go: the loop over a connection.
use uq.Prelude.{ℕ, zero, suc, Bytes, List, [], ◌++◌, false, if◌then◌else◌, length, Dict}
use uq.Queue.Interface.{MessageQueue}
use uq.Entry.{Runtime, Handled, done, hangs, crashes, Session, ends, cut_off}
use uq.Entry.Memcached.Request.{Request, Asked, Item, asked, refused, panics, is_eof, read}
use uq.Entry.Memcached.Process.{new_response, write_error, Reaction, respond, quits, process, write}

module _ {Q : Type 0} (go : Runtime) (order : Dict Item → List (Bytes × Item))
    (mq : MessageQueue Q) where
  -- What is written, and then what the rest of the session writes.
  abbrev pub and_more : Bytes → Session (Bytes × Q) → Session (Bytes × Q)
  and_more out (ends (done (more, q))) = ends (done (out ++ more, q))
  and_more out (ends hangs) = ends hangs
  and_more out (ends crashes) = ends crashes
  and_more out cut_off = cut_off

  abbrev pub then_more : Handled (Reaction × Q) → (Q → Session (Bytes × Q)) → Session (Bytes × Q)
  then_more (done (respond resp, q)) rest =
      and_more (if resp.no_reply then [] else write order resp) (rest q)
  then_more (done (quits, q)) rest = ends (done ([], q))
  then_more hangs rest = ends hangs
  then_more crashes rest = ends crashes

  -- One round, with what has been read; `clock` is the time at which a request is handled, by how
  -- much of the input is left then.
  unfoldable pub react :
      Asked Request → (ℕ → ℕ) → Q → (Bytes → Q → Session (Bytes × Q)) → Session (Bytes × Q)
  react panics clock q more = ends crashes
  react (refused e rest) clock q more =
      if is_eof e
      then ends (done ([], q))
      else and_more (write order (write_error (new_response false) e)) (more rest q)
  react (asked req rest) clock q more =
      then_more (process mq req (clock (length rest)) q) (more rest)

  -- The rounds of handlerConn, at most `fuel`: the bytes that are written.
  unfoldable pub serve : ℕ → (ℕ → ℕ) → Bytes → Q → Session (Bytes × Q)
  unfolding react
  serve zero clock input q = cut_off
  serve (suc fuel) clock input q = react (read go input) clock q (serve fuel clock)

  -- handlerConn: a round takes at least one byte, so there are at most as many as bytes,
  -- and one round more finds the end of the input.
  unfoldable pub handler_conn : (ℕ → ℕ) → Bytes → Q → Session (Bytes × Q)
  handler_conn clock input q = serve (suc (length input)) clock input q
