-- ===== src/Entry/Memcached/Ends.antt =====
-- A session ends: each round takes a byte of the input at least, or leaves at the end of the input.
use uq.Prelude.{
  ℕ, zero, suc, ◌<◌, ◌≡◌, refl, ap, fun_ext, Bytes, List, [], ◌++◌, Bool-cases, inl, inr,
  if◌then◌else◌, false, arith, length, Dict,
}
use uq.Queue.Interface.{MessageQueue}
use uq.Entry.{
  Runtime, Handled, done, hangs, crashes, Session, Ended, has_closed, has_crashed, waits,
}
use uq.Entry.Memcached.Request.{Request, Item, Asked, is_eof, read}
use uq.Entry.Memcached.Process.{Reaction, respond, quits, write, write_error, new_response, process}
use uq.Entry.Memcached.Formed.{
  AskedFormed, is_formed, is_refused, at_end, has_panicked, read-AskedFormed,
}
use uq.Entry.Memcached.Server.{and_more, then_more, react, serve, handler_conn}

module _ {Q : Type 0} (go : Runtime) (order : Dict Item → List (Bytes × Item))
    (mq : MessageQueue Q) where
  -- The rest of a round does the same before two sessions that agree on every shorter input.
  react_agrees :
      (n : ℕ) (r : Asked _) (clock : ℕ → ℕ) (q : Q) (f g : Bytes → Q → Session (Bytes × Q))
      → AskedFormed n r
      → ((s : Bytes) (q' : Q) → length s < n → f s q' ≡ g s q')
      → react go order mq r clock q f ≡ react go order mq r clock q g
  unfolding react
  react_agrees n _ clock q f g (is_formed req s formed b) h =
      ap (then_more go order mq (process mq req (clock (length s)) q)) (fun_ext λ q'. h s q' b)
  react_agrees n _ clock q f g (is_refused e s b) h = rw (h s q b) refl
  react_agrees n _ clock q f g (at_end e s b) h = rw b refl
  react_agrees n _ clock q f g has_panicked h = refl

  serve_enough :
      (fuel k : ℕ) (clock : ℕ → ℕ) (input : Bytes) (q : Q)
      → length input < fuel
      → length input < k
      → serve go order mq fuel clock input q ≡ serve go order mq k clock input q
  unfolding serve
  serve_enough zero k clock input q h b = absurd (omega (arith, h))
  serve_enough fuel zero clock input q h b = absurd (omega (arith, b))
  serve_enough (suc fuel) (suc k) clock input q h b =
      react_agrees (length input) (read go input) clock q (serve go order mq fuel clock)
        (serve go order mq k clock) (read-AskedFormed go input)
        λ s q' l. serve_enough fuel k clock s q' (omega (arith, h, l)) (omega (arith, b, l))

  -- The queue has a call that waits for ever, in the process of some request.
  abbrev pub RequestHangs : Type 0
  RequestHangs = (req : Request) × (now : ℕ) × (q : Q) × (process mq req now q ≡ hangs)

  and_more-Ended :
      {H : Type 0} (out : Bytes) {s : Session (Bytes × Q)}
      → Ended H s
      → Ended H (and_more go order mq out s)
  and_more-Ended out (has_closed (more, q)) = has_closed (out ++ more, q)
  and_more-Ended out has_crashed = has_crashed
  and_more-Ended out (waits h) = waits h

  then_more-Ended :
      (req : Request) (now : ℕ) (q : Q) (h : Handled (Reaction × Q))
      (rest : Q → Session (Bytes × Q))
      → process mq req now q ≡ h
      → ((q' : Q) → Ended RequestHangs (rest q'))
      → Ended RequestHangs (then_more go order mq h rest)
  then_more-Ended req now q (done (respond resp, q')) rest e f =
      and_more-Ended (if resp.no_reply then [] else write order resp) (f q')
  then_more-Ended req now q (done (quits, q')) rest e f = has_closed ([], q')
  then_more-Ended req now q hangs rest e f = waits (req, now, q, e)
  then_more-Ended req now q crashes rest e f = has_crashed

  react-Ended :
      (n : ℕ) (r : Asked _) (clock : ℕ → ℕ) (q : Q) (f : Bytes → Q → Session (Bytes × Q))
      → AskedFormed n r
      → ((s : Bytes) (q' : Q) → length s < n → Ended RequestHangs (f s q'))
      → Ended RequestHangs (react go order mq r clock q f)
  unfolding react
  react-Ended n _ clock q f (is_formed req s formed b) h =
      then_more-Ended req (clock (length s)) q _ (f s) refl (λ q'. h s q' b)
  react-Ended n _ clock q f (is_refused e s b) h = elim (Bool-cases (is_eof e)) [
    | inl y ↦ rw y (has_closed ([], q))
    | inr y ↦ rw y (and_more-Ended (write order (write_error (new_response false) e)) (h s q b))
  ]
  react-Ended n _ clock q f (at_end e s b) h = rw b (has_closed ([], q))
  react-Ended n _ clock q f has_panicked h = has_crashed

  serve-Ended :
      (fuel : ℕ) (clock : ℕ → ℕ) (input : Bytes) (q : Q)
      → length input < fuel
      → Ended RequestHangs (serve go order mq fuel clock input q)
  unfolding serve
  serve-Ended zero clock input q h = absurd (omega (arith, h))
  serve-Ended (suc fuel) clock input q h =
      react-Ended (length input) (read go input) clock q (serve go order mq fuel clock)
        (read-AskedFormed go input) λ s q' l. serve-Ended fuel clock s q' (omega (arith, h, l))

  -- On every input that ends with EOF, the rounds of handlerConn come to an end: one more round than
  -- the input has bytes is enough for the session not to be cut off, and with more rounds it does the
  -- same. At its end the session has closed, or the process has panicked, or it waits for ever, and then
  -- because the process of some request does so in some state of the queue. Other errors of a connection are not part of the input.
  pub handler_conn_ends :
      (fuel : ℕ) (clock : ℕ → ℕ) (input : Bytes) (q : Q)
      → length input < fuel
      → (serve go order mq fuel clock input q ≡ handler_conn go order mq clock input q)
        × Ended RequestHangs (handler_conn go order mq clock input q)
  unfolding handler_conn
  handler_conn_ends fuel clock input q h = (
    serve_enough fuel (suc (length input)) clock input q h (omega arith),
    serve-Ended (suc (length input)) clock input q (omega arith),
  )
