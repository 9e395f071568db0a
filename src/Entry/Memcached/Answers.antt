-- ===== src/Entry/Memcached/Answers.antt =====
-- What a session does on a whole `set`, and on a whole `get`.
use uq.Prelude.{
  ℕ, suc, ◌^◌, ◌≤◌, ◌<◌, ◌≡◌, refl, ap, Bytes, bytes_eq, codes, List, [], ◌∷◌, ◌++◌, Bool, true,
  false, ltb, if◌then◌else◌, arith, length, Dict, some, insert, without, append_assoc,
}
use uq.Utils.Errors.{ok}
use uq.Utils.Strings.{format_uint, itoa}
use uq.Queue.Interface.{MessageQueue}
use uq.Entry.{Runtime, done, max_body_length, max_key_length}
use uq.Entry.Memcached.Request.{Item, plain_request}
use uq.Entry.Memcached.Process.{
  respond, body_item, write, new_response, message_bytes, process, on_get, on_set, any_too_long,
  get_items, some_items, items_bytes, item_bytes,
}
use uq.Entry.Memcached.Lines.{crlf, Word}
use uq.Entry.Memcached.RoundTrip.{set_bytes, read-set_bytes, set_request, read-get_bytes, get_bytes}
use uq.Entry.Memcached.Server.{and_more, react, serve}

module _ {Q : Type 0} (go : Runtime) (order : Dict Item → List (Bytes × Item))
    (mq : MessageQueue Q) where
  process_stored :
      (key body : Bytes) (flag exp_time now : ℕ) (silent : Bool) (q q' : Q)
      → mq.push key body q ≡ (ok tt, q')
      → process mq (set_request true key flag exp_time body silent) now q
        ≡ done (respond (record (new_response silent) { status = codes "STORED" }), q')
  unfolding process on_set bytes_eq
  process_stored key body flag exp_time now silent q q' h = rw h refl

  -- What a client is told about a `set`, unless it asked for silence.
  abbrev pub stored_reply : Bool → Bytes
  stored_reply true = []
  stored_reply false = codes "STORED" ++ crlf

  write_stored :
      (silent : Bool)
      → (if silent
          then []
          else write order (record (new_response silent) { status = codes "STORED" }))
        ≡ stored_reply silent
  unfolding write bytes_eq message_bytes
  write_stored true = refl
  write_stored false = refl

  -- A `set` on the wire pushes its body under its key: when the push succeeds, the session writes STORED,
  -- or nothing for a silent request, and goes on with the rest of the input and the queue after the
  -- push. The key must be of plain characters, the numbers from 0 on, and the body not too long.
  pub serve-set_bytes :
      (fuel : ℕ) (clock : ℕ → ℕ) (key : Bytes) (flag exp_time : ℕ) (body : Bytes) (silent : Bool)
      (rest : Bytes) (q q' : Q)
      → Word key
      → flag < 2 ^ 63
      → exp_time < 2 ^ 63
      → length body ≤ max_body_length
      → length body ≤ go.room
      → mq.push key body q ≡ (ok tt, q')
      → serve go order mq (suc fuel) clock (set_bytes true key flag exp_time body silent ++ rest) q
        ≡ and_more go order mq (stored_reply silent) (serve go order mq fuel clock rest q')
  unfolding serve react
  serve-set_bytes fuel clock key flag exp_time body silent rest q q' hk hf he hb hr hp =
      rw (read-set_bytes go true key flag exp_time body silent rest hk hf he hb hr, serve)
        (rw (process_stored key body flag exp_time (clock (length rest)) silent q q' hp, react)
          (rw (write_stored silent) refl))

  -- The item that carries a message, as a client reads it.
  unfoldable pub value_bytes : Bytes → Bytes → Bytes
  value_bytes key d =
      codes "VALUE "
      ++ (key
          ++ (codes " 0 "
              ++ (format_uint (length d) ++ (crlf ++ (d ++ (crlf ++ (codes "END" ++ crlf)))))))

  process_got :
      (key id d : Bytes) (now : ℕ) (q q' : Q)
      → length key ≤ max_key_length
      → mq.pop key now q ≡ (ok (id, d), q')
      → process mq (plain_request (codes "get") (key ∷ [])) now q
        ≡ done (
          respond (record (new_response false) {
            status = codes "VALUE";
            items = some ((key, body_item d) ∷ []);
          }),
          q',
        )
  unfolding process on_get bytes_eq any_too_long get_items insert without
  process_got key id d now q q' b h =
      let fits : ltb max_key_length (length key) ≡ false = ground arith in
      rw fits (rw (ap (λ x. x.0) h) (rw (ap (λ x. x.1) h) refl))

  zero_text : format_uint 0 ≡ codes "0"
  unfolding format_uint
  zero_text = refl

  write_got :
      (key d : Bytes)
      → order ((key, body_item d) ∷ []) ≡ (key, body_item d) ∷ []
      → write order (record (new_response false) {
        status = codes "VALUE";
        items = some ((key, body_item d) ∷ []);
      })
        ≡ value_bytes key d
  unfolding write some_items items_bytes item_bytes bytes_eq value_bytes itoa
  write_got key d h = rw h (rw zero_text (simp append_assoc))

  -- A `get` of one key on the wire pops a message of it: when the pop succeeds, the session writes the
  -- message with its length, and goes on with the rest of the input and the queue after the pop. The key
  -- must be of plain characters and not too long, and a map of one item has one order.
  pub serve-get_bytes :
      (fuel : ℕ) (clock : ℕ → ℕ) (key id d rest : Bytes) (q q' : Q)
      → Word key
      → length key ≤ max_key_length
      → order ((key, body_item d) ∷ []) ≡ (key, body_item d) ∷ []
      → mq.pop key (clock (length rest)) q ≡ (ok (id, d), q')
      → serve go order mq (suc fuel) clock (get_bytes key [] ++ rest) q
        ≡ and_more go order mq (value_bytes key d) (serve go order mq fuel clock rest q')
  unfolding serve react
  serve-get_bytes fuel clock key id d rest q q' hk hl ho hp =
      rw (read-get_bytes go key [] rest (hk, tt), serve)
        (rw (process_got key id d (clock (length rest)) q q' hl hp, react)
          (rw (write_got key d ho) refl))
