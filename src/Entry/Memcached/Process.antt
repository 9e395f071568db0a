-- ===== src/Entry/Memcached/Process.antt =====
-- entry/mcEntry.go: what a request does to the queue, and the response; entry/mcResponse.go: its bytes.
use uq.Prelude.{
  ℕ, Bytes, bytes_eq, codes, List, [], ◌∷◌, ◌++◌, Bool, false, leb, ltb, if◌then◌else◌, Option,
  none, some, pos, length, Dict, insert, ◌||◌,
}
use uq.Utils.Errors.{Result, ok, err, Error, new_error, error_text, err_bad_key, err_bad_request}
use uq.Utils.Strings.{itoa, format_uint}
use uq.Queue.Topic.{returns, blocks}
use uq.Queue.Stats.{to_mc_string}
use uq.Queue.Interface.{MessageQueue}
use uq.Entry.{Handled, done, hangs, crashes, max_key_length}
use uq.Entry.Memcached.Request.{Item, Request}

-- A nil map of items is `none`.
pub record Response : Type 0 where
  pub status : Bytes
  pub msg : Bytes
  pub no_reply : Bool
  pub items : Option (Dict Item)

abbrev pub new_response : Bool → Response
new_response silent = record { status = []; msg = []; no_reply = silent; items = none }

-- writeErrorMc
unfoldable pub write_error : Response → Error → Response
write_error resp e = record resp {
  status = if leb 500 e.error_code then codes "SERVER_ERROR" else codes "CLIENT_ERROR";
  msg = error_text e;
}

-- A response, or none for `quit`, which ends the session.
pub data Reaction : Type 0 where
  respond : Response → Reaction
  quits : Reaction

-- The response to a call that returns an error only.
abbrev pub with_status :
    {Q : Type 0} → Bytes → Response → Result Error (Unit {0}) × Q → Reaction × Q
with_status s resp (ok _, q) = (respond (record resp { status = s }), q)
with_status s resp (err e, q) = (respond (write_error resp e), q)

abbrev pub body_item : Bytes → Item
body_item b = record { flag = pos 0; exp_time = pos 0; body = b }

-- The map of items: the message under its key, and its id under the second key of the request.
unfoldable pub get_items : Bytes → List Bytes → Bytes → Bytes → Dict Item
get_items key [] id d = insert key (body_item d) []
get_items key (key_id ∷ ks) id d = insert key_id (body_item id) (insert key (body_item d) [])

abbrev pub too_long : Bytes → Bool
too_long key = ltb max_key_length (length key)

unfoldable pub any_too_long : List Bytes → Bool
any_too_long [] = false
any_too_long (key ∷ keys) = too_long key || any_too_long keys

module _ {Q : Type 0} (mq : MessageQueue Q) where
  unfoldable pub on_get : List Bytes → Response → ℕ → Q → Handled (Reaction × Q)
  on_get keys resp now q =
      if any_too_long keys
      then done (respond (write_error resp (new_error err_bad_key (codes "key is too long"))), q)
      else elim keys [
        | [] ↦ crashes
        | key ∷ ks ↦
            let (r, q') = mq.pop key now q in
            elim r [
              | err e ↦ done (respond (write_error (record resp { status = codes "VALUE" }) e), q')
              | ok (id, d) ↦ done (
                respond
                    (record resp { status = codes "VALUE"; items = some (get_items key ks id d) }),
                q',
              )
            ]
      ]

  unfoldable pub on_stats : List Bytes → Response → Q → Handled (Reaction × Q)
  on_stats [] resp q = crashes
  on_stats (key ∷ ks) resp q = elim (mq.stat key q) [
    | err e ↦ done (respond (write_error (record resp { status = codes "STAT" }) e), q)
    | ok qs ↦ done (respond (record resp { status = codes "STAT"; msg = to_mc_string qs }), q)
  ]

  unfoldable pub on_add : List Bytes → Option Item → Response → Q → Handled (Reaction × Q)
  on_add [] item resp q = crashes
  on_add (key ∷ ks) none resp q = crashes
  on_add (key ∷ ks) (some item) resp q = elim (mq.create key item.body q) [
    | blocks ↦ hangs
    | returns rq ↦ done (with_status (codes "STORED") resp rq)
  ]

  unfoldable pub on_set : List Bytes → Option Item → Response → Q → Handled (Reaction × Q)
  on_set [] item resp q = crashes
  on_set (key ∷ ks) none resp q = crashes
  on_set (key ∷ ks) (some item) resp q =
      done (with_status (codes "STORED") resp (mq.push key item.body q))

  unfoldable pub on_delete : List Bytes → Response → Q → Handled (Reaction × Q)
  on_delete [] resp q = crashes
  on_delete (key ∷ ks) resp q = done (with_status (codes "DELETED") resp (mq.confirm key q))

  unfoldable pub on_unknown : Bytes → Response → Q → Handled (Reaction × Q)
  on_unknown cmd resp q =
      done (
        respond (write_error resp (new_error err_bad_request (codes "unknow command: " ++ cmd))),
        q,
      )

  -- A key or an item that is not there is a panic.
  unfoldable pub process : Request → ℕ → Q → Handled (Reaction × Q)
  process req now q =
      let resp = new_response req.no_reply in
      if bytes_eq req.cmd (codes "get")
      then on_get req.keys resp now q
      else if bytes_eq req.cmd (codes "gets")
      then on_get req.keys resp now q
      else if bytes_eq req.cmd (codes "stats")
      then on_stats req.keys resp q
      else if bytes_eq req.cmd (codes "add")
      then on_add req.keys req.item resp q
      else if bytes_eq req.cmd (codes "set")
      then on_set req.keys req.item resp q
      else if bytes_eq req.cmd (codes "delete")
      then on_delete req.keys resp q
      else if bytes_eq req.cmd (codes "quit")
      then done (quits, q)
      else on_unknown req.cmd resp q

crlf : Bytes
crlf = b'\r' ∷ b'\n' ∷ []

unfoldable pub item_bytes : Bytes × Item → Bytes
unfolding crlf
item_bytes (key, item) =
    codes "VALUE "
    ++ (key
        ++ (codes " "
            ++ (itoa item.flag
                ++ (codes " "
                    ++ (format_uint (length item.body) ++ (crlf ++ (item.body ++ crlf)))))))

unfoldable pub items_bytes : List (Bytes × Item) → Bytes
unfolding item_bytes
items_bytes [] = []
items_bytes (i ∷ is) = item_bytes i ++ items_bytes is

unfoldable pub some_items : (Dict Item → List (Bytes × Item)) → Option (Dict Item) → Bytes
some_items order none = []
some_items order (some m) = items_bytes (order m)

unfoldable pub message_bytes : Bytes → Bytes
message_bytes [] = []
message_bytes (c ∷ s) = codes " " ++ (c ∷ s)

-- Write: the bytes that go to the connection. `order` is the order in which Go walks through a map.
unfoldable pub write : (Dict Item → List (Bytes × Item)) → Response → Bytes
unfolding items_bytes some_items message_bytes
write order resp =
    if resp.no_reply
    then []
    else if bytes_eq resp.status (codes "VALUE")
    then some_items order resp.items ++ (codes "END" ++ crlf)
    else if bytes_eq resp.status (codes "STAT")
    then resp.msg ++ (crlf ++ (codes "END" ++ crlf))
    else resp.status ++ (message_bytes resp.msg ++ crlf)
