-- ===== src/Entry/Memcached/Safe.antt =====
-- A request that has been read never makes the server panic.
use uq.Prelude.{
  ℕ, ◌≡◌, ◌≢◌, refl, inl, inr, Bytes, bytes_eq, codes, length, List, [], ◌∷◌, true, false, Option,
  none, some, arith, Bool-cases,
}
use uq.Utils.Errors.{Result, Error, Result-cases}
use uq.Queue.Topic.{Outcome, returns, blocks}
use uq.Queue.Interface.{MessageQueue}
use uq.Entry.{Runtime, Handled, done, hangs, crashes}
use uq.Entry.Memcached.Request.{Item, Request, asked, one_of, gets, read}
use uq.Entry.Memcached.Process.{
  Response, new_response, Reaction, quits, on_get, on_stats, on_add, on_set, on_delete, on_unknown,
  process, with_status, any_too_long,
}
use uq.Entry.Memcached.Formed.{Formed, read-AskedFormed, asked-Formed}

done-Safe : {A : Type 0} (a : A) → done a ≢ crashes
done-Safe a h = absurd (cc (h))

module _ {Q : Type 0} (mq : MessageQueue Q) where
  abbrev Safe : Handled (Reaction × Q) → Type 0
  Safe h = h ≢ crashes

  on_get-Safe :
      (keys : List Bytes) (resp : Response) (now : ℕ) (q : Q)
      → keys ≢ []
      → Safe (on_get mq keys resp now q)
  unfolding on_get
  on_get-Safe [] resp now q h = absurd (h refl)
  on_get-Safe (key ∷ ks) resp now q h = elim (Bool-cases (any_too_long (key ∷ ks))) [
    | inl e ↦ rw (e, on_get) (done-Safe _)
    | inr e ↦ elim (Result-cases (mq.pop key now q).0) [
      | inl (got, f) ↦ rw (e, on_get) (rw f (done-Safe _))
      | inr (why, f) ↦ rw (e, on_get) (rw f (done-Safe _))
    ]
  ]

  on_stats-Safe :
      (keys : List Bytes) (resp : Response) (q : Q) → keys ≢ [] → Safe (on_stats mq keys resp q)
  unfolding on_stats
  on_stats-Safe [] resp q h = absurd (h refl)
  on_stats-Safe (key ∷ ks) resp q h = elim (Result-cases (mq.stat key q)) [
    | inl (qs, e) ↦ rw (e, on_stats) (done-Safe _)
    | inr (why, e) ↦ rw (e, on_stats) (done-Safe _)
  ]

  on_add-Safe :
      (keys : List Bytes) (item : Option Item) (resp : Response) (q : Q)
      → keys ≢ []
      → item ≢ none
      → Safe (on_add mq keys item resp q)
  unfolding on_add
  on_add-Safe [] item resp q h k = absurd (h refl)
  on_add-Safe (key ∷ ks) none resp q h k = absurd (k refl)
  on_add-Safe (key ∷ ks) (some item) resp q h k = created (mq.create key item.body q)
    where
      created :
          (o : Outcome (Result Error (Unit {0}) × Q))
          → Safe
              (elim o [ blocks ↦ hangs | returns rq ↦ done (with_status (codes "STORED") resp rq) ])
      created blocks = λ e. absurd (cc (e))
      created (returns rq) = done-Safe _

  on_set-Safe :
      (keys : List Bytes) (item : Option Item) (resp : Response) (q : Q)
      → keys ≢ []
      → item ≢ none
      → Safe (on_set mq keys item resp q)
  unfolding on_set
  on_set-Safe [] item resp q h k = absurd (h refl)
  on_set-Safe (key ∷ ks) none resp q h k = absurd (k refl)
  on_set-Safe (key ∷ ks) (some item) resp q h k = done-Safe _

  on_delete-Safe :
      (keys : List Bytes) (resp : Response) (q : Q) → keys ≢ [] → Safe (on_delete mq keys resp q)
  unfolding on_delete
  on_delete-Safe [] resp q h = absurd (h refl)
  on_delete-Safe (key ∷ ks) resp q h = done-Safe _

  on_unknown-Safe : (cmd : Bytes) (resp : Response) (q : Q) → Safe (on_unknown mq cmd resp q)
  unfolding on_unknown
  on_unknown-Safe cmd resp q = done-Safe _

  process-Formed : (req : Request) (now : ℕ) (q : Q) → Formed req → process mq req now q ≢ crashes
  unfolding process
  process-Formed req now q (keyed, filled) =
      let resp = new_response req.no_reply in
      let is_get : bytes_eq req.cmd (codes "get") ≡ true → Safe (on_get mq req.keys resp now q) =
        λ h. on_get-Safe req.keys resp now q (keyed (ground (arith, h))) in
      let is_gets : bytes_eq req.cmd (codes "gets") ≡ true → Safe (on_get mq req.keys resp now q) =
        λ h. on_get-Safe req.keys resp now q (keyed (ground (arith, h))) in
      let is_stats : bytes_eq req.cmd (codes "stats") ≡ true → Safe (on_stats mq req.keys resp q) =
        λ h. on_stats-Safe req.keys resp q (keyed (ground (arith, h))) in
      let is_add : one_of req.cmd gets ≡ false
          → bytes_eq req.cmd (codes "add") ≡ true
          → Safe (on_add mq req.keys req.item resp q) =
        λ g h.
          on_add-Safe req.keys req.item resp q (keyed (ground (arith, h)))
            (filled g (ground (arith, h))) in
      let is_set : one_of req.cmd gets ≡ false
          → bytes_eq req.cmd (codes "set") ≡ true
          → Safe (on_set mq req.keys req.item resp q) =
        λ g h.
          on_set-Safe req.keys req.item resp q (keyed (ground (arith, h)))
            (filled g (ground (arith, h))) in
      let is_delete : bytes_eq req.cmd (codes "delete") ≡ true
          → Safe (on_delete mq req.keys resp q) =
        λ h. on_delete-Safe req.keys resp q (keyed (ground (arith, h))) in
      ground (
        arith,
        is_get,
        is_gets,
        is_stats,
        is_add,
        is_set,
        is_delete,
        on_unknown-Safe req.cmd resp q,
        done-Safe {A = Reaction × Q} (quits, q),
      )

  -- A request that `read` returned never makes `process` panic, whatever the queue returns: the key and
  -- the item that `process` takes without a test are there.
  pub process-read :
      (go : Runtime) (input rest : Bytes) (req : Request) (now : ℕ) (q : Q)
      → read go input ≡ asked req rest
      → process mq req now q ≢ crashes
  process-read go input rest req now q h =
      process-Formed req now q
        (asked-Formed (length input) (read go input) req rest (read-AskedFormed go input) h)
