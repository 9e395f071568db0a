-- ===== src/Entry/Http/Keeps.antt =====
-- Requests that do not reach the queue.
use uq.Prelude.{
  ℕ, [], ◌≡◌, refl, ◌⊎◌, inl, inr, Bytes, bytes_eq, codes, Bool, false, ◌||◌, ◌&&◌, arith,
  Bool-cases,
}
use uq.Utils.Strings.{has_prefix}
use uq.Utils.Errors.{Error}
use uq.Utils.Http.{
  HttpRequest, HttpResponse, http_error, method_in, allow_method, method_refused, status_not_found,
  status_method_not_allowed,
}
use uq.Queue.Interface.{MessageQueue}
use uq.Entry.{Handled, done}
use uq.Entry.Http.{queue_prefix, allowed_methods, after_prefix, queue_handler, serve_http}

-- The methods that queueHandler takes.
abbrev pub queue_methods : Bytes → Bool
queue_methods m =
    bytes_eq m (codes "PUT")
    || (bytes_eq m (codes "POST") || (bytes_eq m (codes "GET") || bytes_eq m (codes "DELETE")))

module _ {Q : Type 0} (to_json : Error → Bytes) (mq : MessageQueue Q) where
  -- The queue is as it was, and the status says why.
  abbrev pub Kept : Q → Handled (HttpResponse × Q) → Type 0
  Kept q h =
      (resp : HttpResponse) × (h ≡ done (resp, q))
      × ((resp.status ≡ status_not_found) ⊎ (resp.status ≡ status_method_not_allowed))

  queue_handler-Kept :
      (req : HttpRequest) (key : Bytes) (now : ℕ) (q : Q)
      → queue_methods req.method ≡ false
      → Kept q (queue_handler to_json mq req key now q)
  unfolding queue_handler
  queue_handler-Kept req key now q h =
      let resp = http_error [] (codes "405 Method Not Allowed!") status_method_not_allowed in
      (resp, ground (arith, h), inr (unfold http_error in refl))

  -- A request with another method than PUT, POST, GET and DELETE, or whose path does not start with
  -- /v1/queues, leaves the queue as it is, and has the status 404 or 405.
  pub serve_http-Kept :
      (req : HttpRequest) (now : ℕ) (q : Q)
      → (queue_methods req.method && has_prefix req.path queue_prefix) ≡ false
      → Kept q (serve_http to_json mq req now q)
  unfolding serve_http allow_method
  serve_http-Kept req now q h = elim (Bool-cases (method_in req.method allowed_methods)) [
    | inr e ↦
        rw (e, serve_http, allow_method)
          (method_refused allowed_methods, refl, inr (unfold http_error in refl))
    | inl e ↦ elim (Bool-cases (has_prefix req.path queue_prefix)) [
      | inl p ↦
          rw (e, serve_http, allow_method)
            (rw p (
              queue_handler-Kept req (after_prefix req.path queue_prefix) now q
                (ground (arith, h, p))))
      | inr p ↦
          let resp = http_error [] (codes "404 Not Found!") status_not_found in
          rw (e, serve_http, allow_method) (rw p (resp, refl, inl (unfold http_error in refl)))
    ]
  ]
