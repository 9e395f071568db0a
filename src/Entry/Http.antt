-- ===== src/Entry/Http.antt =====
-- entry/httpEntry.go: the HTTP server.
pub mod Keeps
use uq.Prelude.{ℕ, Bytes, bytes_eq, codes, List, [], ◌∷◌, ◌++◌, if◌then◌else◌, Option, none, some}
use uq.Utils.Strings.{has_prefix}
use uq.Utils.Errors.{Result, ok, err, Error, new_error, err_internal_error}
use uq.Utils.Http.{
  HttpRequest, HttpResponse, only_status, http_error, error_response, allow_method, status_ok,
  status_created, status_no_content, status_not_found, status_method_not_allowed,
}
use uq.Queue.Topic.{Outcome, returns, blocks}
use uq.Queue.Interface.{MessageQueue}
use uq.Entry.{Handled, done, hangs, crashes}

abbrev pub queue_prefix : Bytes
queue_prefix = codes "/v1/queues"

abbrev pub allowed_methods : List Bytes
allowed_methods = codes "HEAD" ∷ codes "GET" ∷ codes "POST" ∷ codes "PUT" ∷ codes "DELETE" ∷ []

-- s[len(prefix):], of a text with that prefix.
unfoldable pub after_prefix : Bytes → Bytes → Bytes
after_prefix s [] = s
after_prefix [] (p ∷ ps) = []
after_prefix (c ∷ s) (p ∷ ps) = after_prefix s ps

-- What a call that returns an error only answers.
unfoldable pub answer_status :
    {Q : Type 0} → (Error → Bytes) → ℕ → Result Error (Unit {0}) × Q → Handled (HttpResponse × Q)
answer_status to_json s (ok _, q) = done (only_status s, q)
answer_status to_json s (err e, q) = done (error_response to_json e, q)

abbrev pub answer_outcome :
    {Q : Type 0}
    → (Error → Bytes)
    → ℕ
    → Outcome (Result Error (Unit {0}) × Q)
    → Handled (HttpResponse × Q)
answer_outcome to_json s (returns rq) = answer_status to_json s rq
answer_outcome to_json s blocks = hangs

abbrev pub popped_response : Bytes → Bytes → HttpResponse
popped_response id d = record {
  status = status_ok;
  header = (codes "X-UQ-ID", id) ∷ (codes "Content-Type", codes "text/plain") ∷ [];
  body = d;
}

-- `to_json` is the JSON text of an error.
module _ {Q : Type 0} (to_json : Error → Bytes) (mq : MessageQueue Q) where
  unfoldable pub add_handler : HttpRequest → Bytes → Q → Handled (HttpResponse × Q)
  add_handler req key q = elim req.form_error [
    | some why ↦ done (error_response to_json (new_error err_internal_error why), q)
    | none ↦
        let key' = req.form_value (codes "topic") ++ (codes "/" ++ req.form_value (codes "line")) in
        answer_outcome to_json status_created (mq.create key' (req.form_value (codes "recycle")) q)
  ]

  unfoldable pub push_handler : HttpRequest → Bytes → Q → Handled (HttpResponse × Q)
  push_handler req key q = elim req.form_error [
    | some why ↦ done (error_response to_json (new_error err_internal_error why), q)
    | none ↦
        answer_status to_json status_no_content (mq.push key (req.form_value (codes "value")) q)
  ]

  unfoldable pub pop_handler : HttpRequest → Bytes → ℕ → Q → Handled (HttpResponse × Q)
  pop_handler req key now q =
      let (r, q') = mq.pop key now q in
      elim r [
        | err e ↦ done (error_response to_json e, q')
        | ok (id, d) ↦ done (popped_response id d, q')
      ]

  unfoldable pub del_handler : HttpRequest → Bytes → Q → Handled (HttpResponse × Q)
  del_handler req key q = answer_status to_json status_no_content (mq.confirm key q)

  unfoldable pub queue_handler : HttpRequest → Bytes → ℕ → Q → Handled (HttpResponse × Q)
  queue_handler req key now q =
      if bytes_eq req.method (codes "PUT")
      then add_handler req key q
      else if bytes_eq req.method (codes "POST")
      then push_handler req key q
      else if bytes_eq req.method (codes "GET")
      then pop_handler req key now q
      else if bytes_eq req.method (codes "DELETE")
      then del_handler req key q
      else done (http_error [] (codes "405 Method Not Allowed!") status_method_not_allowed, q)

  -- ServeHTTP
  unfoldable pub serve_http : HttpRequest → ℕ → Q → Handled (HttpResponse × Q)
  serve_http req now q = elim (allow_method req.method allowed_methods) [
    | some refusal ↦ done (refusal, q)
    | none ↦
        if has_prefix req.path queue_prefix
        then queue_handler req (after_prefix req.path queue_prefix) now q
        else done (http_error [] (codes "404 Not Found!") status_not_found, q)
  ]
