-- ===== src/Admin.antt =====
-- admin/uAdmin.go: the HTTP server of the administration.
pub mod Same
pub mod Routes
use uq.Prelude.{ℕ, Bytes, bytes_eq, codes, List, [], ◌∷◌, ◌++◌, if◌then◌else◌, Option, none, some}
use uq.Utils.Strings.{has_prefix}
use uq.Utils.Errors.{Result, ok, err, Error, new_error, err_internal_error}
use uq.Utils.Http.{
  HttpRequest, HttpResponse, http_error, error_response, allow_method, status_ok, status_created,
  status_no_content, status_not_found, status_method_not_allowed,
}
use uq.Queue.UnitedQueue.Admin.{Stat}
use uq.Queue.Interface.{MessageQueue}
use uq.Entry.{Handled, done}
use uq.Entry.Http.{answer_status, answer_outcome, popped_response, after_prefix, allowed_methods}

abbrev pub queue_prefix : Bytes
queue_prefix = codes "/v1/queues"

abbrev pub admin_prefix : Bytes
admin_prefix = codes "/v1/admin"

-- The prefixes of net/http/pprof, in the order in which they are tested.
abbrev pub profile_prefixes : List Bytes
profile_prefixes =
    codes "/debug/pprof/cmdline"
    ∷ codes "/debug/pprof/profile"
    ∷ codes "/debug/pprof/symbol"
    ∷ codes "/debug/pprof"
    ∷ []

-- The entries of adminMux.
pub data Route : Type 0 where
  stat : Route
  empty : Route
  rm : Route

unfoldable pub route_prefix : Route → Bytes
route_prefix stat = codes "/stat"
route_prefix empty = codes "/empty"
route_prefix rm = codes "/rm"

-- The loop over adminMux, in the order in which Go walks through it.
unfoldable pub find_route : List Route → Bytes → Option Route
unfolding route_prefix
find_route [] key = none
find_route (r ∷ rs) key =
    let rest = find_route rs key in if has_prefix key (route_prefix r) then some r else rest

unfoldable pub first_prefix : List Bytes → Bytes → Option Bytes
first_prefix [] path = none
first_prefix (p ∷ ps) path =
    let rest = first_prefix ps path in if has_prefix path p then some p else rest

-- The JSON texts of an error and of a Stat, with the error that Marshal may return; and the answer of
-- net/http/pprof, by the prefix of the path.
pub record AdminRuntime : Type 0 where
  pub error_json : Error → Bytes
  pub stat_json : Stat → Result Bytes Bytes
  pub profile : Bytes → HttpRequest → HttpResponse

abbrev pub not_allowed : HttpResponse
not_allowed = http_error [] (codes "405 Method Not Allowed!") status_method_not_allowed

abbrev pub not_found : HttpResponse
not_found = http_error [] (codes "404 Not Found!") status_not_found

abbrev stat_response : Bytes → HttpResponse
stat_response d = record {
  status = status_ok;
  header = (codes "Content-Type", codes "application/json") ∷ [];
  body = d;
}

module _ {Q : Type 0} (go : AdminRuntime) (mq : MessageQueue Q) where
  unfoldable pub add_handler : HttpRequest → Bytes → Q → Handled (HttpResponse × Q)
  add_handler req key q = elim req.form_error [
    | some why ↦ done (error_response go.error_json (new_error err_internal_error why), q)
    | none ↦
        let key' = req.form_value (codes "topic") ++ (codes "/" ++ req.form_value (codes "line")) in
        answer_outcome go.error_json status_created
          (mq.create key' (req.form_value (codes "recycle")) q)
  ]

  unfoldable pub push_handler : HttpRequest → Bytes → Q → Handled (HttpResponse × Q)
  push_handler req key q = elim req.form_error [
    | some why ↦ done (error_response go.error_json (new_error err_internal_error why), q)
    | none ↦
        answer_status go.error_json status_no_content
          (mq.push key (req.form_value (codes "value")) q)
  ]

  unfoldable pub pop_handler : HttpRequest → Bytes → ℕ → Q → Handled (HttpResponse × Q)
  pop_handler req key now q =
      let (r, q') = mq.pop key now q in
      elim r [
        | err e ↦ done (error_response go.error_json e, q')
        | ok (id, d) ↦ done (popped_response id d, q')
      ]

  unfoldable pub del_handler : HttpRequest → Bytes → Q → Handled (HttpResponse × Q)
  del_handler req key q = answer_status go.error_json status_no_content (mq.confirm key q)

  unfoldable pub queue_handler : HttpRequest → Bytes → ℕ → Q → Handled (HttpResponse × Q)
  queue_handler req key now q =
      if bytes_eq req.method (codes "PUT")
      then add_handler req key q
      else if bytes_eq req.method (codes "POST")
      then push_handler req key q
      else if bytes_eq req.method (codes "GET")
      then pop_handler req key now q
      else if bytes_eq req.method (codes "DELETE")
      then del_handler req key q
      else done (not_allowed, q)

  unfoldable pub stat_handler : HttpRequest → Bytes → Q → Handled (HttpResponse × Q)
  stat_handler req key q =
      let told : HttpResponse = elim (mq.stat key q) [
        | err e ↦ error_response go.error_json e
        | ok qs ↦ elim (go.stat_json qs) [
          | err why ↦ error_response go.error_json (new_error err_internal_error why)
          | ok d ↦ stat_response d
        ]
      ] in
      if bytes_eq req.method (codes "GET") then done (told, q) else done (not_allowed, q)

  unfoldable pub empty_handler : HttpRequest → Bytes → Q → Handled (HttpResponse × Q)
  empty_handler req key q =
      if bytes_eq req.method (codes "DELETE")
      then answer_status go.error_json status_no_content (mq.empty key q)
      else done (not_allowed, q)

  unfoldable pub rm_handler : HttpRequest → Bytes → Q → Handled (HttpResponse × Q)
  rm_handler req key q =
      if bytes_eq req.method (codes "DELETE")
      then answer_outcome go.error_json status_no_content (mq.remove key q)
      else done (not_allowed, q)

  unfoldable pub route_handler : Route → HttpRequest → Bytes → Q → Handled (HttpResponse × Q)
  route_handler stat req key q = stat_handler req key q
  route_handler empty req key q = empty_handler req key q
  route_handler rm req key q = rm_handler req key q

  -- `order` is the order in which Go walks through adminMux.
  unfoldable pub admin_handler : List Route → HttpRequest → Bytes → Q → Handled (HttpResponse × Q)
  admin_handler order req key q = elim (find_route order key) [
    | none ↦ done (not_found, q)
    | some r ↦ route_handler r req (after_prefix key (route_prefix r)) q
  ]

  -- ServeHTTP
  unfoldable pub serve_http : List Route → HttpRequest → ℕ → Q → Handled (HttpResponse × Q)
  serve_http order req now q = elim (allow_method req.method allowed_methods) [
    | some refusal ↦ done (refusal, q)
    | none ↦
        if has_prefix req.path queue_prefix
        then queue_handler req (after_prefix req.path queue_prefix) now q
        else if has_prefix req.path admin_prefix
        then admin_handler order req (after_prefix req.path admin_prefix) q
        else elim (first_prefix profile_prefixes req.path) [
          | some p ↦ done (go.profile p req, q)
          | none ↦ done (not_found, q)
        ]
  ]
