-- ===== src/Admin/Same.antt =====
-- Below /v1/queues the admin server is the HTTP server.
use uq.Prelude.{ℕ, List, ◌≡◌, refl, inl, inr, true, Option-cases}
use uq.Utils.Strings.{has_prefix}
use uq.Utils.Http.{HttpRequest, allow_method}
use uq.Queue.Interface.{MessageQueue}
use uq.Entry.Http.{queue_prefix, allowed_methods}
use uq.Admin.{AdminRuntime, Route}

module _ {Q : Type 0} (go : AdminRuntime) (mq : MessageQueue Q) where
  -- A request whose path starts with /v1/queues, with any method, has the same answer and the same
  -- effect on the queue at the admin server as at the HTTP server.
  pub serve_http_same :
      (order : List Route) (req : HttpRequest) (now : ℕ) (q : Q)
      → has_prefix req.path queue_prefix ≡ true
      → uq.Admin.serve_http go mq order req now q
        ≡ uq.Entry.Http.serve_http go.error_json mq req now q
  unfolding uq.Admin.serve_http uq.Entry.Http.serve_http uq.Admin.queue_handler
      uq.Entry.Http.queue_handler uq.Admin.add_handler uq.Entry.Http.add_handler
      uq.Admin.push_handler uq.Entry.Http.push_handler uq.Admin.pop_handler
      uq.Entry.Http.pop_handler uq.Admin.del_handler uq.Entry.Http.del_handler
  serve_http_same order req now q h =
      elim (Option-cases (allow_method req.method allowed_methods)) [
        | inl e ↦ rw (e, uq.Admin.serve_http, uq.Entry.Http.serve_http) (rw h refl)
        | inr (refusal, e) ↦ rw (e, uq.Admin.serve_http, uq.Entry.Http.serve_http) refl
      ]
