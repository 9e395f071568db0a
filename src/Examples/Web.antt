-- ===== src/Examples/Web.antt =====
-- The HTTP server and the admin server at concrete inputs.
use uq.Prelude.{◌≡◌, refl, Bytes, bytes_eq, codes, [], ◌∷◌, none}
use mathlib.Core.List.{mem-cons_self, mem-cons_of_mem}
use uq.Utils.Errors.{error_text, ok}
use uq.Utils.Strings.{has_prefix}
use uq.Utils.Http.{HttpRequest}
use uq.Queue.Stats.{to_string}
use uq.Queue.Interface.{united}
use uq.Admin.{AdminRuntime, Route, stat, empty, rm}
use uq.Admin.Routes.{Complete, serve_http-Complete}
use uq.Entry.Http.{serve_http}
use uq.Entry.Http.Keeps.{Kept, serve_http-Kept}
use uq.Examples.Topics.{in_memory}
use uq.Examples.Redis.{live}

abbrev request : Bytes → Bytes → HttpRequest
request method path = record {
  method = method;
  path = path;
  form_error = none;
  form_value = λ name. codes "two";
}

abbrev texts : AdminRuntime
texts = record {
  error_json = error_text;
  stat_json = λ qs. ok (to_string qs);
  profile = λ prefix req. record { status = 200; header = []; body = prefix };
}

one_way-Complete : Complete (stat ∷ empty ∷ rm ∷ [])
unfolding Complete
one_way-Complete stat = mem-cons_self
one_way-Complete empty = mem-cons_of_mem _ mem-cons_self
one_way-Complete rm = mem-cons_of_mem _ (mem-cons_of_mem _ mem-cons_self)

other_way-Complete : Complete (rm ∷ stat ∷ empty ∷ [])
unfolding Complete
other_way-Complete rm = mem-cons_self
other_way-Complete stat = mem-cons_of_mem _ mem-cons_self
other_way-Complete empty = mem-cons_of_mem _ (mem-cons_of_mem _ mem-cons_self)

abbrev emptying : HttpRequest
emptying = request (codes "DELETE") (codes "/v1/admin/empty/t/x")

serve_http-Complete_example :
    uq.Admin.serve_http texts (united in_memory) (stat ∷ empty ∷ rm ∷ []) emptying 7 live
    ≡ uq.Admin.serve_http texts (united in_memory) (rm ∷ stat ∷ empty ∷ []) emptying 7 live
serve_http-Complete_example =
    serve_http-Complete texts (united in_memory) (stat ∷ empty ∷ rm ∷ []) (rm ∷ stat ∷ empty ∷ [])
      emptying 7 live one_way-Complete other_way-Complete

serve_http-Kept_example : Kept error_text (united in_memory) live (
    serve_http error_text (united in_memory) (request (codes "HEAD") (codes "/v1/queues/t")) 7 live)
serve_http-Kept_example =
    serve_http-Kept error_text (united in_memory) (request (codes "HEAD") (codes "/v1/queues/t")) 7
      live (unfold has_prefix bytes_eq in refl)
