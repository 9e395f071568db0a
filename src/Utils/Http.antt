-- ===== src/Utils/Http.antt =====
-- utils/httpUtils.go, the HTTP part of utils/error.go, and what the HTTP servers use of net/http: a
-- request, a response, and http.Error.
use uq.Prelude.{
  ℕ, Bytes, bytes_eq, codes, List, [], ◌∷◌, ◌++◌, Bool, false, ◌||◌, if◌then◌else◌, Option, none,
  some,
}
use uq.Utils.Strings.{join}
use uq.Utils.Errors.{Error, status_code}

-- `form_error` is the text of the error of ParseForm, and `form_value` is FormValue.
pub record HttpRequest : Type 0 where
  pub method : Bytes
  pub path : Bytes
  pub form_error : Option Bytes
  pub form_value : Bytes → Bytes

-- The header is a list of the fields that have been set; their order has no meaning.
pub record HttpResponse : Type 0 where
  pub status : ℕ
  pub header : List (Bytes × Bytes)
  pub body : Bytes

abbrev pub status_ok : ℕ
status_ok = 200

abbrev pub status_created : ℕ
status_created = 201

abbrev pub status_no_content : ℕ
status_no_content = 204

abbrev pub status_not_found : ℕ
status_not_found = 404

abbrev pub status_method_not_allowed : ℕ
status_method_not_allowed = 405

-- WriteHeader alone.
abbrev pub only_status : ℕ → HttpResponse
only_status s = record { status = s; header = []; body = [] }

-- http.Error, behind the headers that have been set.
unfoldable pub http_error : List (Bytes × Bytes) → Bytes → ℕ → HttpResponse
http_error header text s = record {
  status = s;
  header =
      (codes "Content-Type", codes "text/plain; charset=utf-8")
      ∷ (codes "X-Content-Type-Options", codes "nosniff")
      ∷ header;
  body = text ++ b'\n' ∷ [];
}

-- WriteTo of an error, with its JSON text.
unfoldable pub error_response : (Error → Bytes) → Error → HttpResponse
error_response to_json e = record {
  status = status_code e;
  header = (codes "Content-Type", codes "application/json") ∷ [];
  body = to_json e ++ b'\n' ∷ [];
}

unfoldable pub method_in : Bytes → List Bytes → Bool
method_in m [] = false
method_in m (meth ∷ ms) = bytes_eq m meth || method_in m ms

abbrev pub method_refused : List Bytes → HttpResponse
method_refused ms =
    http_error ((codes "Allow", join (codes ",") ms) ∷ []) (codes "Method Not Allowed")
      status_method_not_allowed

-- AllowMethod: the response that refuses a method, if it does.
unfoldable pub allow_method : Bytes → List Bytes → Option HttpResponse
unfolding method_in
allow_method m ms = if method_in m ms then none else some (method_refused ms)
