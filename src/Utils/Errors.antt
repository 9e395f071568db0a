-- ===== src/Utils/Errors.antt =====
-- utils/error.go: the error codes, their messages, and the HTTP status of each.
use uq.Prelude.{
  ℕ, ◌⊎◌, inl, inr, refl, Bytes, codes, Option, none, some, ◌==◌, if◌then◌else◌, ◌≡◌, arith, ◌++◌,
}
use uq.Utils.Strings.{itoa_quick}

-- A Go result `(value, err)` of which one part is set.
pub data Result (E A : Type 0) : Type 0 where
  ok : A → Result E A
  err : E → Result E A

infixl 5 ◌>>=◌
abbrev pub ◌>>=◌ : {E A B : Type 0} → Result E A → (A → Result E B) → Result E B
ok a >>= f = f a
err e >>= f = err e

abbrev pub err_none : ℕ
err_none = 100

abbrev pub err_topic_not_existed : ℕ
err_topic_not_existed = 101

abbrev pub err_line_not_existed : ℕ
err_line_not_existed = 102

abbrev pub err_not_delivered : ℕ
err_not_delivered = 103

abbrev pub err_bad_key : ℕ
err_bad_key = 104

abbrev pub err_topic_existed : ℕ
err_topic_existed = 105

abbrev pub err_line_existed : ℕ
err_line_existed = 106

abbrev pub err_bad_request : ℕ
err_bad_request = 400

abbrev pub err_internal_error : ℕ
err_internal_error = 500

-- A missing key of the Go map reads as the empty string.
unfoldable pub error_map : ℕ → Bytes
error_map c =
    if c == err_none
    then codes "No Message"
    else if c == err_topic_not_existed
    then codes "Topic Not Existed"
    else if c == err_line_not_existed
    then codes "Line Not Existed"
    else if c == err_not_delivered
    then codes "Message Not Delivered"
    else if c == err_bad_key
    then codes "Bad Key Format"
    else if c == err_topic_existed
    then codes "Topic Has Existed"
    else if c == err_line_existed
    then codes "Line Has Existed"
    else if c == err_bad_request
    then codes "Bad Client Request"
    else if c == err_internal_error
    then codes "Internal Error"
    else codes ""

pub error_status : ℕ → Option ℕ
error_status c =
    if c == err_none
    then some 404
    else if c == err_topic_not_existed
    then some 404
    else if c == err_line_not_existed
    then some 404
    else if c == err_not_delivered
    then some 404
    else if c == err_internal_error
    then some 500
    else none

pub record Error : Type 0 where
  pub error_code : ℕ
  pub message : Bytes
  pub cause : Bytes

unfoldable pub new_error : ℕ → Bytes → Error
new_error c why = record { error_code = c; message = error_map c; cause = why }

-- Error(): the code, the message, and the cause in parentheses.
unfoldable pub error_text : Error → Bytes
error_text e =
    itoa_quick e.error_code ++ (codes " " ++ (e.message ++ (codes " (" ++ (e.cause ++ codes ")"))))

pub status_code : Error → ℕ
unfolding error_status
status_code e = elim (error_status e.error_code) [ some status ↦ status | none ↦ 400 ]

-- An error made by `new_error` keeps its code, whatever the cause.
pub error_code-new_error : (c : ℕ) (why : Bytes) → (new_error c why).error_code ≡ c
unfolding new_error
error_code-new_error c why = ground arith

pub Result-cases :
    {E A : Type 0} (r : Result E A) → ((a : A) × (r ≡ ok a)) ⊎ ((e : E) × (r ≡ err e))
Result-cases (ok a) = inl (a, refl)
Result-cases (err e) = inr (e, refl)
