-- ===== src/Admin/Routes.antt =====
-- The order in which Go walks through adminMux does not matter.
use uq.Prelude.{
  ℕ, ◌≡◌, ◌≢◌, refl, sym, ap, ◌∙◌, inl, inr, Bytes, List, [], ◌∷◌, true, some, if◌then◌else◌,
  Bool-cases, Option-cases, arith, ◌==◌,
}
use mathlib.Core.List.{Mem, not-mem-nil, mem_of_ne_of_mem}
use uq.Utils.Strings.{has_prefix}
use uq.Utils.Http.{HttpRequest, allow_method}
use uq.Entry.Http.{allowed_methods, after_prefix}
use uq.Queue.Interface.{MessageQueue}
use uq.Admin.{
  Route, stat, empty, rm, route_prefix, find_route, AdminRuntime, admin_handler, serve_http,
  admin_prefix,
}

second : Bytes → ℕ
second [] = 0
second (c ∷ []) = 0
second (c ∷ d ∷ s) = d

second_byte : (key ps : Bytes) (a b : ℕ) → has_prefix key (a ∷ b ∷ ps) ≡ true → second key ≡ b
unfolding second has_prefix
second_byte [] ps a b h = absurd (cc (h))
second_byte (c ∷ []) ps a b h = absurd (ground (arith, h))
second_byte (c ∷ d ∷ s) ps a b h = ground (arith, h)

mark : Route → ℕ
mark stat = b's'
mark empty = b'e'
mark rm = b'r'

of_mark : ℕ → Route
of_mark c = if c == b's' then stat else if c == b'e' then empty else rm

of_mark-mark : (r : Route) → of_mark (mark r) ≡ r
unfolding of_mark mark
of_mark-mark stat = refl
of_mark-mark empty = refl
of_mark-mark rm = refl

second-mark :
    (r : Route) (key : Bytes) → has_prefix key (route_prefix r) ≡ true → second key ≡ mark r
unfolding mark route_prefix
second-mark stat key h = second_byte key _ b'/' b's' h
second-mark empty key h = second_byte key _ b'/' b'e' h
second-mark rm key h = second_byte key _ b'/' b'r' h

-- A key starts with the prefix of one route only.
one_route :
    (r r' : Route) (key : Bytes)
    → has_prefix key (route_prefix r) ≡ true
    → has_prefix key (route_prefix r') ≡ true
    → r ≡ r'
one_route r r' key h h' =
    sym (of_mark-mark r)
    ∙ (ap of_mark (sym (second-mark r key h) ∙ second-mark r' key h') ∙ of_mark-mark r')

find_route_there :
    (order : List Route) (r : Route) (key : Bytes)
    → Mem r order
    → has_prefix key (route_prefix r) ≡ true
    → find_route order key ≡ some r
unfolding find_route
find_route_there [] r key m h = absurd (not-mem-nil m)
find_route_there (s ∷ rs) r key m h = elim (Bool-cases (has_prefix key (route_prefix s))) [
  | inl e ↦ rw e (ap some (one_route s r key e h))
  | inr e ↦
      let other : r ≢ s = λ same. absurd (cc (same, e, h)) in
      rw e (find_route_there rs r key (mem_of_ne_of_mem other m) h)
]

find_route_prefix :
    (order : List Route) (r : Route) (key : Bytes)
    → find_route order key ≡ some r
    → has_prefix key (route_prefix r) ≡ true
unfolding find_route
find_route_prefix [] r key h = absurd (cc (h))
find_route_prefix (s ∷ rs) r key h = ground (arith, h, find_route_prefix rs r key)

unfoldable pub Complete : List Route → Type 0
Complete order = (r : Route) → Mem r order

same_route :
    (order order' : List Route) (key : Bytes)
    → Complete order
    → Complete order'
    → find_route order key ≡ find_route order' key
unfolding Complete
same_route order order' key c c' = elim (Option-cases (find_route order' key)) [
  | inr (r, e) ↦ find_route_there order r key (c r) (find_route_prefix order' r key e) ∙ sym e
  | inl e ↦ elim (Option-cases (find_route order key)) [
    | inl f ↦ f ∙ sym e
    | inr (r, f) ↦
        absurd (cc (e, find_route_there order' r key (c' r) (find_route_prefix order r key f)))
  ]
]

module _ {Q : Type 0} (go : AdminRuntime) (mq : MessageQueue Q) (order order' : List Route) where
  admin_handler_same :
      (req : HttpRequest) (key : Bytes) (q : Q)
      → Complete order
      → Complete order'
      → admin_handler go mq order req key q ≡ admin_handler go mq order' req key q
  unfolding admin_handler
  admin_handler_same req key q c c' = rw (same_route order order' key c c', admin_handler) refl

  -- Two walks through adminMux that meet every route make the admin server answer every request alike.
  pub serve_http-Complete :
      (req : HttpRequest) (now : ℕ) (q : Q)
      → Complete order
      → Complete order'
      → serve_http go mq order req now q ≡ serve_http go mq order' req now q
  unfolding serve_http
  serve_http-Complete req now q c c' =
      elim (Option-cases (allow_method req.method allowed_methods)) [
        | inl e ↦
            rw (e, serve_http)
              (rw (admin_handler_same req (after_prefix req.path admin_prefix) q c c') refl)
        | inr (refusal, e) ↦ rw (e, serve_http) refl
      ]
