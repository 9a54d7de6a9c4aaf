-- ===== src/Tests/Router.antt =====
-- A router that takes the first route that fits, and requests to the two commands.
use quantum_entropy_service.Common.{
  ◌≡◌, refl, ◌≢◌, inl, inr, sym, subst, true, ◌&&◌, List, [], ◌∷◌, none, some, if◌then◌else◌,
  String, str_eq, ℕ, Result, ok, err, message, Bool-cases, arith,
}
use quantum_entropy_service.Keymanager.Handler.{answer, error, handle_delete}
use quantum_entropy_service.Keymanager.Repository.{find_key_by_id}
use quantum_entropy_service.Keymanager.Stores.{find_key}
use quantum_entropy_service.Server.Routes.{
  Method, get, head, post, delete, word, param, Route, route, Request, Find, IsRouter, In, Fits,
  accepts, routes, keymanager, api_delete_key, key_routes, ui_run_lab,
}
use quantum_entropy_service.Server.Routes.Reached.{
  In-manager_routes, same_method, same_method_refl, and_both, both_and, routes-reached,
}
use quantum_entropy_service.Server.Routes.Api.{
  serve, serve-api, answered, elsewhere, not_found, Reply, Served,
}
use quantum_entropy_service.Tests.Keys.{toy, service}
use quantum_entropy_service.Tests.Api.{world}

abbrev pub first_match : Find
first_match [] q = none
first_match (r ∷ rs) q =
    if same_method r.method q.method && accepts r.pattern q.path then some r else first_match rs q

same_method_sound : (m n : Method) → same_method m n ≡ true → m ≡ n
same_method_sound get get e = refl
same_method_sound head head e = refl
same_method_sound post post e = refl
same_method_sound delete delete e = refl
same_method_sound get head e = cc
same_method_sound get post e = cc
same_method_sound get delete e = cc
same_method_sound head get e = cc
same_method_sound head post e = cc
same_method_sound head delete e = cc
same_method_sound post get e = cc
same_method_sound post head e = cc
same_method_sound post delete e = cc
same_method_sound delete get e = cc
same_method_sound delete head e = cc
same_method_sound delete post e = cc

accepts_sound :
    (r : Route) (q : Request)
    → same_method r.method q.method && accepts r.pattern q.path ≡ true
    → Fits r q
accepts_sound r q e =
    let (m, f) = and_both (same_method r.method q.method) (accepts r.pattern q.path) e in
    (same_method_sound r.method q.method m, f)

accepts_complete :
    (r : Route) (q : Request)
    → Fits r q
    → same_method r.method q.method && accepts r.pattern q.path ≡ true
accepts_complete r q (m, f) =
    both_and (same_method r.method q.method) (accepts r.pattern q.path)
      (subst (λ k. same_method r.method k ≡ true) m (same_method_refl r.method)) f

first_match_sound :
    (rs : List Route) (q : Request) (r : Route) → first_match rs q ≡ some r → In r rs × Fits r q
first_match_sound [] q r e = cc
first_match_sound (x ∷ rs) q r e =
    elim (Bool-cases (same_method x.method q.method && accepts x.pattern q.path)) [
      | inl t ↦
          let same : x ≡ r = ground (arith, rw t at e) in
          (inl (sym same), subst (λ y. Fits y q) same (accepts_sound x q t))
      | inr t ↦ let (i, f) = first_match_sound rs q r (rw t at e) in (inr i, f)
    ]

first_match_complete :
    (rs : List Route) (q : Request) (r : Route) → In r rs → Fits r q → first_match rs q ≢ none
first_match_complete [] q r i f e = i
first_match_complete (x ∷ rs) q r i f e =
    elim (Bool-cases (same_method x.method q.method && accepts x.pattern q.path)) [
      | inl t ↦ let n : some x ≡ none = rw t at e in cc
      | inr t ↦ elim i [
        | inl d ↦ let y = accepts_complete x q (subst (λ y. Fits y q) d f) in cc
        | inr j ↦ first_match_complete rs q r j f (rw t at e)
      ]
    ]

first_match-IsRouter : IsRouter first_match
first_match-IsRouter = record { sound = first_match_sound; complete = first_match_complete }

abbrev deletion : Request
deletion = record { method = delete; path = "api" ∷ "v1" ∷ "keys" ∷ "7" ∷ [] }

abbrev deletes : Route
deletes = route delete (word "api" ∷ word "v1" ∷ word "keys" ∷ param "id" ∷ []) api_delete_key

routes-reached_example : first_match (routes (keymanager true)) deletion ≡ some deletes
unfolding routes key_routes
routes-reached_example =
    routes-reached first_match first_match-IsRouter (keymanager true) deletes deletion
      (In-manager_routes true deletes (inr (inr (inl refl)))) (refl, refl)

-- It reads one digit.
abbrev pub parse_digit : String → Result ℕ
parse_digit s = if str_eq s "7" then ok 7 else err (message "invalid syntax")

serve-api_example :
    Served first_match parse_digit toy service true "7" (err (message "EOF")) (world [])
serve-api_example =
    serve-api first_match parse_digit toy service true first_match-IsRouter "7"
      (err (message "EOF")) (world []) refl

-- The key is not there; an id that does not parse; a request of the dashboard.
abbrev answer_to : Method → List String → Reply
unfolding serve
answer_to method path =
    (serve first_match parse_digit toy service true (record { method = method; path = path })
      (err (message "EOF")) (world [])).0

answers :
    (answer_to delete ("api" ∷ "v1" ∷ "keys" ∷ "7" ∷ [])
      ≡ answered (answer 404 (error "key not found")))
    × (answer_to delete ("api" ∷ "v1" ∷ "keys" ∷ "x" ∷ [])
        ≡ answered (answer 400 (error "invalid id")))
    × (answer_to get ("ui" ∷ "lab" ∷ []) ≡ elsewhere ui_run_lab)
    × (answer_to get ("api" ∷ "v1" ∷ "keys" ∷ "7" ∷ []) ≡ not_found)
unfolding answer_to handle_delete routes find_key_by_id find_key
answers = (refl, refl, refl, refl)
