-- ===== src/Server/Routes/Reached.antt =====
-- Which handler a request reaches.
use quantum_entropy_service.Common.{
  Bool, true, false, not, ◌&&◌, ◌≡◌, inl, inr, List, ◌++◌, [], ◌∷◌, String, str_eq, Option, none,
  some, refl, sym, subst, ap, ◌∙◌,
}
use text.Mathlib.TextEquality.{eq_iff}
use quantum_entropy_service.Server.Routes.{
  Method, get, head, post, delete, Piece, word, param, rest, Route, Request, accepts, Fits, In,
  Find, ui_routes, key_routes, audit_routes, v1, IsRouter, Command, keymanager, quantum_api, routes,
}

abbrev pub same_method : Method → Method → Bool
same_method get get = true
same_method head head = true
same_method post post = true
same_method delete delete = true
same_method m n = false

-- Whether some path may fit both patterns.
abbrev clash : List Piece → List Piece → Bool
clash [] [] = true
clash [] (q ∷ qs) = false
clash (p ∷ ps) [] = false
clash (rest a ∷ ps) (q ∷ qs) = true
clash (p ∷ ps) (rest b ∷ qs) = true
clash (word a ∷ ps) (word b ∷ qs) = str_eq a b && clash ps qs
clash (word a ∷ ps) (param b ∷ qs) = not (str_eq a "") && clash ps qs
clash (param a ∷ ps) (word b ∷ qs) = not (str_eq b "") && clash ps qs
clash (param a ∷ ps) (param b ∷ qs) = clash ps qs

pub and_both : (a b : Bool) → a && b ≡ true → (a ≡ true) × (b ≡ true)
and_both true b e = (refl, e)
and_both false b e = cc

pub both_and : (a b : Bool) → a ≡ true → b ≡ true → a && b ≡ true
both_and a b p q = rw (p, q) refl

-- A segment that suits two words makes them one; one that suits a parameter is not empty.
same_word : (a b s : String) → str_eq a s ≡ true → str_eq b s ≡ true → str_eq a b ≡ true
same_word a b s p q = (eq_iff a b).1 ((eq_iff a s).0 p ∙ sym ((eq_iff b s).0 q))

not_empty : (a s : String) → str_eq a s ≡ true → not (str_eq s "") ≡ true → not (str_eq a "") ≡ true
not_empty a s p q = subst (λ t. not (str_eq t "") ≡ true) (sym ((eq_iff a s).0 p)) q

accepts-clash :
    (ps qs : List Piece) (path : List String)
    → accepts ps path ≡ true
    → accepts qs path ≡ true
    → clash ps qs ≡ true
accepts-clash [] [] path e f = refl
accepts-clash [] (word b ∷ qs) [] e f = cc
accepts-clash [] (param b ∷ qs) [] e f = cc
accepts-clash [] (rest b ∷ qs) [] e f = cc
accepts-clash [] (q ∷ qs) (s ∷ path) e f = cc
accepts-clash (p ∷ ps) qs [] e f = cc
accepts-clash (p ∷ ps) [] (s ∷ path) e f = cc
accepts-clash (rest a ∷ ps) (q ∷ qs) (s ∷ path) e f = refl
accepts-clash (word a ∷ ps) (rest b ∷ qs) (s ∷ path) e f = refl
accepts-clash (param a ∷ ps) (rest b ∷ qs) (s ∷ path) e f = refl
accepts-clash (word a ∷ ps) (word b ∷ qs) (s ∷ path) e f =
    let (x, e') = and_both (str_eq a s) (accepts ps path) e in
    let (y, f') = and_both (str_eq b s) (accepts qs path) f in
    both_and (str_eq a b) (clash ps qs) (same_word a b s x y) (accepts-clash ps qs path e' f')
accepts-clash (word a ∷ ps) (param b ∷ qs) (s ∷ path) e f =
    let (x, e') = and_both (str_eq a s) (accepts ps path) e in
    let (y, f') = and_both (not (str_eq s "")) (accepts qs path) f in
    both_and (not (str_eq a "")) (clash ps qs) (not_empty a s x y) (accepts-clash ps qs path e' f')
accepts-clash (param a ∷ ps) (word b ∷ qs) (s ∷ path) e f =
    let (x, e') = and_both (not (str_eq s "")) (accepts ps path) e in
    let (y, f') = and_both (str_eq b s) (accepts qs path) f in
    both_and (not (str_eq b "")) (clash ps qs) (not_empty b s y x) (accepts-clash ps qs path e' f')
accepts-clash (param a ∷ ps) (param b ∷ qs) (s ∷ path) e f =
    let (x, e') = and_both (not (str_eq s "")) (accepts ps path) e in
    let (y, f') = and_both (not (str_eq s "")) (accepts qs path) f in accepts-clash ps qs path e' f'

-- Whether no request may suit two routes of a table.
abbrev overlaps : Route → Route → Bool
overlaps r s = same_method r.method s.method && clash r.pattern s.pattern

abbrev clear : Route → List Route → Bool
clear r [] = true
clear r (s ∷ rs) = not (overlaps r s) && clear r rs

abbrev apart : List Route → Bool
apart [] = true
apart (r ∷ rs) = clear r rs && apart rs

true_and_not : (b : Bool) → b ≡ true → not b ≡ true → ⊥
true_and_not true p q = cc
true_and_not false p q = cc

pub same_method_refl : (m : Method) → same_method m m ≡ true
same_method_refl get = refl
same_method_refl head = refl
same_method_refl post = refl
same_method_refl delete = refl

overlaps_if_fit : (r s : Route) (q : Request) → Fits r q → Fits s q → overlaps r s ≡ true
overlaps_if_fit r s q (m, f) (n, g) =
    both_and (same_method r.method s.method) (clash r.pattern s.pattern)
      (subst (λ k. same_method r.method k ≡ true) (m ∙ sym n) (same_method_refl r.method))
      (accepts-clash r.pattern s.pattern q.path f g)

clear-unfit :
    (r s : Route) (rs : List Route) (q : Request)
    → clear r rs ≡ true
    → In s rs
    → Fits r q
    → Fits s q
    → ⊥
clear-unfit r s [] q c i f g = i
clear-unfit r s (x ∷ rs) q c i f g =
    let (differs, later) = and_both (not (overlaps r x)) (clear r rs) c in
    elim i [
      | inl e ↦
          let yes : overlaps r x ≡ true = overlaps_if_fit r x q f (subst (λ y. Fits y q) e g) in
          true_and_not (overlaps r x) yes differs
      | inr j ↦ clear-unfit r s rs q later j f g
    ]

-- In a table whose routes are apart at most one route fits a request.
apart_unique :
    (rs : List Route) (r s : Route) (q : Request)
    → apart rs ≡ true
    → In r rs
    → In s rs
    → Fits r q
    → Fits s q
    → r ≡ s
apart_unique [] r s q a i j f g = absurd i
apart_unique (x ∷ rs) r s q a i j f g =
    let (first, later) = and_both (clear x rs) (apart rs) a in
    elim i [
      | inl d ↦ elim j [
        | inl e ↦ d ∙ sym e
        | inr l ↦ absurd (clear-unfit x s rs q first l (subst (λ y. Fits y q) d f) g)
      ]
      | inr k ↦ elim j [
        | inl e ↦ absurd (clear-unfit x r rs q first k (subst (λ y. Fits y q) e g) f)
        | inr l ↦ apart_unique rs r s q later k l f g
      ]
    ]

routes-apart : (c : Command) → apart (routes c) ≡ true
unfolding routes
routes-apart (keymanager true) = refl
routes-apart (keymanager false) = refl
routes-apart quantum_api = refl

module _ (find : Find) (router : IsRouter find) where
  found :
      (rs : List Route) (r : Route) (q : Request)
      → apart rs ≡ true
      → In r rs
      → Fits r q
      → find rs q ≡ some r
  found rs r q a i f = go (find rs q) refl
    where
      go : (o : Option Route) → find rs q ≡ o → find rs q ≡ some r
      go none e = absurd (router.complete rs q r i f e)
      go (some s) e =
          let (j, g) = router.sound rs q s e in e ∙ ap some (apart_unique rs s r q a j i g f)

  -- A request that fits a route of a command's table reaches the handler of that route, whatever
  -- order or preference the router has.
  pub routes-reached :
      (c : Command) (r : Route) (q : Request)
      → In r (routes c)
      → Fits r q
      → find (routes c) q ≡ some r
  routes-reached c r q i f = found (routes c) r q (routes-apart c) i f

In-append_right : (r : Route) (xs ys : List Route) → In r ys → In r (xs ++ ys)
In-append_right r [] ys i = i
In-append_right r (x ∷ xs) ys i = inr (In-append_right r xs ys i)

In-append_left : (r : Route) (xs ys : List Route) → In r xs → In r (xs ++ ys)
In-append_left r [] ys i = absurd i
In-append_left r (x ∷ xs) ys i = elim i [ inl e ↦ inl e | inr j ↦ inr (In-append_left r xs ys j) ]

-- The routes of the API are in the table of cmd/keymanager.
pub In-manager_routes :
    (panic_route : Bool) (r : Route) → In r (key_routes v1) → In r (routes (keymanager panic_route))
unfolding routes
In-manager_routes panic_route r i = go panic_route
  where
    listed : In r (ui_routes ++ key_routes v1 ++ audit_routes v1)
    listed =
        In-append_right r ui_routes (key_routes v1 ++ audit_routes v1)
          (In-append_left r (key_routes v1) (audit_routes v1) i)

    go : (b : Bool) → In r (routes (keymanager b))
    go true = inr (inr listed)
    go false = inr listed
