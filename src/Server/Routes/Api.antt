-- ===== src/Server/Routes/Api.antt =====
-- The REST API of cmd/keymanager behind its routes, with parseID of internal/keymanager/handler.go. The
-- parse of the body as JSON is done by the caller.
use quantum_entropy_service.Common.{
  ◌≡◌, refl, Bool, false, List, [], ◌∷◌, ◌++◌, String, str_eq, ℕ, Option, none, some, Result, inl,
  inr, ap,
}
use quantum_entropy_service.Keymanager.Crypto.{Crypto}
use quantum_entropy_service.Keymanager.Service.{Service, World}
use quantum_entropy_service.Keymanager.Handler.{
  Answer, GenerateRequest, Handled, handle_generate, handle_list, handle_delete, handle_delete_all,
  handle_export, handle_pool_status,
}
use quantum_entropy_service.Server.Routes.{
  Method, get, post, delete, Target, api_generate_key, api_list_keys, api_delete_key,
  api_delete_all_keys, api_export_key, api_pool_status, Route, Request, Find, IsRouter, keymanager,
  routes, param_of, Fits, In, key_routes, v1, route, Piece, word, param,
}
use quantum_entropy_service.Server.Routes.Reached.{routes-reached, In-manager_routes}

-- What the API does with a request: its answer, or a request that is another part's, or none's.
pub data Reply : Type 0 where
  answered : Answer → Reply
  elsewhere : Target → Reply
  not_found : Reply

module _ {D B C : Type 0} (find : Find) (parse_uint : String → Result ℕ) (c : Crypto)
    (svc : Service D B C) (panic_route : Bool) where
  -- parseID of c.Param("id"); uint is 64 bits wide, as what ParseUint is asked for
  unfoldable pub parse_id : Route → Request → Result ℕ
  parse_id r q = parse_uint (param_of r.pattern q.path)

  abbrev Replied : Type 0
  Replied = World D B c.Random C → Reply × World D B c.Random C

  abbrev pub replied : Handled c svc → Replied
  replied h w = let (a, w') = h w in (answered a, w')

  abbrev pub run_target : Target → Result ℕ → Result GenerateRequest → Replied
  run_target api_generate_key id body = replied (handle_generate c svc body)
  run_target api_list_keys id body = replied (handle_list c svc)
  run_target api_delete_key id body = replied (handle_delete c svc id)
  run_target api_delete_all_keys id body = replied (handle_delete_all c svc)
  run_target api_export_key id body = replied (handle_export c svc id)
  run_target api_pool_status id body = replied (handle_pool_status c svc)
  run_target target id body = λ w. (elsewhere target, w)

  abbrev pub on_found : Request → Result GenerateRequest → Option Route → Replied
  on_found q body none = λ w. (not_found, w)
  on_found q body (some r) = run_target r.target (parse_id r q) body

  unfoldable pub serve : Request → Result GenerateRequest → Replied
  unfolding parse_id
  serve q body = on_found q body (find (routes (keymanager panic_route)) q)

  abbrev request : Method → List String → Request
  request method path = record { method = method; path = "api" ∷ "v1" ∷ path }

  -- The six requests of the API, and the handlers that are for them.
  abbrev pub Served : String → Result GenerateRequest → World D B c.Random C → Type 0
  Served id body w =
      (serve (request post ("keys" ∷ [])) body w ≡ replied (handle_generate c svc body) w)
      × (serve (request get ("keys" ∷ [])) body w ≡ replied (handle_list c svc) w)
      × (serve (request delete ("keys" ∷ id ∷ [])) body w
          ≡ replied (handle_delete c svc (parse_uint id)) w)
      × (serve (request delete ("keys" ∷ [])) body w ≡ replied (handle_delete_all c svc) w)
      × (serve (request post ("keys" ∷ id ∷ "export" ∷ [])) body w
          ≡ replied (handle_export c svc (parse_uint id)) w)
      × (serve (request get ("quantum-entropy" ∷ "status" ∷ [])) body w
          ≡ replied (handle_pool_status c svc) w)

  module _ (router : IsRouter find) where
    reached :
        (r : Route) (q : Request) (body : Result GenerateRequest)
        → In r (routes (keymanager panic_route))
        → Fits r q
        → serve q body ≡ run_target r.target (parse_id r q) body
    unfolding serve
    reached r q body i f =
        ap (on_found q body) (routes-reached find router (keymanager panic_route) r q i f)

    -- Behind its routes the API answers each of its six requests with the handler that is for it, and
    -- those with an id, which may be any text but the empty one, with what parsing that text gave.
    pub serve-api :
        (id : String) (body : Result GenerateRequest) (w : World D B c.Random C)
        → str_eq id "" ≡ false
        → Served id body w
    unfolding key_routes parse_id
    serve-api id body w given = (
      by_route (key post [] api_generate_key) (request post ("keys" ∷ [])) (inl refl) (refl, refl),
      by_route (key get [] api_list_keys) (request get ("keys" ∷ [])) (inr (inl refl)) (refl, refl),
      by_route (key delete (param "id" ∷ []) api_delete_key) (request delete ("keys" ∷ id ∷ []))
          (inr (inr (inl refl))) (refl, rw given refl),
      by_route (key delete [] api_delete_all_keys) (request delete ("keys" ∷ []))
          (inr (inr (inr (inl refl)))) (refl, refl),
      by_route (key post (param "id" ∷ word "export" ∷ []) api_export_key)
          (request post ("keys" ∷ id ∷ "export" ∷ [])) (inr (inr (inr (inr (inl refl)))))
          (refl, rw given refl),
      by_route (route get (v1 ++ word "quantum-entropy" ∷ word "status" ∷ []) api_pool_status)
          (request get ("quantum-entropy" ∷ "status" ∷ [])) (inr (inr (inr (inr (inr (inl refl))))))
          (refl, refl),
    )
      where
        key : Method → List Piece → Target → Route
        key method p target = route method (v1 ++ word "keys" ∷ p) target

        by_route :
            (r : Route) (q : Request)
            → In r (key_routes v1)
            → Fits r q
            → serve q body w ≡ run_target r.target (parse_id r q) body w
        by_route r q i f = ap (λ h. h w) (reached r q body (In-manager_routes panic_route r i) f)
