-- ===== src/Server/Routes.antt =====
-- The route tables: RegisterRoutes of ui/handler.go, keymanager/handler.go, audit/handler.go and
-- quantum/handler.go under internal, and what main of cmd/keymanager and cmd/quantum-api registers. A
-- path is its segments between slashes, so "/" is one empty segment. What a pattern accepts is gin's
-- documentation; gin's choice between routes is a parameter.
pub mod Reached
pub mod Api
use quantum_entropy_service.Common.{
  Bool, true, false, not, ◌&&◌, ◌≡◌, ◌≢◌, ◌⊎◌, List, [], ◌∷◌, ◌++◌, String, str_eq, Option, none,
  some, if◌then◌else◌,
}

pub data Method : Type 0 where
  get head post delete : Method

-- A part of a pattern: itself, `:name` and `*name`.
pub data Piece : Type 0 where
  word param rest : String → Piece

-- The handlers, by the part that registers them.
pub data Target : Type 0 where
  health_check debug_panic : Target
  static_file index_page : Target
  ui_pool_status ui_system_status ui_rabbitmq_queues ui_list_keys ui_generate_key : Target
  ui_delete_all_keys ui_delete_key ui_export_key ui_run_audit ui_run_lab : Target
  api_generate_key api_list_keys api_delete_key api_delete_all_keys api_export_key api_pool_status :
      Target
  api_run_audit api_quantum_data : Target

pub record Route : Type 0 where
  pub method : Method
  pub pattern : List Piece
  pub target : Target

pub record Request : Type 0 where
  pub method : Method
  pub path : List String

abbrev pub route : Method → List Piece → Target → Route
route method pattern target = record { method = method; pattern = pattern; target = target }

-- internal/ui: on the engine itself; Static serves GET and HEAD
unfoldable pub ui_routes : List Route
ui_routes =
    let ui : List Piece → List Piece = λ p. word "ui" ∷ p in
    route get (word "static" ∷ rest "filepath" ∷ []) static_file
    ∷ route head (word "static" ∷ rest "filepath" ∷ []) static_file
    ∷ route get (word "" ∷ []) index_page
    ∷ route get (ui (word "pool-status" ∷ [])) ui_pool_status
    ∷ route get (ui (word "system-status" ∷ [])) ui_system_status
    ∷ route get (ui (word "rabbitmq-queues" ∷ [])) ui_rabbitmq_queues
    ∷ route get (ui (word "keys" ∷ [])) ui_list_keys
    ∷ route post (ui (word "keys" ∷ [])) ui_generate_key
    ∷ route delete (ui (word "keys" ∷ [])) ui_delete_all_keys
    ∷ route delete (ui (word "keys" ∷ param "id" ∷ [])) ui_delete_key
    ∷ route post (ui (word "keys" ∷ param "id" ∷ word "export" ∷ [])) ui_export_key
    ∷ route get (ui (word "audit" ∷ [])) ui_run_audit
    ∷ route get (ui (word "lab" ∷ [])) ui_run_lab
    ∷ []

-- internal/keymanager, on a group
unfoldable pub key_routes : (group : List Piece) → List Route
key_routes group =
    let keys : List Piece → List Piece = λ p. group ++ word "keys" ∷ p in
    route post (keys []) api_generate_key
    ∷ route get (keys []) api_list_keys
    ∷ route delete (keys (param "id" ∷ [])) api_delete_key
    ∷ route delete (keys []) api_delete_all_keys
    ∷ route post (keys (param "id" ∷ word "export" ∷ [])) api_export_key
    ∷ route get (group ++ word "quantum-entropy" ∷ word "status" ∷ []) api_pool_status
    ∷ []

-- internal/audit and internal/quantum, on a group
unfoldable pub audit_routes : (group : List Piece) → List Route
audit_routes group =
    route get (group ++ word "quantum-entropy" ∷ word "audit" ∷ []) api_run_audit ∷ []

unfoldable pub quantum_routes : (group : List Piece) → List Route
quantum_routes group = route get (group ++ word "quantum-random" ∷ []) api_quantum_data ∷ []

abbrev pub v1 : List Piece
v1 = word "api" ∷ word "v1" ∷ []

abbrev health_route : Route
health_route = route get (word "health" ∷ []) health_check

-- cmd/keymanager; GET /debug/panic is there only with PANIC_DEBUG=true
unfoldable pub manager_routes : (panic_route : Bool) → List Route
unfolding ui_routes key_routes audit_routes
manager_routes panic_route =
    health_route
      ∷ (if panic_route then route get (word "debug" ∷ word "panic" ∷ []) debug_panic ∷ [] else [])
    ++ ui_routes
    ++ key_routes v1
    ++ audit_routes v1

-- cmd/quantum-api
unfoldable pub api_routes : List Route
unfolding quantum_routes
api_routes = health_route ∷ quantum_routes v1

pub data Command : Type 0 where
  keymanager : (panic_route : Bool) → Command
  quantum_api : Command

unfoldable pub routes : Command → List Route
unfolding manager_routes api_routes
routes (keymanager panic_route) = manager_routes panic_route
routes quantum_api = api_routes

-- A parameter takes one segment that is not empty, a catch-all all that is left of the path.
abbrev pub accepts : List Piece → List String → Bool
accepts [] [] = true
accepts [] (s ∷ path) = false
accepts (p ∷ ps) [] = false
accepts (rest name ∷ ps) (s ∷ path) = true
accepts (word w ∷ ps) (s ∷ path) = str_eq w s && accepts ps path
accepts (param name ∷ ps) (s ∷ path) = not (str_eq s "") && accepts ps path

abbrev pub Fits : Route → Request → Type 0
Fits r q = (r.method ≡ q.method) × (accepts r.pattern q.path ≡ true)

abbrev pub In : Route → List Route → Type 0
In r [] = ⊥
In r (x ∷ xs) = (r ≡ x) ⊎ In r xs

-- gin's choice of a route, and what its documentation promises: a route of the table that fits, and
-- some route where one fits.
abbrev pub Find : Type 0
Find = List Route → Request → Option Route

pub record IsRouter (find : Find) : Type 0 where
  pub sound : (rs : List Route) (q : Request) (r : Route) → find rs q ≡ some r → In r rs × Fits r q
  pub complete : (rs : List Route) (q : Request) (r : Route) → In r rs → Fits r q → find rs q ≢ none

-- The value of the first parameter: c.Param("id").
abbrev pub param_of : List Piece → List String → String
param_of (param name ∷ ps) (s ∷ path) = s
param_of (p ∷ ps) (s ∷ path) = param_of ps path
param_of ps path = ""
