-- ===== src/Keymanager/Handler.antt =====
-- internal/keymanager/handler.go: the REST API. A request is what gin has parsed of it; an answer is a
-- status and a body. A key size is an int there; a negative one is left out.
pub mod Statuses
use quantum_entropy_service.Common.{
  ℕ, ◌==◌, Bool, List, map, String, str_eq, if◌then◌else◌, Done, GoError, message, error_text,
  Result, ok, err,
}
use quantum_entropy_service.Keymanager.Model.{Bytes, RsaKey}
use quantum_entropy_service.Keymanager.Crypto.{Crypto}
use quantum_entropy_service.Keymanager.Service.{Service, World, Call, at_db}
use quantum_entropy_service.Keymanager.Service.Keys.{
  generate_key, export_private_key, pool_status, delete_key, delete_all_keys,
}

pub record KeyResponse : Type 0 where
  pub id : ℕ
  pub alias : String
  pub key_size : ℕ
  pub public_key_pem : String

unfoldable pub to_key_response : RsaKey → KeyResponse
to_key_response k = record {
  id = k.id;
  alias = k.alias;
  key_size = k.key_size;
  public_key_pem = k.public_key_pem;
}

pub data Body : Type 0 where
  empty : Body
  error : String → Body
  key : KeyResponse → Body
  key_list : List KeyResponse → Body
  private_key_pem : Bytes → Body
  available_records : ℕ → Body

pub record Answer : Type 0 where
  pub status : ℕ
  pub body : Body

pub record GenerateRequest : Type 0 where
  pub alias : String
  pub key_size : ℕ

abbrev pub answer : ℕ → Body → Answer
answer status body = record { status = status; body = body }

abbrev pub default_size : ℕ → ℕ
default_size key_size = if key_size == 0 then 2048 else key_size

abbrev pub generate_status : GoError → ℕ
generate_status e =
    if str_eq (error_text e) "pool exhausted: insufficient entropy in pool" then 503 else 500

abbrev pub lookup_status : GoError → ℕ
lookup_status e = if str_eq (error_text e) "key not found" then 404 else 500

module _ {D B C : Type 0} (c : Crypto) (svc : Service D B C) where
  abbrev pub Handled : Type 0
  Handled = World D B c.Random C → Answer × World D B c.Random C

  -- The two branches after a call of the service: the error has a status, the result an answer.
  abbrev respond : {A : Type 0} → (GoError → ℕ) → (A → Answer) → Call c svc A → Handled
  respond status done call w = let (r, w') = call w in (answer_to status done r, w')
    where
      answer_to : {A : Type 0} → (GoError → ℕ) → (A → Answer) → Result A → Answer
      answer_to status done (err e) = answer (status e) (error (error_text e))
      answer_to status done (ok a) = done a

  -- POST /keys
  unfoldable pub handle_generate : Result GenerateRequest → Handled
  unfolding generate_key to_key_response
  handle_generate (err e) w = (answer 400 (error (error_text e)), w)
  handle_generate (ok req) w =
      respond generate_status (λ k. answer 201 (key (to_key_response k)))
        (generate_key c svc req.alias (default_size req.key_size)) w

  -- GET /keys
  unfoldable pub handle_list : Handled
  unfolding to_key_response
  handle_list =
      respond (λ e. 500) (λ keys. answer 200 (key_list (map to_key_response keys)))
        (at_db c svc svc.keys.find_all_keys)

  -- DELETE /keys/:id
  unfoldable pub handle_delete : Result ℕ → Handled
  unfolding delete_key
  handle_delete (err e) w = (answer 400 (error "invalid id"), w)
  handle_delete (ok id) w = respond lookup_status (λ _. answer 204 empty) (delete_key c svc id) w

  -- DELETE /keys
  unfoldable pub handle_delete_all : Handled
  unfolding delete_all_keys
  handle_delete_all = respond (λ e. 500) (λ _. answer 204 empty) (delete_all_keys c svc)

  -- POST /keys/:id/export
  unfoldable pub handle_export : Result ℕ → Handled
  unfolding export_private_key
  handle_export (err e) w = (answer 400 (error "invalid id"), w)
  handle_export (ok id) w =
      respond lookup_status (λ pem. answer 200 (private_key_pem pem)) (export_private_key c svc id)
        w

  -- GET /quantum-entropy/status
  unfoldable pub handle_pool_status : Handled
  unfolding pool_status
  handle_pool_status =
      respond (λ e. 500) (λ count. answer 200 (available_records count)) (pool_status c svc)
