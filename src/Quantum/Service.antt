-- ===== src/Quantum/Service.antt =====
-- GetEntropyAsBase64 (internal/quantum/service.go), FetchRandomBytes (client_lfd.go) and GetQuantumData
-- (handler.go). Here one call is followed at a time; the permits (`sem`) are in Permits.
pub mod Answers
use quantum_entropy_service.Common.{
  ℕ, zero, suc, ltb, leb, Bool, true, false, not, ◌||◌, ◌==◌, str_eq, List, [], ◌∷◌, String, ℤ, pos,
  negsuc, if◌then◌else◌, Option, none, some, GoError, message, error_text, Action, Result, ok, err,
  pure, lift, wrap, guard, ◌>>=◌, ◌>>◌, Done,
}
use Prim.Native.String.{◌++◌ as str_append}
use quantum_entropy_service.Keymanager.Model.{Bytes}
use quantum_entropy_service.Quantum.Mixing.{Entropy, mix_with_system_entropy}

abbrev pub max_count : ℕ
max_count = 1024

-- What the HTTP client gives back: a status, the body as far as it could be read, and the decoded
-- field `qrn` of the body.
pub record Response : Type 0 where
  pub status_code : ℕ
  pub body : String
  pub qrn : Result String

-- net/http, encoding/hex, encoding/base64 and the decimal form of a number. `W` is the network with the
-- source of randomness.
pub record Api (W : Type 0) : Type 0 where
  pub get : String → Action W Response
  pub hex_decode : String → Result Bytes
  pub encode : Bytes → String
  pub decimal : ℤ → String
  pub entropy : Entropy W

module _ {W : Type 0} (api : Api W) (base_url : String) where
  abbrev pub fetch_url : ℕ → String
  fetch_url count =
      str_append base_url
        (str_append "/qrng?length=" (str_append (api.decimal (pos count)) "&format=HEX"))

  unfoldable pub decode_response : Response → Action W Bytes
  decode_response resp = do
    guard (resp.status_code == 200) (
        message (
          str_append "LfD API returned status "
            (str_append (api.decimal (pos resp.status_code)) (str_append ": " resp.body))))
    qrn ← wrap "failed to decode LfD API response" (lift resp.qrn)
    guard (not (str_eq qrn "")) (message "empty quantum data received from LfD API")
    wrap "failed to decode hex from LfD API" (lift (api.hex_decode qrn))

  unfoldable pub fetch_random_bytes : ℕ → Action W Bytes
  unfolding decode_response
  fetch_random_bytes count = do
    resp ← wrap "HTTP request failed" (api.get (fetch_url count))
    decode_response resp

  abbrev pub bad_count : ℤ → GoError
  bad_count count =
      message (str_append "count must be between 1 and 1024, got " (api.decimal count))

  abbrev pub final_entropy : Bool → Bytes → Action W Bytes
  unfolding mix_with_system_entropy
  final_entropy true bytes = pure bytes
  final_entropy false bytes =
      wrap "failed to mix entropy" (mix_with_system_entropy api.entropy bytes)

  abbrev pub get_entropy_of : (count : ℕ) → Bool → Action W String
  unfolding fetch_random_bytes mix_with_system_entropy
  get_entropy_of count pure_ = do
    quantum_bytes ← wrap "failed to fetch from LfD API" (fetch_random_bytes count)
    final ← final_entropy pure_ quantum_bytes
    pure (api.encode final)

  unfoldable pub get_entropy_as_base64 : ℤ → Bool → Action W String
  unfolding fetch_random_bytes mix_with_system_entropy
  get_entropy_as_base64 (negsuc n) pure_ w = (err (bad_count (negsuc n)), w)
  get_entropy_as_base64 (pos count) pure_ w =
      if count == 0 || ltb max_count count
      then (err (bad_count (pos count)), w)
      else get_entropy_of count pure_ w

  -- What the handler answers: a status and an error or the data.
  pub data Answer : Type 0 where
    bad_request server_error : (error : String) → Answer
    answered : (base64_data : String) → Answer

  -- The parameter `count`: absent, not a number, or a number (strconv.Atoi).
  abbrev pub count_of : Option (Result ℤ) → Option ℕ
  count_of none = some 128
  count_of (some (err e)) = none
  count_of (some (ok (negsuc n))) = none
  count_of (some (ok (pos n))) = if n == 0 || ltb max_count n then none else some n

  abbrev pub answer_of : Result String → Answer
  answer_of (err e) = server_error (error_text e)
  answer_of (ok text) = answered text

  abbrev pub answer_with : Option ℕ → Bool → W → Answer × W
  unfolding get_entropy_as_base64
  answer_with none pure_ w = (bad_request "count must be between 1 and 1024", w)
  answer_with (some count) pure_ w =
      let (r, w') = get_entropy_as_base64 (pos count) pure_ w in (answer_of r, w')

  unfoldable pub get_quantum_data : (count : Option (Result ℤ)) (pure_ : Bool) → W → Answer × W
  unfolding get_entropy_as_base64
  get_quantum_data count pure_ w = answer_with (count_of count) pure_ w
