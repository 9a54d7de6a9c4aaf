-- ===== src/Server/Pipeline.antt =====
-- The two commands together: the collector of cmd/keymanager, whose network is cmd/quantum-api. What
-- net/http and gin do with a URL and with an answer, and what JSON and base64 are, are parameters.
use quantum_entropy_service.Common.{
  List, All, ltb, leb, ◌&&◌, ◌||◌, ◌+◌, ◌*◌, ◌-◌, if◌then◌else◌, ◌≡◌, ℕ, ℤ, pos, Bool, true, false,
  str_eq, String, [], ◌∷◌, Option, none, some, Result, ok, err, Action, GoError, error_text,
  message, wrapped,
}
use Prim.Native.Char.{Char, code}
use Prim.Native.String.{◌++◌ as str_append}
use quantum_entropy_service.Keymanager.Model.{Bytes}
use quantum_entropy_service.Quantum.Service.{
  Api, Answer, bad_request, server_error, answered, get_quantum_data,
}
use quantum_entropy_service.Collector.Scheduler.{Web, Response, Scheduler}

-- What the libraries make of a URL: none where no route fits, else what c.Query gives for a name;
-- strconv.Atoi; and the bodies that c.JSON writes.
pub record Link : Type 0 where
  pub query : String → Option (String → String)
  pub atoi : String → Result ℤ
  pub data_body : (base64_data : String) → String
  pub error_body : (error : String) → String
  pub not_found_body : String

-- Letters and digits, which a URL carries as they are.
abbrev plain_char : Char → Bool
plain_char c =
    let n = code c in (leb 48 n && ltb n 58) || (leb 65 n && ltb n 91) || (leb 97 n && ltb n 123)

abbrev pub is_plain : String → Bool
is_plain String.[] = true
is_plain (String.◌∷◌ c s) = plain_char c && is_plain s

abbrev digit : Char → Bool
digit c = let n = code c in leb 48 n && ltb n 58

abbrev pub is_digits : String → Bool
is_digits String.[] = true
is_digits (String.◌∷◌ c s) = digit c && is_digits s

-- The number that follows these digits is written with.
abbrev pub decimal_value : ℕ → String → ℕ
decimal_value n String.[] = n
decimal_value n (String.◌∷◌ c s) = decimal_value (10 * n + (code c - 48)) s

-- The query part of a URL, and the value that it gives a name, empty for none.
abbrev pub render : List (String × String) → String
render [] = ""
render ((name, value) ∷ []) = str_append name (String.◌∷◌ "=" value)
render ((name, value) ∷ p ∷ ps) =
    str_append name (String.◌∷◌ "=" (str_append value (String.◌∷◌ "&" (render (p ∷ ps)))))

abbrev pub value_of : String → List (String × String) → String
value_of key [] = ""
value_of key ((name, value) ∷ ps) = if str_eq name key then value else value_of key ps

abbrev pub PlainQuery : List (String × String) → Type 0
PlainQuery = All λ p. (is_plain p.0 ≡ true) × (is_plain p.1 ≡ true)

module _ {W : Type 0} (api : Api W) (base_url : String) (link : Link) where
  -- How the handler reads the query.
  abbrev pub read_count : (String → String) → Option (Result ℤ)
  read_count query =
      let text = query "count" in if str_eq text "" then none else some (link.atoi text)

  abbrev pub read_pure : (String → String) → Bool
  read_pure query = str_eq (query "pure") "true"

  abbrev response : ℕ → String → Response
  response status body = record { status_code = status; body = ok body }

  abbrev response_of : Answer api base_url → Response
  response_of (bad_request e) = response 400 (link.error_body e)
  response_of (server_error e) = response 500 (link.error_body e)
  response_of (answered text) = response 200 (link.data_body text)

  abbrev on_query : Option (String → String) → Action W Response
  on_query none w = (ok (response 404 link.not_found_body), w)
  on_query (some query) w =
      let (a, w') = get_quantum_data api base_url (read_count query) (read_pure query) w in
      (ok (response_of a), w')

  -- A GET of cmd/quantum-api.
  unfoldable pub get_from_api : String → Action W Response
  unfolding get_quantum_data
  get_from_api url = on_query (link.query url)

  -- What the API answers to the collector's request, by what the device gave.
  abbrev answer_for : Result Bytes → Answer api base_url
  answer_for (ok bytes) = answered (api.encode bytes)
  answer_for (err e) = server_error (error_text (wrapped "failed to fetch from LfD API" e))

  module _ {D B : Type 0} (web : Web W) (s : Scheduler D B) where
    -- The libraries at both ends agree: on JSON and base64; and the server at the collector's base URL
    -- has the route, gives of a query of letters and digits the values that are written there, and
    -- reads digits as the number they write.
    pub record Agrees : Type 0 where
      pub reads_data : (text : String) → web.data_of (link.data_body text) ≡ ok text
      pub decodes : (bytes : Bytes) → web.decode (api.encode bytes) ≡ ok bytes
      pub empty : str_eq (api.encode []) "" ≡ true
      pub not_empty : (b : ℕ) (bytes : Bytes) → str_eq (api.encode (b ∷ bytes)) "" ≡ false
      pub routed :
          (params : List (String × String))
          → PlainQuery params
          → (query : String → String) × (link.query
                (str_append s.api_base_url (str_append "/api/v1/quantum-random?" (render params)))
              ≡ some query)
            × ((key : String) → query key ≡ value_of key params)
      pub reads_number :
          (c : Char) (text : String)
          → is_digits (String.◌∷◌ c text) ≡ true
          → link.atoi (String.◌∷◌ c text) ≡ ok (pos (decimal_value 0 (String.◌∷◌ c text)))

    -- What reaches the collector of what the device gave.
    abbrev pub Passes : Result Bytes → Result Bytes → Type 0
    Passes (ok []) r = r ≡ err (message "empty data received from API")
    Passes (ok (b ∷ bytes)) r = r ≡ ok (b ∷ bytes)
    Passes (err e) r = (e' : GoError) × (r ≡ err e')

    -- What the collector asks for.
    abbrev asked_for : List (String × String)
    asked_for = ("count", "1024") ∷ ("pure", "true") ∷ []
