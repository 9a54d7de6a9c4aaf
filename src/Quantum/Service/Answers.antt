-- ===== src/Quantum/Service/Answers.antt =====
-- Bad counts reach neither the network nor the source of randomness, and pure data are what was sent.
use quantum_entropy_service.Common.{
  Option-cases, none, some, inl, inr, ℕ, ◌≤◌, ◌<◌, ◌≡◌, refl, Bool, true, false, ◌||◌, ◌==◌, ltb,
  str_eq, String, ℤ, pos, negsuc, Option, Result, ok, err, arith,
}
use quantum_entropy_service.Keymanager.Model.{Bytes}
use quantum_entropy_service.Quantum.Service.{
  Api, Response, max_count, fetch_url, decode_response, fetch_random_bytes, get_entropy_as_base64,
  bad_request, count_of, answer_of, get_entropy_of, get_quantum_data,
}

module _ {W : Type 0} (api : Api W) (base_url : String) where
  -- With a count in range, `pure`, and a sound response, the answer is the base64 form of the bytes
  -- that the device sent, and nothing is done after the request.
  pub get_entropy_as_base64-pure :
      (count : ℕ) (w w' : W) (resp : Response) (qrn : String) (bytes : Bytes)
      → 0 < count
      → count ≤ max_count
      → api.get (fetch_url api base_url count) w ≡ (ok resp, w')
      → resp.status_code ≡ 200
      → resp.qrn ≡ ok qrn
      → str_eq qrn "" ≡ false
      → api.hex_decode qrn ≡ ok bytes
      → get_entropy_as_base64 api base_url (pos count) true w ≡ (ok (api.encode bytes), w')
  unfolding get_entropy_as_base64 fetch_random_bytes decode_response
  get_entropy_as_base64-pure count w w' resp qrn bytes p q g s f n d =
      simp (within count p q, g, s, f, n, d)
    where
      within : (n : ℕ) → 0 < n → n ≤ max_count → (n == 0 || ltb max_count n) ≡ false
      within n p q = ground arith

  count_of-bounds :
      (count : Option (Result ℤ)) (n : ℕ)
      → count_of api base_url count ≡ some n
      → (n == 0 || ltb max_count n) ≡ false
  count_of-bounds none n e = ground (arith, e)
  count_of-bounds (some (err x)) n e = ground (arith, e)
  count_of-bounds (some (ok (negsuc m))) n e = ground (arith, e)
  count_of-bounds (some (ok (pos m))) n e = ground (arith, e)

  bounds-of_test : (n : ℕ) → (n == 0 || ltb max_count n) ≡ false → (0 < n) × (n ≤ max_count)
  bounds-of_test n e = (ground (arith, e), ground (arith, e))

  -- How the handler treats a request: it refuses the count and does nothing, or it passes on a count
  -- from 1 to 1024, which the service does not refuse a second time.
  pub data Treated (count : Option (Result ℤ)) (pure_ : Bool) (w : W) : Type 0 where
    refused :
        count_of api base_url count ≡ none
        → get_quantum_data api base_url count pure_ w
          ≡ (bad_request "count must be between 1 and 1024", w)
        → Treated count pure_ w
    passed_on :
        (n : ℕ)
        → count_of api base_url count ≡ some n
        → 0 < n
        → n ≤ max_count
        → get_quantum_data api base_url count pure_ w ≡ (
          answer_of api base_url (get_entropy_of api base_url n pure_ w).0,
          (get_entropy_of api base_url n pure_ w).1,
        )
        → Treated count pure_ w

  -- A request with a count that is not a number from 1 to 1024 is refused before anything is fetched;
  -- every other, a count that is absent being 128, is passed on, and the service's own test of the
  -- range does not refuse it.
  pub get_quantum_data-Treated :
      (count : Option (Result ℤ)) (pure_ : Bool) (w : W) → Treated count pure_ w
  unfolding get_quantum_data get_entropy_as_base64
  get_quantum_data-Treated count pure_ w = elim (Option-cases (count_of api base_url count)) [
    | inl e ↦ refused e (rw (e) refl)
    | inr (n, e) ↦
        let inside = count_of-bounds count n e in
        let bounds = bounds-of_test n inside in
        passed_on n e bounds.0 bounds.1 (rw (e) (rw (inside) refl))
  ]
