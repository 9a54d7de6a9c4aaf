-- ===== src/Audit/Samples.antt =====
-- getQuantumSample, getCsprngSample and getPrngSample of internal/audit/service.go. A size is an `int`,
-- so it may be negative; cutting a sample to a negative size panics.
pub mod Prefix
use quantum_entropy_service.Common.{
  ℤ, pos, negsuc, ℕ, zero, suc, ◌-◌, ltb, leb, Bool, true, false, List, [], ◌∷◌, ◌++◌, String,
  length, take, if◌then◌else◌, GoError, message, Action, Result, ok, err,
}
use quantum_entropy_service.Keymanager.Model.{Bytes, QuantumData}
use quantum_entropy_service.Keymanager.Stores.{EntropyStore}
use Prim.Native.String.{◌++◌ as str_append}

-- len(sample) >= size, and len(sample) > size
abbrev pub reaches : ℕ → ℤ → Bool
reaches n (pos size) = leb size n
reaches n (negsuc size) = true

abbrev pub exceeds : ℕ → ℤ → Bool
exceeds n (pos size) = ltb size n
exceeds n (negsuc size) = true

-- What a call comes to: it returns, or it panics.
pub data Ran (A : Type 0) : Type 0 where
  returned : A → Ran A
  panicked : Ran A

-- encoding/base64, crypto/rand and math/rand. `decode` gives the bytes before the first error.
pub record Sources (R : Type 0) : Type 0 where
  pub decode : String → Bytes
  pub encode : Bytes → String
  pub hex : Bytes → String
  pub csprng : ℕ → R → Bytes × R
  pub prng : (size : ℕ) (seed : ℤ) → Bytes

abbrev pub no_data : String → GoError
no_data source = message (str_append "no quantum data available for source: " source)

module _ {R : Type 0} (src : Sources R) where
  unfoldable pub gather : ℤ → Bytes → List QuantumData → Bytes
  gather size sample [] = sample
  gather size sample (q ∷ qs) =
      let longer = sample ++ src.decode q.data_base64 in
      let rest = gather size longer qs in if reaches (length longer) size then longer else rest

  abbrev slice : ℤ → Bytes → Ran (Result Bytes)
  slice (pos n) sample = returned (ok (take n sample))
  slice (negsuc n) sample = panicked

  unfoldable pub cut : ℤ → Bytes → Ran (Result Bytes)
  cut size sample = if exceeds (length sample) size then slice size sample else returned (ok sample)

  abbrev pub on_found : String → ℤ → Result (List QuantumData) → Ran (Result Bytes)
  on_found source size (err e) = returned (err (no_data source))
  on_found source size (ok []) = returned (err (no_data source))
  on_found source size (ok (q ∷ qs)) = cut size (gather size [] (q ∷ qs))

  unfoldable pub get_quantum_sample :
      {D : Type 0} → EntropyStore D → String → ℤ → D → Ran (Result Bytes) × D
  unfolding gather cut
  get_quantum_sample store source size d =
      let (found, d') = store.find_all_unused_by_source source d in (on_found source size found, d')
