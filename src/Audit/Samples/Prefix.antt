-- ===== src/Audit/Samples/Prefix.antt =====
-- The sample is what a plain definition says: the first bytes of all the decoded records.
use quantum_entropy_service.Common.{
  GoError, pos, ℕ, zero, suc, ◌≤◌, ◌≡◌, refl, sym, ap, subst, ◌∙◌, Bool, true, false, inl, inr,
  List, [], ◌∷◌, ◌++◌, map, append-nil, append_assoc, length, take, concat, filter, String,
  if◌then◌else◌, leb, ltb, Result, ok, err, arith, Bool-cases,
}
use quantum_entropy_service.Keymanager.Model.{Bytes, QuantumData}
use quantum_entropy_service.Keymanager.Stores.{EntropyStore, IsEntropyStore, Reads, is_unused_of}
use quantum_entropy_service.Audit.Samples.{
  Ran, returned, Sources, no_data, gather, cut, on_found, get_quantum_sample,
}

take-prefix : (n : ℕ) (xs ys : Bytes) → n ≤ length xs → take n (xs ++ ys) ≡ take n xs
take-prefix zero xs ys h = refl
take-prefix (suc n) [] ys h = ground arith
take-prefix (suc n) (x ∷ xs) ys h = ap (λ l. x ∷ l) (take-prefix n xs ys (omega (arith, h)))

take-all : (n : ℕ) (xs : Bytes) → length xs ≤ n → take n xs ≡ xs
take-all zero [] h = refl
take-all zero (x ∷ xs) h = ground arith
take-all (suc n) [] h = refl
take-all (suc n) (x ∷ xs) h = ap (λ l. x ∷ l) (take-all n xs (omega (arith, h)))

module _ {R : Type 0} (src : Sources R) where
  -- All the bytes of the records.
  abbrev pub bytes_of : List QuantumData → Bytes
  bytes_of qs = concat (map (λ q. src.decode q.data_base64) qs)

  take-gather :
      (n : ℕ) (sample : Bytes) (qs : List QuantumData)
      → take n (gather src (pos n) sample qs) ≡ take n (sample ++ bytes_of qs)
  unfolding gather
  take-gather n sample [] = ap (take n) (sym (append-nil sample))
  take-gather n sample (q ∷ qs) =
      go (leb n (length longer)) refl (take-gather n longer qs)
      ∙ ap (take n) (append_assoc sample (src.decode q.data_base64) (bytes_of qs))
    where
      longer : Bytes
      longer = sample ++ src.decode q.data_base64

      go :
          (b : Bool)
          → leb n (length longer) ≡ b
          → take n (gather src (pos n) longer qs) ≡ take n (longer ++ bytes_of qs)
          → take n (if b then longer else gather src (pos n) longer qs)
            ≡ take n (longer ++ bytes_of qs)
      go true e h = sym (take-prefix n longer (bytes_of qs) (ground (arith, e)))
      go false e h = h

  cut-take : (n : ℕ) (sample : Bytes) → cut src (pos n) sample ≡ returned (ok (take n sample))
  unfolding cut
  cut-take n sample = elim (Bool-cases (ltb n (length sample))) [
    | inl e ↦ rw (e)
    | inr e ↦ rw (e) (ap (λ l. returned (ok l)) (sym (take-all n sample (ground (arith, e)))))
  ]

  -- What getQuantumSample comes to on the records of the source that are there, by what the store
  -- found.
  pub data Sampled (source : String) (n : ℕ) (qs : List QuantumData)
      (found : Result (List QuantumData)) : Ran (Result Bytes) → Type 0 where
    failed :
        (e : GoError) → found ≡ err e → Sampled source n qs found (returned (err (no_data source)))
    none_left : qs ≡ [] → Sampled source n qs found (returned (err (no_data source)))
    sampled :
        (q : QuantumData) (rest : List QuantumData)
        → qs ≡ q ∷ rest
        → found ≡ ok qs
        → Sampled source n qs found (returned (ok (take n (bytes_of qs))))

  found-Sampled :
      (source : String) (n : ℕ) (q : QuantumData) (rest : List QuantumData)
      → Sampled source n
          (q ∷ rest)
          (ok (q ∷ rest))
          (cut src (pos n) (gather src (pos n) [] (q ∷ rest)))
  found-Sampled source n q rest =
      let all = gather src (pos n) [] (q ∷ rest) in
      subst (Sampled source n (q ∷ rest) (ok (q ∷ rest)))
        (sym (cut-take n all ∙ ap (λ l. returned (ok l)) (take-gather n [] (q ∷ rest))))
        (sampled q rest refl refl)

  on_found-Sampled :
      (source : String) (n : ℕ) (qs before after : List QuantumData) (r : Result (List QuantumData))
      → Reads qs before r after
      → Sampled source n qs r (on_found src source (pos n) r)
  on_found-Sampled source n qs before after (err e) h = failed e refl
  on_found-Sampled source n qs before after (ok []) h = none_left (sym h.0)
  on_found-Sampled source n qs before after (ok (q ∷ rest)) h =
      subst
        (λ l.
          Sampled source n l (ok (q ∷ rest)) (cut src (pos n) (gather src (pos n) [] (q ∷ rest))))
        h.0 (found-Sampled source n q rest)

  -- Of a store with its laws, for a size that is not negative: getQuantumSample says that there is no
  -- data if the source has no unused record or the query fails, and else returns the first `n` bytes
  -- of all that the unused records of the source decode to; it never panics.
  pub get_quantum_sample-Sampled :
      {D : Type 0} (store : EntropyStore D) (pool : D → List QuantumData)
      → IsEntropyStore store pool
      → (source : String) (n : ℕ) (d : D)
      → Sampled source n
          (filter (is_unused_of source) (pool d))
          (store.find_all_unused_by_source source d).0
          (get_quantum_sample src store source (pos n) d).0
  unfolding get_quantum_sample
  get_quantum_sample-Sampled store pool laws source n d =
      let (r, d') = store.find_all_unused_by_source source d in
      on_found-Sampled source n (filter (is_unused_of source) (pool d)) (pool d) (pool d') r
        (laws.finds source d)
