-- ===== src/Keymanager/Service/Wrap.antt =====
-- The wrapping of private keys: what `aesGCMEncrypt` seals, `aesGCMDecrypt` opens, whichever of the
-- two calls was the first to derive the master key.
use quantum_entropy_service.Common.{
  ℕ, ◌≡◌, refl, ap, ◌∙◌, subst, String, List, Option, none, some, Result, ok, err, arith, pure,
  wrap_then, ◌>>=◌, lift,
}
use quantum_entropy_service.Keymanager.Model.{Bytes, QuantumData, RsaKey}
use quantum_entropy_service.Keymanager.Crypto.{Crypto, IsCrypto}
use quantum_entropy_service.Keymanager.Service.{World, Service, at_random, once, master_key}
use quantum_entropy_service.Keymanager.Service.Keys.{
  master_gcm, aes_gcm_encrypt, aes_gcm_decrypt, build_quantum_seed, new_key, wrap_key, make_key,
}

module _ {D B C : Type 0} (c : Crypto) (svc : Service D B C) where
  -- The cached key, if there is one, is the hash of the secret.
  abbrev pub Cached : Option Bytes → Type 0
  Cached none = Unit {0}
  Cached (some key) = key ≡ c.sum256 svc.master_secret

  once-Cached :
      (o : Option Bytes) (w : World D B c.Random C)
      → o ≡ w.derived
      → Cached o
      → let (r, w') = once c svc o w in (r ≡ ok (c.sum256 svc.master_secret)) × Cached w'.derived
  once-Cached none w e h = (refl, refl)
  once-Cached (some key) w e h = (ap ok h, subst Cached e h)

  -- `masterKey` returns the hash of the secret at every call, and keeps the cache right.
  pub master_key-Cached :
      (w : World D B c.Random C)
      → Cached w.derived
      → let (r, w') = master_key c svc w in
        (r ≡ ok (c.sum256 svc.master_secret)) × Cached w'.derived
  unfolding master_key
  master_key-Cached w h = once-Cached w.derived w refl h

  abbrev opened : Result c.Block → Result c.Gcm
  opened (ok block) = c.new_gcm block
  opened (err e) = err e

  -- The cipher that both helpers use.
  abbrev pub gcm_of_secret : Result c.Gcm
  gcm_of_secret = opened (c.new_cipher (c.sum256 svc.master_secret))

  pub master_gcm-Cached :
      (w : World D B c.Random C)
      → Cached w.derived
      → let (r, w') = master_gcm c svc w in (r ≡ gcm_of_secret) × Cached w'.derived
  unfolding master_gcm
  master_gcm-Cached w h = ground (arith, master_key-Cached w h)

  abbrev unlocked : Bytes → Bytes → Result c.Gcm → Result Bytes
  unlocked ciphertext nonce (ok g) = c.open_ g nonce ciphertext
  unlocked ciphertext nonce (err e) = err e

  decrypt-eq :
      (ciphertext nonce : Bytes) (w : World D B c.Random C)
      → Cached w.derived
      → (aes_gcm_decrypt c svc ciphertext nonce w).0 ≡ unlocked ciphertext nonce gcm_of_secret
  unfolding aes_gcm_decrypt
  decrypt-eq ciphertext nonce w h = ground (arith, master_gcm-Cached w h)

  -- What an encryption returns was sealed under the cipher of the secret.
  abbrev SealedBy : Bytes → Result c.Gcm → Result (Bytes × Bytes) → Type 0
  SealedBy plaintext (ok g) (ok (ciphertext, nonce)) = ciphertext ≡ c.seal g nonce plaintext
  SealedBy plaintext (err e) (ok (ciphertext, nonce)) = ⊥
  SealedBy plaintext g (err e) = Unit {0}

  pub aes_gcm_encrypt-SealedBy :
      (plaintext : Bytes) (w : World D B c.Random C)
      → Cached w.derived
      → let (r, w') = aes_gcm_encrypt c svc plaintext w in
        SealedBy plaintext gcm_of_secret r × Cached w'.derived
  unfolding aes_gcm_encrypt
  aes_gcm_encrypt-SealedBy plaintext w h = ground (arith, master_key-Cached w h)

  opens :
      (crypto : IsCrypto c) (plaintext ciphertext nonce : Bytes) (g : Result c.Gcm)
      → SealedBy plaintext g (ok (ciphertext, nonce))
      → unlocked ciphertext nonce g ≡ ok plaintext
  opens crypto plaintext ciphertext nonce (ok g) h = rw h (crypto.open-seal g nonce plaintext)
  opens crypto plaintext ciphertext nonce (err e) h = elim h [ ]

  -- What `aesGCMEncrypt` returned, `aesGCMDecrypt` turns back into the plaintext, at any later time
  -- and whether or not the master key was derived before either call.
  pub aes_gcm_decrypt-encrypt :
      (crypto : IsCrypto c) (plaintext ciphertext nonce : Bytes) (w w₁ w₂ : World D B c.Random C)
      → Cached w.derived
      → Cached w₂.derived
      → aes_gcm_encrypt c svc plaintext w ≡ (ok (ciphertext, nonce), w₁)
      → (aes_gcm_decrypt c svc ciphertext nonce w₂).0 ≡ ok plaintext
  aes_gcm_decrypt-encrypt crypto plaintext ciphertext nonce w w₁ w₂ h h₂ e =
      decrypt-eq ciphertext nonce w₂ h₂
      ∙ opens crypto plaintext ciphertext nonce gcm_of_secret (
          subst (λ r. SealedBy plaintext gcm_of_secret r.0) e
            (aes_gcm_encrypt-SealedBy plaintext w h).0)

  -- A key whose wrapped part opens to the private key that its public part belongs to.
  abbrev pub IsSealed : RsaKey → Type 0
  IsSealed k =
      (private : c.PrivateKey) × (public_der : Bytes) × (c.marshal_public private ≡ ok public_der)
      × (k.public_key_pem ≡ c.public_pem public_der)
      × ((w : World D B c.Random C)
          → Cached w.derived
          → (aes_gcm_decrypt c svc k.encrypted_private_pem k.nonce w).0
            ≡ ok (c.private_pem (c.marshal_private private)))

  abbrev pub Seals : Result RsaKey → Type 0
  Seals (ok k) = IsSealed k
  Seals (err e) = Unit {0}

  module _ (crypto : IsCrypto c) where
    wrap_key-Seals :
        (alias : String) (key_size : ℕ) (private : c.PrivateKey) (public_der : Bytes)
        (w : World D B c.Random C)
        → c.marshal_public private ≡ ok public_der
        → Cached w.derived
        → let (r, w') = wrap_key c svc alias key_size private public_der w in
          Seals r × Cached w'.derived
    unfolding wrap_key
    wrap_key-Seals alias key_size private public_der w public h =
        wrap_then (λ r w'. SealedBy pem gcm_of_secret r × Cached w'.derived)
          (λ r w'. Seals r × Cached w'.derived) "key wrapping failed" (aes_gcm_encrypt c svc pem)
          (λ sealed. pure (new_key c svc alias key_size public_der sealed)) w
          (aes_gcm_encrypt-SealedBy pem w h) (λ e e' w' k. (tt, k.1))
          (λ sealed w' k. (
            (
              private,
              public_der,
              public,
              refl,
              λ v cached.
                  decrypt-eq sealed.0 sealed.1 v cached
                  ∙ opens crypto pem sealed.0 sealed.1 gcm_of_secret k.0,
            ),
            k.1,
          ))
      where
        pem : Bytes
        pem = c.private_pem (c.marshal_private private)

    pub make_key-Seals :
        (alias : String) (key_size : ℕ) (records : List QuantumData) (w : World D B c.Random C)
        → Cached w.derived
        → let (r, w') = make_key c svc alias key_size records w in Seals r × Cached w'.derived
    unfolding make_key
    make_key-Seals alias key_size records w h =
        wrap_then (λ r w'. Cached w'.derived) (λ r w'. Seals r × Cached w'.derived)
          "RSA generation failed"
          (at_random c svc (c.generate_key (build_quantum_seed c.decode records) key_size))
          (λ private. do
            public_der ← lift (c.marshal_public private)
            wrap_key c svc alias key_size private public_der)
          w h (λ e e' w' k. (tt, k))
          (λ private w' k. marshalled private (c.marshal_public private) refl w' k)
      where
        marshalled :
            (private : c.PrivateKey) (r : Result Bytes)
            → c.marshal_public private ≡ r
            → (v : World D B c.Random C) → Cached v.derived
            → let (r', v') = (lift r >>= wrap_key c svc alias key_size private) v in
              Seals r' × Cached v'.derived
        marshalled private (ok public_der) e v k =
            wrap_key-Seals alias key_size private public_der v e k
        marshalled private (err x) e v k = (tt, k)
