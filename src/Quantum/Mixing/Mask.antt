-- ===== src/Quantum/Mixing/Mask.antt =====
-- The keystream has the length asked for, and mixing can be undone with it.
use quantum_entropy_service.Common.{
  wrapped, continue, rewrap, pure, ℕ, zero, suc, ◌+◌, ◌-◌, ◌≤◌, ◌<◌, ◌≡◌, refl, ap, ap₂, ltb, Bool,
  true, false, [], ◌∷◌, ◌++◌, length, length-append, take, length-take, All, if◌then◌else◌, Result,
  ok, err, arith,
}
use quantum_entropy_service.Common.Bits.{xor-cancels}
use quantum_entropy_service.Keymanager.Model.{Bytes}
use quantum_entropy_service.Quantum.Mixing.{
  Entropy, xor_bytes, counter_bytes, round_block, keystream_from, generate_keystream, mask,
  mix_with_system_entropy, generate_system_entropy,
}

xor_bytes-cancels :
    (bytes keystream : Bytes)
    → All (λ b. b < 256) bytes
    → length bytes ≤ length keystream
    → xor_bytes (xor_bytes bytes keystream) keystream ≡ bytes
unfolding xor_bytes
xor_bytes-cancels [] keystream h l = refl
xor_bytes-cancels (b ∷ bytes) [] h l = ground arith
xor_bytes-cancels (b ∷ bytes) (k ∷ keystream) h l =
    ap₂ (λ x xs. x ∷ xs) (xor-cancels 8 b k h.0)
      (xor_bytes-cancels bytes keystream h.1 (omega (arith, l)))

length-xor_bytes :
    (bytes keystream : Bytes)
    → length bytes ≤ length keystream
    → length (xor_bytes bytes keystream) ≡ length bytes
unfolding xor_bytes
length-xor_bytes [] keystream l = refl
length-xor_bytes (b ∷ bytes) [] l = ground arith
length-xor_bytes (b ∷ bytes) (k ∷ keystream) l =
    ap suc (length-xor_bytes bytes keystream (omega (arith, l)))

-- SHA-256 gives a block that is not empty (it has 32 bytes).
pub record IsEntropy {R : Type 0} (ent : Entropy R) : Type 0 where
  pub block : (bytes : Bytes) → 0 < length (ent.sum256 bytes)

module _ {R : Type 0} (ent : Entropy R) (laws : IsEntropy ent) where
  length-round :
      (key : Bytes) (wanted counter : ℕ) (keystream : Bytes)
      → length keystream < wanted
      → (length keystream < length (keystream ++ round_block ent key wanted counter keystream))
        × (length (keystream ++ round_block ent key wanted counter keystream) ≤ wanted)
  length-round key wanted counter keystream h =
      let block = ent.sum256 (key ++ counter_bytes counter) in
      grown (ltb (wanted - length keystream) (length block)) block refl
        (laws.block (key ++ counter_bytes counter))
    where
      grown :
          (b : Bool) (block : Bytes)
          → ltb (wanted - length keystream) (length block) ≡ b
          → 0 < length block
          → let round = if b then take (wanted - length keystream) block else block in
            (length keystream < length (keystream ++ round))
            × (length (keystream ++ round) ≤ wanted)
      grown true block e p =
          let cut = take (wanted - length keystream) block in
          (
            ground (
              arith,
              length-append keystream cut,
              length-take (wanted - length keystream) block,
              e,
              p,
              h,
            ),
            ground (
              arith,
              length-append keystream cut,
              length-take (wanted - length keystream) block,
              e,
              p,
              h,
            ),
          )
      grown false block e p = (
        ground (arith, length-append keystream block, e, p, h),
        ground (arith, length-append keystream block, e, p, h),
      )

  length-keystream_from :
      (fuel : ℕ) (key : Bytes) (wanted counter : ℕ) (keystream : Bytes)
      → wanted ≤ fuel + length keystream
      → length keystream ≤ wanted
      → length (keystream_from ent fuel key wanted counter keystream) ≡ wanted
  unfolding keystream_from
  length-keystream_from zero key wanted counter keystream h l = omega arith
  length-keystream_from (suc fuel) key wanted counter keystream h l =
      go (ltb (length keystream) wanted) refl (λ k.
        let grown = length-round key wanted counter keystream k in
        length-keystream_from fuel key wanted (suc counter)
          (keystream ++ round_block ent key wanted counter keystream) (omega (arith, h, grown.0))
          grown.1)
    where
      go :
          (b : Bool)
          → ltb (length keystream) wanted ≡ b
          → (length keystream < wanted
              → length (
                  keystream_from ent fuel key wanted
                    (suc counter)
                    (keystream ++ round_block ent key wanted counter keystream))
                ≡ wanted)
          → length (
              if b
              then keystream_from ent fuel key wanted
                  (suc counter)
                  (keystream ++ round_block ent key wanted counter keystream)
              else keystream)
            ≡ wanted
      go true e k = k (ground (arith, e))
      go false e k = ground (arith, e, l)

  -- The keystream has exactly the length asked for: the fuel is enough, and the last block is cut.
  pub length-generate_keystream :
      (key : Bytes) (wanted : ℕ) → length (generate_keystream ent key wanted) ≡ wanted
  unfolding generate_keystream
  length-generate_keystream key wanted =
      length-keystream_from wanted key wanted 0 [] (omega arith) (omega arith)

  -- The keystream of the hash of both inputs, as long as the quantum bytes.
  abbrev stream : Bytes → Bytes → Bytes
  stream bytes system = generate_keystream ent (ent.sum256 (bytes ++ system)) (length bytes)

  -- What a mixing comes to, by what the system gave: its error, or bytes that give the quantum bytes
  -- back under the keystream.
  abbrev pub Mixed : Bytes → (read mixed : Result Bytes) → Type 0
  Mixed bytes (err e) r = r ≡ err (wrapped "failed to generate system entropy" e)
  Mixed bytes (ok system) r =
      (mixed : Bytes) × (r ≡ ok mixed)
      × (length mixed ≡ length bytes)
      × (mixed ≡ xor_bytes bytes (stream bytes system))
      × (xor_bytes mixed (stream bytes system) ≡ bytes)

  -- Mixing bytes fails, with the error, if the system gives no 32 bytes of entropy; else it gives as
  -- many bytes, which are the given ones under a keystream made from the hash of them and of what the
  -- system gave; under the same keystream they give the bytes back. The system is asked once.
  pub mix_with_system_entropy-Mixed :
      (bytes : Bytes) (r : R)
      → All (λ b. b < 256) bytes
      → let (read, r') = ent.rand_read 32 r in
        let (mixed, r'') = mix_with_system_entropy ent bytes r in
        Mixed bytes read mixed × (r'' ≡ r')
  unfolding mix_with_system_entropy generate_system_entropy
  mix_with_system_entropy-Mixed bytes r h = go (ent.rand_read 32 r).0
    where
      go :
          (x : Result Bytes)
          → let (mixed, r'') =
              continue
                (rewrap "failed to generate system entropy" x)
                (λ system. pure (xor_bytes bytes (mask ent bytes system)))
                (ent.rand_read 32 r).1 in
            Mixed bytes x mixed × (r'' ≡ (ent.rand_read 32 r).1)
      go (err e) = (refl, refl)
      go (ok system) =
          let enough = length-generate_keystream (ent.sum256 (bytes ++ system)) (length bytes) in
          (
            (
              xor_bytes bytes (stream bytes system),
              refl,
              length-xor_bytes bytes (stream bytes system) (omega (arith, enough)),
              refl,
              xor_bytes-cancels bytes (stream bytes system) h (omega (arith, enough)),
            ),
            refl,
          )
