-- ===== src/Quantum/Mixing.antt =====
-- internal/quantum/mixing.go, and MixWithSystemEntropy of internal/quantum/service.go.
pub mod Mask
use quantum_entropy_service.Common.{
  ℕ, zero, suc, ◌+◌, ◌-◌, ◌*◌, ◌/◌, ◌%◌, ◌^◌, ltb, Bool, List, [], ◌∷◌, ◌++◌, length, take,
  if◌then◌else◌, Action, pure, lift, wrap, ◌>>=◌, ◌>>◌,
}
use quantum_entropy_service.Common.Bits.{xor}
use quantum_entropy_service.Keymanager.Model.{Bytes}

-- crypto/sha256 and crypto/rand
pub record Entropy (R : Type 0) : Type 0 where
  pub sum256 : Bytes → Bytes
  pub rand_read : ℕ → Action R Bytes

unfoldable pub xor_bytes : Bytes → Bytes → Bytes
unfolding xor
xor_bytes [] keystream = []
xor_bytes (q ∷ qs) [] = []
xor_bytes (q ∷ qs) (k ∷ keystream) = xor 8 q k ∷ xor_bytes qs keystream

-- The four bytes of the counter, high byte first.
abbrev pub counter_bytes : ℕ → Bytes
counter_bytes counter =
    counter / 2 ^ 24 % 256 ∷ counter / 2 ^ 16 % 256 ∷ counter / 2 ^ 8 % 256 ∷ counter % 256 ∷ []

module _ {R : Type 0} (ent : Entropy R) where
  -- What one round of the loop appends.
  abbrev pub round_block : Bytes → (wanted counter : ℕ) → Bytes → Bytes
  round_block key wanted counter keystream =
      let block = ent.sum256 (key ++ counter_bytes counter) in
      let remaining = wanted - length keystream in
      if ltb remaining (length block) then take remaining block else block

  unfoldable pub keystream_from : (fuel : ℕ) → Bytes → (wanted counter : ℕ) → Bytes → Bytes
  keystream_from zero key wanted counter keystream = keystream
  keystream_from (suc fuel) key wanted counter keystream =
      let rest =
        keystream_from fuel key wanted (suc counter)
          (keystream ++ round_block key wanted counter keystream) in
      if ltb (length keystream) wanted then rest else keystream

  -- A block has at least a byte, so there are at most `wanted` rounds.
  unfoldable pub generate_keystream : Bytes → ℕ → Bytes
  unfolding keystream_from
  generate_keystream key wanted = keystream_from wanted key wanted 0 []

  unfoldable pub generate_system_entropy : ℕ → Action R Bytes
  generate_system_entropy size = wrap "failed to generate system entropy" (ent.rand_read size)

  abbrev pub mask : Bytes → Bytes → Bytes
  mask quantum_bytes system_entropy =
      generate_keystream (ent.sum256 (quantum_bytes ++ system_entropy)) (length quantum_bytes)

  unfoldable pub mix_with_system_entropy : Bytes → Action R Bytes
  unfolding generate_system_entropy xor_bytes
  mix_with_system_entropy quantum_bytes = do
    system_entropy ← generate_system_entropy 32
    pure (xor_bytes quantum_bytes (mask quantum_bytes system_entropy))
