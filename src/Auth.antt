-- ===== src/Auth.antt =====
-- crates/locho-core/src/auth.rs. `digest_hex` stands for the lower-case hex text of SHA-256, which
-- the repository takes from the crates `sha2` and `hex`.
use locho.Base.{
  true, ◌++◌, Bytes, codes, ◌≡◌, ◌↔◌, str_eq, str_eq_iff, Checked, ok, err, is_ok, if◌then◌else◌,
  arith,
}

pub data AuthError : Type 0 where
  invalid_secret_proof : AuthError

module _ (digest_hex : Bytes → Bytes) where
  unfoldable pub secret_proof : Bytes → Bytes
  secret_proof secret = digest_hex (codes "locho-v1:" ++ secret)

  -- `ct_eq` on slices is false at different lengths.
  unfoldable pub verify_secret_proof : Bytes → Bytes → Checked AuthError
  verify_secret_proof secret proof =
      if str_eq (secret_proof secret) proof then ok tt else err invalid_secret_proof

  -- Only the proof that is computed from the stored secret is accepted.
  pub verify_secret_proof_iff :
      (secret proof : Bytes)
      → (verify_secret_proof secret proof ≡ ok tt) ↔ (proof ≡ secret_proof secret)
  unfolding verify_secret_proof
  verify_secret_proof_iff secret proof = (
    λ h. ground (arith, str_eq_iff (secret_proof secret) proof),
    λ e. ground (arith, str_eq_iff (secret_proof secret) proof),
  )

  pub is_ok-verify_secret_proof :
      (secret proof : Bytes)
      → is_ok (verify_secret_proof secret proof) ≡ true
      → proof ≡ secret_proof secret
  unfolding verify_secret_proof
  is_ok-verify_secret_proof secret proof h = ground (arith, str_eq_iff (secret_proof secret) proof)

  pub verify_own_proof :
      (secret proof : Bytes)
      → proof ≡ secret_proof secret
      → verify_secret_proof secret proof ≡ ok tt
  verify_own_proof secret proof e = (verify_secret_proof_iff secret proof).1 e
