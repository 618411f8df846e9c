-- ===== src/Ct/Signatures.antt =====
-- ct/signatures.go and sct.go. The hash, the verification of RSA and ECDSA signatures and the DER
-- decoder of an ECDSA signature are parameters, as a record.
use certspotter.Prelude.{
  pos, ℕ, ◌^◌, ◌<◌, ◌≡◌, refl, Bool, true, [], ◌∷◌, Bytes, Result, ok, err, ◌>>=◌, >>=-eq-ok, ◌==◌,
  if◌then◌else◌, Option, none, some, arith, append-nil,
}
use certspotter.Ct.Types.{
  CtError, DigitallySigned, SignedCertificateTimestamp, SignedTreeHead, LogEntry, TimestampedEntry,
  PreCert, sha256_algorithm, rsa_algorithm, ecdsa_algorithm, unsupported_hash_algorithm,
  unsupported_signature_type, wrong_key_type, unmarshal_signature, garbage_after_signature,
  failed_to_verify, unsupported_public_key, timestamped_entry_leaf_type, x509_log_entry_type,
  precert_log_entry_type,
}
use certspotter.Ct.Write.{
  serialize_sct_signature_input, serialize_sth_signature_input, serialize_v1_sct_signature_input,
  serialize_v1_cert_sct_signature_input,
}
use certspotter.Ct.Read.{read_merkle_tree_leaf, zero_entry}
use certspotter.Ct.Leaf.{x509_timestamped, leaf_of, read_merkle_tree_leaf-cert_input}

-- The parts of Go's crypto packages that the verifier calls.
pub record Crypto : Type 1 where
  pub RsaKey : Type 0
  pub EcdsaKey : Type 0
  pub sha256 : Bytes → Bytes
  pub rsa_verify : RsaKey → Bytes → Bytes → Bool
  -- `asn1.Unmarshal` of the pair (R, S): the pair and the bytes behind it
  pub unmarshal_ecdsa : Bytes → Option ((ℕ × ℕ) × Bytes)
  pub ecdsa_verify : EcdsaKey → Bytes → ℕ × ℕ → Bool

module _ (crypto : Crypto) where
  open crypto use {RsaKey, EcdsaKey, sha256, rsa_verify, unmarshal_ecdsa, ecdsa_verify}

  pub data PublicKey : Type 0 where
    rsa : RsaKey → PublicKey
    ecdsa : EcdsaKey → PublicKey
    other : PublicKey

  pub record SignatureVerifier : Type 0 where
    pub pub_key : PublicKey

  unfoldable pub new_signature_verifier : PublicKey → Result CtError SignatureVerifier
  new_signature_verifier (rsa key) = ok (record { pub_key = rsa key })
  new_signature_verifier (ecdsa key) = ok (record { pub_key = ecdsa key })
  new_signature_verifier other = err unsupported_public_key

  unfoldable pub verify_rsa : PublicKey → Bytes → Bytes → Result CtError (Unit {0})
  verify_rsa (rsa key) hash signature =
      if rsa_verify key hash signature then ok tt else err failed_to_verify
  verify_rsa (ecdsa key) hash signature = err wrong_key_type
  verify_rsa other hash signature = err wrong_key_type

  abbrev pub decoded : EcdsaKey → Bytes → Option ((ℕ × ℕ) × Bytes) → Result CtError (Unit {0})
  decoded key hash none = err unmarshal_signature
  decoded key hash (some (sig, b ∷ rest)) = err garbage_after_signature
  decoded key hash (some (sig, [])) =
      if ecdsa_verify key hash sig then ok tt else err failed_to_verify

  unfoldable pub verify_ecdsa : PublicKey → Bytes → Bytes → Result CtError (Unit {0})
  verify_ecdsa (ecdsa key) hash signature = decoded key hash (unmarshal_ecdsa signature)
  verify_ecdsa (rsa key) hash signature = err wrong_key_type
  verify_ecdsa other hash signature = err wrong_key_type

  unfoldable pub verify_signature :
      SignatureVerifier → Bytes → DigitallySigned → Result CtError (Unit {0})
  verify_signature s signed sig =
      if sig.hash_algorithm == sha256_algorithm
      then (if sig.signature_algorithm == rsa_algorithm
          then verify_rsa s.pub_key (sha256 signed) sig.signature
          else if sig.signature_algorithm == ecdsa_algorithm
          then verify_ecdsa s.pub_key (sha256 signed) sig.signature
          else err unsupported_signature_type)
      else err unsupported_hash_algorithm

  unfoldable pub verify_sct_signature :
      SignatureVerifier → SignedCertificateTimestamp → LogEntry → Result CtError (Unit {0})
  verify_sct_signature s sct entry = serialize_sct_signature_input sct entry >>= λ sct_data.
      verify_signature s sct_data sct.signature

  unfoldable pub verify_sth_signature :
      SignatureVerifier → SignedTreeHead → Result CtError (Unit {0})
  verify_sth_signature s sth = serialize_sth_signature_input sth >>= λ sth_data.
      verify_signature s sth_data sth.tree_head_signature

  abbrev entry_of : TimestampedEntry → LogEntry
  entry_of t = record {
    index = pos 0;
    leaf = record { version = 0; leaf_type = timestamped_entry_leaf_type; timestamped_entry = t };
    chain = [];
    leaf_bytes = [];
  }

  unfoldable pub verify_x509_sct :
      SignedCertificateTimestamp → Bytes → SignatureVerifier → Result CtError (Unit {0})
  verify_x509_sct sct cert verify = verify_sct_signature verify sct (
      entry_of (record zero_entry {
        timestamp = sct.timestamp;
        entry_type = x509_log_entry_type;
        x509_entry = cert;
        extensions = sct.extensions;
      }))

  unfoldable pub verify_precert_sct :
      SignedCertificateTimestamp → PreCert → SignatureVerifier → Result CtError (Unit {0})
  verify_precert_sct sct precert verify = verify_sct_signature verify sct (
      entry_of (record zero_entry {
        timestamp = sct.timestamp;
        entry_type = precert_log_entry_type;
        precert_entry = precert;
        extensions = sct.extensions;
      }))

  -- The cryptographic verification that a key and an algorithm number call for.
  abbrev pub Verifies : PublicKey → ℕ → Bytes → Bytes → Type 0
  Verifies (rsa key) algorithm hash signature =
      (algorithm ≡ rsa_algorithm) × (rsa_verify key hash signature ≡ true)
  Verifies (ecdsa key) algorithm hash signature =
      (algorithm ≡ ecdsa_algorithm)
      × ((sig : ℕ × ℕ) × (unmarshal_ecdsa signature ≡ some (sig, []))
          × (ecdsa_verify key hash sig ≡ true))
  Verifies other algorithm hash signature = ⊥

  decoded-eq_ok :
      (key : EcdsaKey) (hash : Bytes) (o : Option ((ℕ × ℕ) × Bytes))
      → decoded key hash o ≡ ok tt
      → (sig : ℕ × ℕ) × (o ≡ some (sig, [])) × (ecdsa_verify key hash sig ≡ true)
  decoded-eq_ok key hash none h = cc
  decoded-eq_ok key hash (some (sig, b ∷ rest)) h = cc
  decoded-eq_ok key hash (some (sig, [])) h = (sig, refl, ground arith)

  verify_signature_sound_key :
      (key : PublicKey) (signed : Bytes) (sig : DigitallySigned)
      → verify_signature (record { pub_key = key }) signed sig ≡ ok tt
      → (sig.hash_algorithm ≡ sha256_algorithm)
        × Verifies key sig.signature_algorithm (sha256 signed) sig.signature
  unfolding verify_signature verify_rsa verify_ecdsa
  verify_signature_sound_key (rsa key) signed sig h = ground arith
  verify_signature_sound_key (ecdsa key) signed sig h =
      ground (arith, decoded-eq_ok key (sha256 signed) (unmarshal_ecdsa sig.signature))
  verify_signature_sound_key other signed sig h = ground arith

  x509_input :
      (sct : SignedCertificateTimestamp) (cert signed : Bytes)
      → serialize_sct_signature_input sct (
          entry_of (record zero_entry {
            timestamp = sct.timestamp;
            entry_type = x509_log_entry_type;
            x509_entry = cert;
            extensions = sct.extensions;
          }))
        ≡ ok signed
      → serialize_v1_cert_sct_signature_input sct.timestamp cert sct.extensions ≡ ok signed
  unfolding serialize_sct_signature_input serialize_v1_sct_signature_input
  x509_input sct cert signed h = ground arith

  -- When `verify_x509_sct` accepts, the key has verified the SCT's signature, with SHA-256 and the
  -- algorithm of the key, over bytes that read as the leaf of exactly this certificate with the
  -- SCT's timestamp and extensions.
  pub verify_x509_sct_sound :
      (sct : SignedCertificateTimestamp) (cert : Bytes) (verify : SignatureVerifier)
      → sct.timestamp < 2 ^ 64
      → verify_x509_sct sct cert verify ≡ ok tt
      → (signed : Bytes) × (sct.signature.hash_algorithm ≡ sha256_algorithm)
        × Verifies verify.pub_key sct.signature.signature_algorithm
            (sha256 signed)
            sct.signature.signature
        × (read_merkle_tree_leaf signed
            ≡ ok (leaf_of (x509_timestamped sct.timestamp cert sct.extensions), []))
  unfolding verify_x509_sct verify_sct_signature
  verify_x509_sct_sound sct cert verify time h =
      let (signed, w, v) = >>=-eq-ok (serialize_sct_signature_input sct _) _ h in
      let (algorithm, verified) =
        verify_signature_sound_key verify.pub_key signed sct.signature v in
      (
        signed,
        algorithm,
        verified,
        rw append-nil at (
            read_merkle_tree_leaf-cert_input sct.timestamp cert sct.extensions signed [] time
              (x509_input sct cert signed w)),
      )
