-- ===== src/Ct/Total.antt =====
-- The readers of ct/serialization.go that the processing of an entry calls never panic.
use certspotter.Prelude.{
  ℕ, zero, suc, ◌≡◌, List, [], ◌∷◌, ◌++◌, Bytes, Result, ok, err, panic, >>=-eq-ok, Returns,
  >>=-Returns, if-Returns, ◌==◌, ltb, if◌then◌else◌, Option, none, some,
}
use certspotter.Ct.Types.{CtError, TimestampedEntry}
use certspotter.Ct.Read.{
  split_bytes, read_full, none_left, read_big_endian, read_uint_loop, read_uint, short,
  read_var_bytes, is_eof, read_list_loop, read_asn1_cert_list, read_entry_body,
  read_timestamped_entry_into, read_merkle_tree_leaf, unmarshal_x509_chain_array,
  unmarshal_precert_chain_array,
}

read_full-Returns : (n : ℕ) (r : Bytes) → Returns (read_full n r)
unfolding read_full
read_full-Returns n r =
    elim (split_bytes n r) as (λ o. Returns (elim o [ none ↦ err (none_left r) | some p ↦ ok p ])) [
      | none ↦ tt
      | some p ↦ tt
    ]

read_big_endian-Returns : (n : ℕ) (r : Bytes) → Returns (read_big_endian n r)
unfolding read_big_endian
read_big_endian-Returns n r = >>=-Returns (read_full n r) _ (read_full-Returns n r) (λ p e. tt)

read_uint_loop-Returns : (n l : ℕ) (r : Bytes) → Returns (read_uint_loop n l r)
unfolding read_uint_loop
read_uint_loop-Returns zero l r = tt
read_uint_loop-Returns (suc n) l [] = tt
read_uint_loop-Returns (suc n) l (t ∷ r) = read_uint_loop-Returns n _ r

short-Returns : (o : Option (Bytes × Bytes)) → Returns (short o)
short-Returns none = tt
short-Returns (some p) = tt

pub read_var_bytes-Returns : (r : Bytes) (n : ℕ) → Returns (read_var_bytes r n)
unfolding read_var_bytes read_uint
read_var_bytes-Returns r n = if-Returns (ltb 8 n) _ _ tt (
    if-Returns (n == 0) _ _ tt (
      >>=-Returns (read_uint_loop n 0 r) _ (read_uint_loop-Returns n 0 r)
        (λ (l, rest) e. short-Returns (split_bytes l rest))))

read_list_loop-Returns :
    (fuel : ℕ) (r : Bytes) (n : ℕ) (list : List Bytes) → Returns (read_list_loop fuel r n list)
unfolding read_list_loop
read_list_loop-Returns zero r n list = tt
read_list_loop-Returns (suc fuel) r n list =
    next (λ rest l. read_list_loop-Returns fuel rest n l) (read_var_bytes r n)
      (read_var_bytes-Returns r n)
  where
    next :
        ((rest : Bytes) (l : List Bytes) → Returns (read_list_loop fuel rest n l))
        → (m : Result CtError (Bytes × Bytes)) → Returns m
        → Returns (elim m [
          | ok (entry, rest) ↦ read_list_loop fuel rest n (list ++ (entry ∷ []))
          | err e ↦ if is_eof e then ok list else err e
          | panic ↦ panic
        ])
    next later (ok (entry, rest)) h = later rest _
    next later (err e) h = if-Returns (is_eof e) _ _ tt tt
    next later panic h = h

read_asn1_cert_list-Returns : (r : Bytes) (n m : ℕ) → Returns (read_asn1_cert_list r n m)
unfolding read_asn1_cert_list
read_asn1_cert_list-Returns r n m =
    >>=-Returns (read_var_bytes r n) _ (read_var_bytes-Returns r n) (λ (b, rest) e.
      >>=-Returns (read_list_loop _ b m []) _ (read_list_loop-Returns _ b m []) (λ l e'. tt))

read_entry_body-Returns : (r : Bytes) (t : TimestampedEntry) → Returns (read_entry_body r t)
unfolding read_entry_body
read_entry_body-Returns r t =
    if-Returns (t.entry_type == 0) _ _
      (>>=-Returns (read_var_bytes r 3) _ (read_var_bytes-Returns r 3) (λ p e. tt))
      (if-Returns (t.entry_type == 1) _ _
        (>>=-Returns (read_full 32 r) _ (read_full-Returns 32 r) (λ (hash, rest) e.
          >>=-Returns (read_var_bytes rest 3) _ (read_var_bytes-Returns rest 3) (λ p e'. tt)))
        tt)

read_timestamped_entry_into-Returns :
    (r : Bytes) (t : TimestampedEntry) → Returns (read_timestamped_entry_into r t)
unfolding read_timestamped_entry_into
read_timestamped_entry_into-Returns r t =
    >>=-Returns (read_big_endian 8 r) _ (read_big_endian-Returns 8 r) (λ (time, r1) e.
      >>=-Returns (read_big_endian 2 r1) _ (read_big_endian-Returns 2 r1) (λ (type, r2) e'.
        >>=-Returns (read_entry_body r2 _) _ (read_entry_body-Returns r2 _) (λ p e''. tt)))

pub read_merkle_tree_leaf-Returns : (r : Bytes) → Returns (read_merkle_tree_leaf r)
unfolding read_merkle_tree_leaf
read_merkle_tree_leaf-Returns r =
    >>=-Returns (read_big_endian 1 r) _ (read_big_endian-Returns 1 r) (λ (version, r1) e.
      if-Returns (version == 0) _ _
        (>>=-Returns (read_big_endian 1 r1) _ (read_big_endian-Returns 1 r1) (λ (type, r2) e'.
          if-Returns (type == 0) _ _
            (>>=-Returns (read_timestamped_entry_into r2 _) _
              (read_timestamped_entry_into-Returns r2 _) (λ p e''. tt))
            tt))
        tt)

pub unmarshal_x509_chain_array-Returns : (b : Bytes) → Returns (unmarshal_x509_chain_array b)
unfolding unmarshal_x509_chain_array
unmarshal_x509_chain_array-Returns b =
    >>=-Returns (read_asn1_cert_list b 3 3) _ (read_asn1_cert_list-Returns b 3 3) (λ p e. tt)

pub unmarshal_precert_chain_array-Returns : (b : Bytes) → Returns (unmarshal_precert_chain_array b)
unfolding unmarshal_precert_chain_array
unmarshal_precert_chain_array-Returns b =
    >>=-Returns (read_var_bytes b 3) _ (read_var_bytes-Returns b 3) (λ (precert, rest) e.
      >>=-Returns (read_asn1_cert_list rest 3 3) _ (read_asn1_cert_list-Returns rest 3 3)
        (λ p e'. tt))

-- The chain of a precertificate begins with the precertificate.
pub unmarshal_precert_chain_array-eq_ok :
    (b : Bytes) (chain : List Bytes)
    → unmarshal_precert_chain_array b ≡ ok chain
    → (precert : Bytes) × (others : List Bytes) × (chain ≡ precert ∷ others)
unfolding unmarshal_precert_chain_array
unmarshal_precert_chain_array-eq_ok b chain h =
    let ((precert, rest), _, h1) = >>=-eq-ok (read_var_bytes b 3) _ h in
    let ((others, rest'), _, h2) = >>=-eq-ok (read_asn1_cert_list rest 3 3) _ h1 in
    (precert, others, cc)
