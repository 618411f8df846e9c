-- ===== src/X509/Ends.antt =====
-- The loop over the items of a subjectAltName extension ends: its fuel is never used up.
use certspotter.Prelude.{
  ℕ, zero, suc, ◌≤◌, ◌≡◌, ◌≢◌, refl, Bool, not, ◌||◌, List, [], ◌∷◌, ◌++◌, Bytes, Result, ok, err,
  panic, ◌>>=◌, ◌==◌, if◌then◌else◌, true, false, length, Option, none, some, arith,
}
use certspotter.Names.Text.{Library}
use certspotter.X509.Types.{
  RawValue, Extension, TbsCertificate, SubjectAltName, Asn1, Consumes, X509Error, malformed,
  out_of_fuel,
}
use certspotter.X509.Parse.{
  sans_sequence, san_of, sans_loop, parse_san_extension, sans_of_extensions,
  parse_subject_alt_names,
}

>>=-ends {ℓ κ} :
    {A : Type ℓ} {B : Type κ} (m : Result X509Error A) (next : A → Result X509Error B)
    → m ≢ err out_of_fuel
    → ((a : A) → next a ≢ err out_of_fuel)
    → (m >>= next) ≢ err out_of_fuel
>>=-ends (ok a) next m n = n a
>>=-ends (err e) next m n = λ h. m (cc h)
>>=-ends panic next m n = λ h. cc

if-ends {ℓ} :
    {A : Type ℓ} (b : Bool) (m n : Result X509Error A)
    → m ≢ err out_of_fuel
    → n ≢ err out_of_fuel
    → (if b then m else n) ≢ err out_of_fuel
if-ends true m n p q = p
if-ends false m n p q = q

sans_sequence-ends : (o : Option (RawValue × Bytes)) → sans_sequence o ≢ err out_of_fuel
sans_sequence-ends none = λ h. cc
sans_sequence-ends (some (seq, [])) = λ h. cc
sans_sequence-ends (some (seq, b ∷ [])) = if-ends (b == 0) _ _ (λ h. cc) (λ h. cc)
sans_sequence-ends (some (seq, b ∷ c ∷ rest)) = λ h. cc

module _ (lib : Library) (asn1 : Asn1) (consumes : Consumes asn1) where
  sans_loop-ends :
      (fuel : ℕ) (sans : List SubjectAltName) (b : Bytes)
      → length b ≤ fuel
      → sans_loop lib asn1 fuel sans b ≢ err out_of_fuel
  unfolding sans_loop
  sans_loop-ends fuel sans [] enough = λ h. cc
  sans_loop-ends zero sans (b ∷ bs) enough = absurd (omega arith)
  sans_loop-ends (suc fuel) sans (b ∷ bs) enough =
      next (λ more rest h. sans_loop-ends fuel more rest h) (asn1.raw_value (b ∷ bs)) refl
    where
      next :
          ((more : List SubjectAltName) (rest : Bytes)
            → length rest ≤ fuel
            → sans_loop lib asn1 fuel more rest ≢ err out_of_fuel)
          → (o : Option (RawValue × Bytes)) → asn1.raw_value (b ∷ bs) ≡ o
          → (elim o [
            | none ↦ err malformed
            | some item ↦ sans_loop lib asn1 fuel (sans ++ (san_of lib asn1 item.0 ∷ [])) item.1
          ])
            ≢ err out_of_fuel
      next later none e = λ h. cc
      next later (some (value, rest)) e =
          let shorter = consumes (b ∷ bs) value rest e in later _ rest (omega arith)

  parse_san_extension-ends :
      (sans : List SubjectAltName) (b : Bytes)
      → parse_san_extension lib asn1 sans b ≢ err out_of_fuel
  unfolding parse_san_extension
  parse_san_extension-ends sans b =
      >>=-ends (sans_sequence (asn1.raw_value b)) _ (sans_sequence-ends (asn1.raw_value b)) (λ seq.
        if-ends (not seq.is_compound || not (seq.tag == 16) || not (seq.class == 0)) _ _ (λ h. cc)
          (sans_loop-ends (length seq.bytes) sans seq.bytes (omega arith)))

  sans_of_extensions-ends :
      (sans : List SubjectAltName) (exts : List Extension)
      → sans_of_extensions lib asn1 sans exts ≢ err out_of_fuel
  unfolding sans_of_extensions
  sans_of_extensions-ends sans [] = λ h. cc
  sans_of_extensions-ends sans (ext ∷ exts) =
      >>=-ends (parse_san_extension lib asn1 sans ext.value) _
        (parse_san_extension-ends sans ext.value) (λ more. sans_of_extensions-ends more exts)

  -- When a value that `asn1.Unmarshal` reads takes at least one byte, the reading of the names of a
  -- certificate ends: as many rounds as there are bytes are enough, for any certificate.
  pub parse_subject_alt_names_ends :
      (tbs : TbsCertificate) → parse_subject_alt_names lib asn1 tbs ≢ err out_of_fuel
  unfolding parse_subject_alt_names
  parse_subject_alt_names_ends tbs = sans_of_extensions-ends [] _
