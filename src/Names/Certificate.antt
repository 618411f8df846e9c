-- ===== src/Names/Certificate.antt =====
-- `ParseIdentifiers` of identifiers.go, on what x509.go has parsed of a certificate.
use certspotter.Prelude.{
  ◌≡◌, Bool, ◌||◌, true, false, List, [], ◌∷◌, Bytes, Result, ok, err, ◌>>=◌, ◌>>◌, >>=-eq-ok, ◌==◌,
  if◌then◌else◌, length, Option, none, some, subst,
}
use certspotter.Names.Text.{Library}
use certspotter.Names.Identifiers.{
  Identifiers, new_identifiers, add_cn, add_dns_san, add_ip_address,
}
use certspotter.Names.Sane.{IsClean, IsClean-new, add_cn-IsClean, add_dns_san-IsClean, Clean-ip}
use certspotter.X509.Types.{SubjectAltName, san_dns_name, san_ip_address, Asn1, X509Error}
use certspotter.X509.Parse.{parse_cns}
use certspotter.X509.Info.{CertInfo}

abbrev pub no_error : Option X509Error → Result X509Error (Unit {0})
no_error none = ok tt
no_error (some e) = err e

module _ (lib : Library) where
  unfoldable pub add_cns : Identifiers → List Bytes → Identifiers
  add_cns ids [] = ids
  add_cns ids (cn ∷ cns) = add_cns (add_cn lib ids cn) cns

  -- One round of the loop over the names; an IP address of a wrong length is left out.
  unfoldable pub add_san : Identifiers → SubjectAltName → Identifiers
  add_san ids san =
      if san.san_type == san_dns_name
      then add_dns_san lib ids san.value
      else if san.san_type == san_ip_address
      then (if (length san.value == 4) || (length san.value == 16)
          then add_ip_address lib ids san.value
          else ids)
      else ids

  unfoldable pub add_sans : Identifiers → List SubjectAltName → Identifiers
  add_sans ids [] = ids
  add_sans ids (san ∷ sans) = add_sans (add_san ids san) sans

  unfoldable pub parse_identifiers :
      (asn1 : Asn1) → CertInfo lib asn1 → Result X509Error Identifiers
  parse_identifiers asn1 cert = do
    no_error cert.subject_parse_error
    cns ← parse_cns lib asn1 cert.subject
    no_error cert.sans_parse_error
    ok (add_sans (add_cns new_identifiers cns) cert.sans)

  add_cns-IsClean : (ids : Identifiers) (cns : List Bytes) → IsClean ids → IsClean (add_cns ids cns)
  unfolding add_cns
  add_cns-IsClean ids [] c = c
  add_cns-IsClean ids (cn ∷ cns) c =
      add_cns-IsClean (add_cn lib ids cn) cns (add_cn-IsClean lib ids cn c)

  pub if_holds {ℓ κ} :
      {A : Type ℓ} (P : A → Type κ) (b : Bool) {x y : A} → P x → P y → P (if b then x else y)
  if_holds P true p q = p
  if_holds P false p q = q

  add_san-IsClean :
      (ids : Identifiers) (san : SubjectAltName) → IsClean ids → IsClean (add_san ids san)
  unfolding add_san add_ip_address
  add_san-IsClean ids san c =
      if_holds IsClean (san.san_type == san_dns_name) (add_dns_san-IsClean lib ids san.value c) (
        if_holds IsClean (san.san_type == san_ip_address)
          (if_holds IsClean ((length san.value == 4) || (length san.value == 16))
            (Clean-ip lib ids san.value c) c)
          c)

  add_sans-IsClean :
      (ids : Identifiers) (sans : List SubjectAltName) → IsClean ids → IsClean (add_sans ids sans)
  unfolding add_sans
  add_sans-IsClean ids [] c = c
  add_sans-IsClean ids (san ∷ sans) c =
      add_sans-IsClean (add_san ids san) sans (add_san-IsClean ids san c)

  -- Whatever a certificate names, the identifiers that are parsed from it are clean: each DNS name is
  -- made of printable characters and tabs, none is empty, and none is there twice.
  pub parse_identifiers-IsClean :
      (asn1 : Asn1) (cert : CertInfo lib asn1) (ids : Identifiers)
      → parse_identifiers asn1 cert ≡ ok ids
      → IsClean ids
  unfolding parse_identifiers
  parse_identifiers-IsClean asn1 cert ids h =
      let (_, _, h1) = >>=-eq-ok (no_error cert.subject_parse_error) _ h in
      let (cns, _, h2) = >>=-eq-ok (parse_cns lib asn1 cert.subject) _ h1 in
      let (_, _, h3) = >>=-eq-ok (no_error cert.sans_parse_error) _ h2 in
      let e : add_sans (add_cns new_identifiers cns) cert.sans ≡ ids = cc in
      subst IsClean e
        (add_sans-IsClean _ cert.sans (add_cns-IsClean new_identifiers cns (IsClean-new lib)))
