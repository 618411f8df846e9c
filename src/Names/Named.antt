-- ===== src/Names/Named.antt =====
-- The DNS names in ASCII of a certificate are among its identifiers, whatever else it has.
use certspotter.Prelude.{
  ◌≡◌, sym, ap, ◌∙◌, subst, inl, inr, ◌||◌, true, List, [], ◌∷◌, ◌++◌, All, Bytes, bytes_equal,
  bytes_equal_iff, ok, >>=-eq-ok, ◌==◌, ==_iff, Bool-cases, length,
}
use certspotter.Names.Text.{Library}
use certspotter.Names.Identifiers.{
  Identifiers, new_identifiers, sanitize_dns_name, has_dns_name, add_ip_address,
}
use certspotter.Names.Covers.{Has, IsNamedBy, keeps-ip, add_dns_san-keeps, add_dns_san-covers}
use certspotter.Names.Certificate.{
  no_error, add_cns, add_san, add_sans, parse_identifiers, if_holds,
}
use certspotter.X509.Types.{SubjectAltName, san_dns_name, san_ip_address, Asn1}
use certspotter.X509.Parse.{parse_cns}
use certspotter.X509.Info.{CertInfo}

pub All-Has {κ} :
    (P : Bytes → Type κ) (names : List Bytes) (x : Bytes)
    → All P names
    → has_dns_name names x ≡ true
    → P x
unfolding has_dns_name
All-Has P [] x h has = cc
All-Has P (name ∷ names) x (p, h) has = elim (Bool-cases (bytes_equal name x)) [
  | inl same ↦ subst P ((bytes_equal_iff name x).0 same) p
  | inr differ ↦ All-Has P names x h (rw differ at has)
]

module _ (lib : Library) where
  keeps-san :
      (ids : Identifiers) (san : SubjectAltName) (x : Bytes)
      → Has ids x
      → Has (add_san lib ids san) x
  unfolding add_san add_ip_address
  keeps-san ids san x h =
      if_holds lib (λ ids'. Has ids' x) (san.san_type == san_dns_name)
        (add_dns_san-keeps lib ids san.value x h)
        (if_holds lib (λ ids'. Has ids' x) (san.san_type == san_ip_address)
          (if_holds lib (λ ids'. Has ids' x) ((length san.value == 4) || (length san.value == 16))
            (keeps-ip lib ids san.value x h) h)
          h)

  keeps-sans :
      (ids : Identifiers) (sans : List SubjectAltName) (x : Bytes)
      → Has ids x
      → Has (add_sans lib ids sans) x
  unfolding add_sans
  keeps-sans ids [] x h = h
  keeps-sans ids (san ∷ sans) x h = keeps-sans (add_san lib ids san) sans x (keeps-san ids san x h)

  add_san-Has :
      (ids : Identifiers) (san : SubjectAltName) (v : Bytes)
      → san.san_type ≡ san_dns_name
      → IsNamedBy lib v san.value
      → Has (add_san lib ids san) (sanitize_dns_name lib v)
  unfolding add_san
  add_san-Has ids san v dns (part, ip, ascii, n) =
      rw ((==_iff san.san_type san_dns_name).1 dns)
        (add_dns_san-covers lib ids san.value v part ip ascii n)

  add_sans-Has :
      (ids : Identifiers) (front back : List SubjectAltName) (san : SubjectAltName) (v : Bytes)
      → san.san_type ≡ san_dns_name
      → IsNamedBy lib v san.value
      → Has (add_sans lib ids (front ++ (san ∷ back))) (sanitize_dns_name lib v)
  unfolding add_sans
  add_sans-Has ids [] back san v dns named =
      keeps-sans (add_san lib ids san) back _ (add_san-Has ids san v dns named)
  add_sans-Has ids (other ∷ front) back san v dns named =
      add_sans-Has (add_san lib ids other) front back san v dns named

  -- When a subjectAltName of a certificate is a DNS name, and a text of it, as `IsNamedBy` has
  -- it, is ASCII, no IP address, and not empty when it is sanitized, the sanitized text is among
  -- the identifiers that are parsed from the certificate, wherever in the certificate the name
  -- stands.
  pub parse_identifiers-Has :
      (asn1 : Asn1) (cert : CertInfo lib asn1) (ids : Identifiers)
      (front back : List SubjectAltName) (san : SubjectAltName) (v : Bytes)
      → parse_identifiers lib asn1 cert ≡ ok ids
      → cert.sans ≡ front ++ (san ∷ back)
      → san.san_type ≡ san_dns_name
      → IsNamedBy lib v san.value
      → Has ids (sanitize_dns_name lib v)
  unfolding parse_identifiers
  parse_identifiers-Has asn1 cert ids front back san v h there dns named =
      let (_, _, h1) = >>=-eq-ok (no_error cert.subject_parse_error) _ h in
      let (cns, _, h2) = >>=-eq-ok (parse_cns lib asn1 cert.subject) _ h1 in
      let (_, _, h3) = >>=-eq-ok (no_error cert.sans_parse_error) _ h2 in
      let e : add_sans lib (add_cns lib new_identifiers cns) cert.sans ≡ ids = cc in
      subst (λ is. Has is (sanitize_dns_name lib v))
        (ap (add_sans lib (add_cns lib new_identifiers cns)) (sym there) ∙ e)
        (add_sans-Has (add_cns lib new_identifiers cns) front back san v dns named)
