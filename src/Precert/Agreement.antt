-- ===== src/Precert/Agreement.antt =====
-- What an accepted precertificate and TBSCertificate of precerts.go have in common.
use certspotter.Prelude.{
  Bool, true, false, ◌≡◌, refl, sym, subst, ◌∙◌, ◌⊎◌, inl, inr, List, [], ◌∷◌, Bytes, bytes_equal,
  bytes_equal_iff, Bool-cases, Result, ok, ◌>>◌, >>=-eq-ok, if◌then◌else◌, ==_iff, Option, some,
  arith,
}
use certspotter.X509.Types.{Extension, BitString, TbsCertificate}
use certspotter.Precert.{
  PrecertError, LoopState, PrecertInfo, same_bool, extensions_loop, validate_precert, same_fields,
  bit_string_equal, require, none_left, oid_extension_ct_poison, oid_extension_authority_key_id,
}

-- The extensions but the CT poison
unfoldable pub without_poison : List Extension → List Extension
without_poison [] = []
without_poison (ext ∷ exts) =
    let rest = without_poison exts in
    if bytes_equal ext.id oid_extension_ct_poison then rest else ext ∷ rest

-- Two extensions agree, but that the AKIs of different issuers may have different values.
abbrev pub Agrees : Bool → Extension → Extension → Type 0
Agrees same_issuer x y =
    (x.id ≡ y.id)
    × (x.critical ≡ y.critical)
    × ((x.value ≡ y.value) ⊎ ((same_issuer ≡ false) × (x.id ≡ oid_extension_authority_key_id)))

abbrev pub AllAgree : Bool → List Extension → List Extension → Type 0
AllAgree same_issuer [] [] = Unit {0}
AllAgree same_issuer [] (y ∷ ys) = ⊥
AllAgree same_issuer (x ∷ xs) [] = ⊥
AllAgree same_issuer (x ∷ xs) (y ∷ ys) = Agrees same_issuer x y × AllAgree same_issuer xs ys

-- Some extension is a CT poison, and critical.
abbrev pub HasPoison : List Extension → Type 0
HasPoison [] = ⊥
HasPoison (x ∷ xs) = ((x.id ≡ oid_extension_ct_poison) × (x.critical ≡ true)) ⊎ HasPoison xs

same_bool→eq : (a b : Bool) → same_bool a b ≡ true → a ≡ b
unfolding same_bool
same_bool→eq true true h = refl
same_bool→eq true false h = cc
same_bool→eq false true h = cc
same_bool→eq false false h = refl

-- A step over an extension that is no poison
extensions_loop-next :
    (same_issuer : Bool) (x t : Extension) (xs ts : List Extension) (poison : Bool)
    (aki : Option Bytes) (state : LoopState)
    → extensions_loop same_issuer (x ∷ xs) (t ∷ ts) poison aki ≡ ok state
    → bytes_equal x.id oid_extension_ct_poison ≡ false
    → Agrees same_issuer x t
      × ((extensions_loop same_issuer xs ts poison (some x.value) ≡ ok state)
          ⊎ (extensions_loop same_issuer xs ts poison aki ≡ ok state))
unfolding extensions_loop
extensions_loop-next same_issuer x t xs ts poison aki state h p = ground (
  arith,
  (bytes_equal_iff x.id t.id).0,
  (bytes_equal_iff x.value t.value).0,
  (bytes_equal_iff x.id oid_extension_authority_key_id).0,
  same_bool→eq x.critical t.critical,
)

without_poison-keeps :
    (x : Extension) (xs : List Extension)
    → bytes_equal x.id oid_extension_ct_poison ≡ false
    → without_poison (x ∷ xs) ≡ x ∷ without_poison xs
unfolding without_poison
without_poison-keeps x xs p = ground arith

extensions_loop-AllAgree :
    (same_issuer : Bool) (exts tbs_exts : List Extension) (poison : Bool) (aki : Option Bytes)
    (state : LoopState)
    → extensions_loop same_issuer exts tbs_exts poison aki ≡ ok state
    → state.rest ≡ []
    → AllAgree same_issuer (without_poison exts) tbs_exts
unfolding extensions_loop without_poison
extensions_loop-AllAgree same_issuer [] [] poison aki state h e = tt
extensions_loop-AllAgree same_issuer [] (t ∷ ts) poison aki state h e = cc
extensions_loop-AllAgree same_issuer (x ∷ xs) [] poison aki state h e =
    ground (arith, extensions_loop-AllAgree same_issuer xs [] true aki state)
extensions_loop-AllAgree same_issuer (x ∷ xs) (t ∷ ts) poison aki state h e =
    elim (Bool-cases (bytes_equal x.id oid_extension_ct_poison)) [
      | inl p ↦ ground (arith, p, extensions_loop-AllAgree same_issuer xs (t ∷ ts) true aki state)
      | inr p ↦
          let (agrees, rest) = extensions_loop-next same_issuer x t xs ts poison aki state h p in
          subst (λ zs. AllAgree same_issuer zs (t ∷ ts)) (sym (without_poison-keeps x xs p))
            (
              agrees,
              elim rest [
                | inl r ↦ extensions_loop-AllAgree same_issuer xs ts poison (some x.value) state r e
                | inr r ↦ extensions_loop-AllAgree same_issuer xs ts poison aki state r e
              ],
            )
    ]

extensions_loop-HasPoison :
    (same_issuer : Bool) (exts tbs_exts : List Extension) (poison : Bool) (aki : Option Bytes)
    (state : LoopState)
    → extensions_loop same_issuer exts tbs_exts poison aki ≡ ok state
    → state.precert_has_poison ≡ true
    → (poison ≡ true) ⊎ HasPoison exts
unfolding extensions_loop
extensions_loop-HasPoison same_issuer [] ts poison aki state h e = ground arith
extensions_loop-HasPoison same_issuer (x ∷ xs) [] poison aki state h e = ground (
  arith,
  extensions_loop-HasPoison same_issuer xs [] true aki state,
  (bytes_equal_iff x.id oid_extension_ct_poison).0,
)
extensions_loop-HasPoison same_issuer (x ∷ xs) (t ∷ ts) poison aki state h e = ground (
  arith,
  extensions_loop-HasPoison same_issuer xs (t ∷ ts) true aki state,
  extensions_loop-HasPoison same_issuer xs ts poison (some x.value) state,
  extensions_loop-HasPoison same_issuer xs ts poison aki state,
  (bytes_equal_iff x.id oid_extension_ct_poison).0,
)

bit_string_equal→eq : (a b : BitString) → bit_string_equal a b ≡ true → a ≡ b
unfolding bit_string_equal
bit_string_equal→eq a b h =
    let fields : (a.bit_length ≡ b.bit_length) × (a.bytes ≡ b.bytes) =
      ground (arith, (bytes_equal_iff a.bytes b.bytes).0, (==_iff a.bit_length b.bit_length).0) in
    λ i. record { bytes = fields.1 i; bit_length = fields.0 i }

require-eq_ok {ℓ} :
    {A : Type ℓ} (b : Bool) (e : PrecertError) (k : Result PrecertError A) {a : A}
    → (require b e >> k) ≡ ok a
    → (b ≡ true) × (k ≡ ok a)
require-eq_ok true e k h = (refl, h)
require-eq_ok false e k h = cc

require-ok : (b : Bool) (e : PrecertError) → require b e ≡ ok tt → b ≡ true
require-ok true e h = refl
require-ok false e h = cc

none_left-eq_ok : (exts : List Extension) → none_left exts ≡ ok tt → exts ≡ []
none_left-eq_ok [] h = refl
none_left-eq_ok (x ∷ xs) h = cc

same_fields-eq :
    (p t : TbsCertificate)
    → same_fields p t ≡ ok tt
    → p.issuer ≡ t.issuer
    → t ≡ record p { raw = t.raw; extensions = t.extensions }
unfolding same_fields
same_fields-eq p t h issuer =
    let (version, h1) = require-eq_ok _ _ _ h in
    let (serial, h2) = require-eq_ok _ _ _ h1 in
    let (algorithm, h3) = require-eq_ok _ _ _ h2 in
    let (validity, h4) = require-eq_ok _ _ _ h3 in
    let (subject, h5) = require-eq_ok _ _ _ h4 in
    let (key, h6) = require-eq_ok _ _ _ h5 in
    let (unique, h7) = require-eq_ok _ _ _ h6 in
    let subject_unique = require-ok _ _ h7 in
    λ i. record {
      raw = t.raw;
      version = sym ((==_iff p.version t.version).0 version) i;
      serial_number = sym ((bytes_equal_iff p.serial_number t.serial_number).0 serial) i;
      signature_algorithm =
          sym ((bytes_equal_iff p.signature_algorithm t.signature_algorithm).0 algorithm) i;
      issuer = sym issuer i;
      validity = sym ((bytes_equal_iff p.validity t.validity).0 validity) i;
      subject = sym ((bytes_equal_iff p.subject t.subject).0 subject) i;
      public_key = sym ((bytes_equal_iff p.public_key t.public_key).0 key) i;
      unique_id = sym (bit_string_equal→eq p.unique_id t.unique_id unique) i;
      subject_unique_id =
          sym (bit_string_equal→eq p.subject_unique_id t.subject_unique_id subject_unique) i;
      extensions = t.extensions;
    }

AllAgree-eq : (xs ys : List Extension) → AllAgree true xs ys → xs ≡ ys
AllAgree-eq [] [] h = refl
AllAgree-eq [] (y ∷ ys) h = ground arith
AllAgree-eq (x ∷ xs) [] h = ground arith
AllAgree-eq (x ∷ xs) (y ∷ ys) ((id, critical, value), rest) =
    let value' : x.value ≡ y.value = elim value [ inl v ↦ v | inr (e, _) ↦ cc ] in
    λ i. (record { id = id i; critical = critical i; value = value' i }) ∷ AllAgree-eq xs ys rest i

-- When `validate_precert` accepts, the precertificate has a critical CT poison, its other extensions
-- agree in order with the extensions of the TBSCertificate, and `same_issuer` says whether the
-- issuers are the same bytes; two extensions agree when they are equal, or when they are AKIs that
-- only differ in value while the issuers differ.
pub validate_precert-agrees :
    (precert_tbs tbs : TbsCertificate) (info : PrecertInfo)
    → validate_precert precert_tbs tbs ≡ ok info
    → (info.same_issuer ≡ bytes_equal precert_tbs.issuer tbs.issuer)
      × HasPoison precert_tbs.extensions
      × AllAgree info.same_issuer (without_poison precert_tbs.extensions) tbs.extensions
unfolding validate_precert
validate_precert-agrees p t info h =
    let same_issuer = bytes_equal p.issuer t.issuer in
    let (u, _, h1) = >>=-eq-ok (same_fields p t) _ h in
    let (state, loop, h2) =
      >>=-eq-ok (extensions_loop same_issuer p.extensions t.extensions _ _) _ h1 in
    let (v, left, h3) = >>=-eq-ok (none_left state.rest) _ h2 in
    let (poison, h4) = require-eq_ok _ _ (ok _) h3 in
    let same : info.same_issuer ≡ same_issuer = cc in
    (
      same,
      elim (extensions_loop-HasPoison same_issuer p.extensions t.extensions _ _ state loop poison) [
        | inl e ↦ cc
        | inr e ↦ e
      ],
      subst (λ b. AllAgree b (without_poison p.extensions) t.extensions) (sym same)
          (extensions_loop-AllAgree same_issuer p.extensions t.extensions _ _ state loop
            (none_left-eq_ok state.rest left)),
    )

-- When `validate_precert` accepts with the same issuer, the TBSCertificate is that of the
-- precertificate without the CT poison extensions, in every field but the raw bytes.
pub validate_precert-same_issuer :
    (precert_tbs tbs : TbsCertificate) (info : PrecertInfo)
    → validate_precert precert_tbs tbs ≡ ok info
    → info.same_issuer ≡ true
    → tbs ≡ record precert_tbs { raw = tbs.raw; extensions = without_poison precert_tbs.extensions }
unfolding validate_precert
validate_precert-same_issuer p t info h same =
    let (u, fields, _) = >>=-eq-ok (same_fields p t) _ h in
    let (same', _, agree) = validate_precert-agrees p t info h in
    let exts =
      AllAgree-eq (without_poison p.extensions) t.extensions
        (subst (λ b. AllAgree b (without_poison p.extensions) t.extensions) same agree) in
    same_fields-eq p t fields ((bytes_equal_iff p.issuer t.issuer).0 (sym same' ∙ same)) ∙ λ i.
    record p { raw = t.raw; extensions = sym exts i }
