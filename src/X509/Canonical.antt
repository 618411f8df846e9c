-- ===== src/X509/Canonical.antt =====
-- canonicalize.go: the form of names under which they are compared.
pub mod Words
pub mod Idempotent
use certspotter.Prelude.{
  ℕ, ◌+◌, Bool, true, false, not, ◌&&◌, ◌||◌, List, [], ◌∷◌, ◌++◌, Bytes, Result, ok, err, panic,
  ◌>>=◌, ◌==◌, leb, if◌then◌else◌,
}
use certspotter.Names.Text.{Library}
use certspotter.X509.Types.{RawValue, AttributeTypeAndValue, RdnSequence, X509Error}
use certspotter.X509.Strings.{decode_asn1_string}

abbrev pub space : ℕ
space = 32

-- ' ', '\f', '\n', '\r', '\t', '\v'
unfoldable pub is_white : ℕ → Bool
is_white ch = (ch == space) || (ch == 12) || (ch == 10) || (ch == 13) || (ch == 9) || (ch == 11)

unfoldable pub to_lowercase : ℕ → ℕ
to_lowercase ch = if leb 65 ch && leb ch 90 then ch + 32 else ch

unfoldable pub drop_last : Bytes → Bytes
drop_last [] = []
drop_last (b ∷ []) = []
drop_last (b ∷ c ∷ to) = b ∷ drop_last (c ∷ to)

-- The loop over the bytes from `inWhitespace` and `to` on, and what follows it
unfoldable pub canonical_loop : Bytes → Bool → Bytes → Bytes
canonical_loop [] true to = drop_last to
canonical_loop [] false to = to
canonical_loop (ch ∷ from) in_whitespace to =
    let white = canonical_loop from true (if not in_whitespace then to ++ (space ∷ []) else to) in
    let other = canonical_loop from false (to ++ (to_lowercase ch ∷ [])) in
    if is_white ch then white else other

unfoldable pub canonicalize_rdn_string : Bytes → Bytes
canonicalize_rdn_string from = canonical_loop from true []

unfoldable pub should_canonicalize_asn1_string : RawValue → Bool
should_canonicalize_asn1_string value =
    if not value.is_compound && (value.class == 0)
    then (value.tag == 12)
      || (value.tag == 19)
      || (value.tag == 22)
      || (value.tag == 20)
      || (value.tag == 26)
      || (value.tag == 30)
      || (value.tag == 28)
    else false

module _ (lib : Library) where
  unfoldable pub canonicalize_atv : AttributeTypeAndValue → Result X509Error AttributeTypeAndValue
  canonicalize_atv old_atv =
      let canonical = decode_asn1_string lib old_atv.value >>= λ str. ok (record {
        type = old_atv.type;
        value = record {
          class = 0;
          tag = 12;
          is_compound = false;
          bytes = canonicalize_rdn_string str;
          full_bytes = [];
        };
      }) in
      if should_canonicalize_asn1_string old_atv.value then canonical else ok old_atv

  unfoldable pub canonicalize_rdn_set :
      List AttributeTypeAndValue → Result X509Error (List AttributeTypeAndValue)
  canonicalize_rdn_set [] = ok []
  canonicalize_rdn_set (old_atv ∷ old_set) = do
    atv ← canonicalize_atv old_atv
    new_set ← canonicalize_rdn_set old_set
    ok (atv ∷ new_set)

  unfoldable pub canonicalize_rdn_sequence : RdnSequence → Result X509Error RdnSequence
  canonicalize_rdn_sequence [] = ok []
  canonicalize_rdn_sequence (old_set ∷ old_sequence) = do
    rdn_set ← canonicalize_rdn_set old_set
    new_sequence ← canonicalize_rdn_sequence old_sequence
    ok (rdn_set ∷ new_sequence)
