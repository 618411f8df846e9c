-- ===== src/Ct/Scts.antt =====
-- Signed certificate timestamps: `deserialize_sct` takes back what `serialize_sct` wrote.
use certspotter.Prelude.{
  ◌^◌, ◌<◌, ◌≡◌, ◌∷◌, ◌++◌, Bytes, ok, >>=-eq-ok, length, arith, append_assoc,
}
use certspotter.Ct.Types.{SignedCertificateTimestamp, v1}
use certspotter.Ct.Write.{
  write_var_bytes, big_endian, check_extensions_format, marshal_digitally_signed, serialize_v1_sct,
  serialize_sct,
}
use certspotter.Ct.Read.{deserialize_sct_v1, deserialize_sct}
use certspotter.Ct.Codec.{read_full-append, read_big_endian-big_endian, read_big_endian_byte}
use certspotter.Ct.Var.{
  read_var_bytes-write_var_bytes, write_var_bytes-fits, unmarshal_digitally_signed-marshal,
}

-- What a successful serialization consists of.
serialize_v1_sct-eq_ok :
    (sct : SignedCertificateTimestamp) (out : Bytes)
    → serialize_v1_sct sct ≡ ok out
    → (ext sig : Bytes) × (write_var_bytes sct.extensions 2 ≡ ok ext)
      × (marshal_digitally_signed sct.signature ≡ ok sig)
      × (out ≡ v1 ∷ (sct.log_id ++ (big_endian 8 sct.timestamp ++ (ext ++ sig))))
unfolding serialize_v1_sct
serialize_v1_sct-eq_ok sct out w =
    let (_, checked, w1) = >>=-eq-ok (check_extensions_format sct.extensions) _ w in
    let (ext, written, w2) = >>=-eq-ok (write_var_bytes sct.extensions 2) _ w1 in
    let (sig, marshalled, w3) = >>=-eq-ok (marshal_digitally_signed sct.signature) _ w2 in
    (ext, sig, written, marshalled, cc)

serialize_sct-IsV1 :
    (sct : SignedCertificateTimestamp) (out : Bytes)
    → serialize_sct sct ≡ ok out
    → (sct.sct_version ≡ v1) × (serialize_v1_sct sct ≡ ok out)
unfolding serialize_sct
serialize_sct-IsV1 sct out w = ground arith

-- Every SCT that `serialize_sct` writes is read back by `deserialize_sct`, and the bytes behind it
-- stay; the log id has the 32 bytes of its array type and the timestamp is a uint64.
pub deserialize_sct-serialize_sct :
    (sct : SignedCertificateTimestamp) (out rest : Bytes)
    → length sct.log_id ≡ 32
    → sct.timestamp < 2 ^ 64
    → serialize_sct sct ≡ ok out
    → deserialize_sct (out ++ rest) ≡ ok (sct, rest)
unfolding deserialize_sct deserialize_sct_v1
deserialize_sct-serialize_sct sct out rest len time w =
    let (version, w1) = serialize_sct-IsV1 sct out w in
    let (ext, sig, written, marshalled, e) = serialize_v1_sct-eq_ok sct out w1 in
    let f : length sct.extensions < 256 ^ 2 = write_var_bytes-fits sct.extensions ext 2 written in
    rw (
      e,
      read_big_endian_byte,
      append_assoc,
      read_full-append 32 sct.log_id _ len,
      append_assoc,
      read_big_endian-big_endian 8 sct.timestamp _ time,
      append_assoc,
      read_var_bytes-write_var_bytes sct.extensions (sig ++ rest) ext 2 (omega arith) (omega arith)
          (omega arith) written,
      unmarshal_digitally_signed-marshal sct.signature sig rest marshalled,
      ← version,
    )
