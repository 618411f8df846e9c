-- ===== src/Ct/Var.antt =====
-- Byte strings behind a length: `read_var_bytes` takes back what `write_var_bytes` wrote.
use certspotter.Prelude.{
  ℕ, zero, suc, ◌/◌, ◌%◌, ◌^◌, ◌≤◌, ◌<◌, ◌≡◌, refl, [], ◌∷◌, ◌++◌, Bytes, ok, ◌==◌, length, arith,
  append_assoc, >>=-eq-ok, false, ltb, Bool-cases, ==_iff, inl, inr,
}
use native.Mathlib.Nat.{pow-suc}
use certspotter.Ct.Types.{DigitallySigned}
use certspotter.Ct.Write.{fill, write_uint, write_var_bytes, big_endian, marshal_digitally_signed}
use certspotter.Ct.Read.{read_var_bytes, unmarshal_digitally_signed}
use certspotter.Ct.Codec.{
  write_uint-ok, read_uint-big_endian, split_bytes-append, read_big_endian_byte,
}

-- What `write_var_bytes` writes when the length fits its field.
pub write_var_bytes-ok :
    (value : Bytes) (n : ℕ)
    → length value < 256 ^ n
    → write_var_bytes value n ≡ ok (big_endian n (length value) ++ value)
unfolding write_var_bytes
write_var_bytes-ok value n h = rw (write_uint-ok (length value) n h)

-- The bytes that `write_var_bytes` wrote with a length field of 1 to 8 bytes are read back, and
-- what follows them stays.
pub read_var_bytes-big_endian :
    (value rest : Bytes) (n : ℕ)
    → 0 < n
    → n ≤ 8
    → length value < 256 ^ n
    → length value < 2 ^ 64
    → read_var_bytes ((big_endian n (length value) ++ value) ++ rest) n ≡ ok (value, rest)
unfolding read_var_bytes
read_var_bytes-big_endian value rest n pos le h f =
    let small : ltb 8 n ≡ false = ground arith in
    let some_bytes : (n == 0) ≡ false = ground arith in
    rw (
      small,
      some_bytes,
      append_assoc,
      read_uint-big_endian n (length value) (value ++ rest) h f,
      split_bytes-append (length value) value rest refl,
    )

fill_short : (n value : ℕ) (buf : Bytes) → (fill n value buf).0 ≡ 0 → value < 256 ^ n
unfolding fill
fill_short zero value buf e = omega arith
fill_short (suc n) value buf e =
    omega (arith, pow-suc 256 n, fill_short n (value / 256) ((value % 256) ∷ buf) e)

pub write_var_bytes-fits :
    (value out : Bytes) (n : ℕ) → write_var_bytes value n ≡ ok out → length value < 256 ^ n
unfolding write_var_bytes write_uint
write_var_bytes-fits value out n w = elim (Bool-cases ((fill n (length value) []).0 == 0)) [
  | inl whole ↦ fill_short n (length value) [] ((==_iff _ 0).0 whole)
  | inr left ↦ cc (rw left at w)
]

-- What `write_var_bytes` writes with a length of 1 to 8 bytes, whenever it succeeds, is read back by
-- `read_var_bytes`, and the bytes behind it stay.
pub read_var_bytes-write_var_bytes :
    (value rest out : Bytes) (n : ℕ)
    → 0 < n
    → n ≤ 8
    → length value < 2 ^ 64
    → write_var_bytes value n ≡ ok out
    → read_var_bytes (out ++ rest) n ≡ ok (value, rest)
read_var_bytes-write_var_bytes value rest out n pos le f w =
    let h = write_var_bytes-fits value out n w in
    let same : out ≡ big_endian n (length value) ++ value = cc (write_var_bytes-ok value n h, w) in
    rw same (read_var_bytes-big_endian value rest n pos le h f)

-- A `DigitallySigned` that marshals is unmarshalled again, and what follows it stays.
pub unmarshal_digitally_signed-marshal :
    (ds : DigitallySigned) (out rest : Bytes)
    → marshal_digitally_signed ds ≡ ok out
    → unmarshal_digitally_signed (out ++ rest) ≡ ok (ds, rest)
unfolding marshal_digitally_signed unmarshal_digitally_signed
unmarshal_digitally_signed-marshal ds out rest w =
    let (sig, written, e) = >>=-eq-ok (write_var_bytes ds.signature 2) _ w in
    let same : out ≡ ds.hash_algorithm ∷ ds.signature_algorithm ∷ sig = cc in
    let f : length ds.signature < 256 ^ 2 = write_var_bytes-fits ds.signature sig 2 written in
    rw (
      same,
      read_big_endian_byte,
      read_big_endian_byte ds.signature_algorithm,
      read_var_bytes-write_var_bytes ds.signature rest sig 2 (omega arith) (omega arith)
          (omega arith) written,
    )
