-- ===== src/Ct/Codec.antt =====
-- Integers on the wire: what `write_uint` and `binary.Write` put down, `read_uint` and `binary.Read`
-- take up again.
use certspotter.Prelude.{
  ℕ, zero, suc, ◌+◌, ◌*◌, ◌/◌, ◌%◌, ◌^◌, ◌<◌, ◌≡◌, refl, ap, ◌∙◌, [], ◌∷◌, ◌++◌, Bytes, ok, length,
  arith, some,
}
use native.Mathlib.Nat.{pow-suc}
use certspotter.Ct.Write.{fill, write_uint, big_endian}
use certspotter.Ct.Read.{
  split_bytes, read_full, be_value, read_big_endian, read_uint_loop, read_uint,
}

pub split_bytes-append : (n : ℕ) (x r : Bytes) → length x ≡ n → split_bytes n (x ++ r) ≡ some (x, r)
unfolding split_bytes
split_bytes-append zero [] r e = refl
split_bytes-append zero (b ∷ x) r e = absurd (omega arith)
split_bytes-append (suc n) [] r e = absurd (omega arith)
split_bytes-append (suc n) (b ∷ x) r e = rw (split_bytes-append n x r (omega arith))

pub read_full-append : (n : ℕ) (x r : Bytes) → length x ≡ n → read_full n (x ++ r) ≡ ok (x, r)
unfolding read_full
read_full-append n x r e = rw (split_bytes-append n x r e, read_full)

-- A value of `n` bytes is written whole.
pub fill_left : (n value : ℕ) (buf : Bytes) → value < 256 ^ n → (fill n value buf).0 ≡ 0
unfolding fill
fill_left zero value buf h = omega arith
fill_left (suc n) value buf h =
    fill_left n (value / 256) ((value % 256) ∷ buf) (omega (arith, pow-suc 256 n))

pub length-fill : (n value : ℕ) (buf : Bytes) → length (fill n value buf).1 ≡ n + length buf
unfolding fill
length-fill zero value buf = omega arith
length-fill (suc n) value buf = omega (arith, length-fill n (value / 256) ((value % 256) ∷ buf))

be_value-fill :
    (n l value : ℕ) (buf : Bytes)
    → value < 256 ^ n
    → be_value l (fill n value buf).1 ≡ be_value (l * 256 ^ n + value) buf
unfolding fill be_value
be_value-fill zero l value buf h = ap (λ (v : ℕ). be_value v buf) (omega arith)
be_value-fill (suc n) l value buf h =
    be_value-fill n l (value / 256) ((value % 256) ∷ buf) (omega (arith, pow-suc 256 n))
    ∙ ap (λ (v : ℕ). be_value v buf) (omega (arith, ap (λ (t : ℕ). l * t) (pow-suc 256 n)))

-- `n` bytes of a value are read back, before `m` bytes of which the buffer holds the first.
read_uint_loop-fill :
    (n m total l value : ℕ) (buf r : Bytes)
    → n + m ≡ total
    → value < 256 ^ n
    → l * 256 ^ n + value < 2 ^ 64
    → read_uint_loop total l ((fill n value buf).1 ++ r)
      ≡ read_uint_loop m (l * 256 ^ n + value) (buf ++ r)
unfolding fill read_uint_loop
read_uint_loop-fill zero m total l value buf r e h f =
    let same : total ≡ m = omega arith in let v : l ≡ l * 1 + value = omega arith in rw (same, ← v)
read_uint_loop-fill (suc n) m total l value buf r e h f =
    let p = pow-suc 256 n in
    let lp = ap (λ (t : ℕ). l * t) p in
    read_uint_loop-fill n (suc m) total l (value / 256) ((value % 256) ∷ buf) r (omega arith)
      (omega (arith, p)) (omega (arith, lp))
    ∙ ap (λ (v : ℕ). read_uint_loop m v (buf ++ r)) (omega (arith, lp))

pub write_uint-ok : (value n : ℕ) → value < 256 ^ n → write_uint value n ≡ ok (big_endian n value)
unfolding write_uint big_endian
write_uint-ok value n h = rw (fill_left n value [] h)

pub read_uint-big_endian :
    (n value : ℕ) (r : Bytes)
    → value < 256 ^ n
    → value < 2 ^ 64
    → read_uint (big_endian n value ++ r) n ≡ ok (value, r)
unfolding read_uint big_endian
read_uint-big_endian n value r h f =
    read_uint_loop-fill n 0 n 0 value [] r (omega arith) h (omega arith) ∙ last
  where
    last : read_uint_loop 0 (0 * 256 ^ n + value) r ≡ ok (value, r)
    last = let e : 0 * 256 ^ n + value ≡ value = omega arith in rw e (unfold read_uint_loop in refl)

pub length-big_endian : (n value : ℕ) → length (big_endian n value) ≡ n
unfolding big_endian
length-big_endian n value = omega (arith, length-fill n value [])

pub read_big_endian-big_endian :
    (n value : ℕ) (r : Bytes)
    → value < 256 ^ n
    → read_big_endian n (big_endian n value ++ r) ≡ ok (value, r)
unfolding read_big_endian
read_big_endian-big_endian n value r h =
    rw (read_full-append n (big_endian n value) r (length-big_endian n value), whole)
  where
    whole : be_value 0 (big_endian n value) ≡ value
    whole = unfold big_endian in be_value-fill n 0 value [] h ∙ (unfold be_value in omega arith)

pub read_big_endian_byte : (b : ℕ) (r : Bytes) → read_big_endian 1 (b ∷ r) ≡ ok (b, r)
unfolding read_big_endian be_value
read_big_endian_byte b r =
    let e : 0 * 256 + b ≡ b = omega arith in rw (read_full-append 1 (b ∷ []) r refl, e)
