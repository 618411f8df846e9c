-- ===== src/X509/Time/Slices.antt =====
-- Every slice expression of asn1time.go is in range.
use certspotter.Prelude.{
  ℕ, zero, suc, ◌+◌, ◌≤◌, ◌≡◌, refl, not, ◌&&◌, [], ◌∷◌, Bytes, Result, ok, err, panic, ◌>>=◌, ◌>>◌,
  Returns, >>=-Returns, if-Returns, ◌==◌, ltb, if◌then◌else◌, Bool-cases, inl, inr, length, none,
  some, arith, ℤ, negated,
}
use certspotter.X509.Types.{RawValue, TimeError}
use certspotter.X509.Time.{
  cut, bytes_to_int, atoi, int_at, require_length, has_two, offset_at, zone_at, no_garbage,
  optional_two, parse_utc_time, fraction_at, seconds_at, minutes_at, parse_generalized_time,
  decode_asn1_time,
}

cut_ok :
    (n : ℕ) (bytes : Bytes)
    → n ≤ length bytes
    → (front rest : Bytes) × (cut n bytes ≡ ok (front, rest)) × (n + length rest ≡ length bytes)
unfolding cut
cut_ok zero bytes h = ([], bytes, refl, omega arith)
cut_ok (suc n) [] h = absurd (omega arith)
cut_ok (suc n) (b ∷ bytes) h =
    let (front, rest, e, l) = cut_ok n bytes (omega arith) in
    (b ∷ front, rest, rw e refl, omega (arith, l))

bytes_to_int-Returns : (bytes : Bytes) → Returns (bytes_to_int bytes)
unfolding bytes_to_int
bytes_to_int-Returns bytes =
    elim (atoi bytes)
      as (λ o. Returns (elim o [ none ↦ err TimeError.invalid_integer | some z ↦ ok z ])) [
        | none ↦ tt
        | some z ↦ tt
      ]

-- What a read of `n` bytes is followed by, if it is in range and what follows is
int_at_then-Returns {ℓ} :
    {A : Type ℓ} (n : ℕ) (bytes : Bytes) (next : ℤ × Bytes → Result TimeError A)
    → n ≤ length bytes
    → ((z : ℤ) (rest : Bytes) → n + length rest ≡ length bytes → Returns (next (z, rest)))
    → Returns (int_at n bytes >>= next)
unfolding int_at
int_at_then-Returns {A = A} n bytes next h s =
    let (front, rest, e, l) = cut_ok n bytes h in
    rw e (go front rest l (bytes_to_int front) (bytes_to_int-Returns front))
  where
    go :
        (front rest : Bytes)
        → n + length rest ≡ length bytes
        → (m : Result TimeError ℤ) → Returns m
        → Returns ((m >>= λ z. ok (z, rest)) >>= next)
    go front rest l (ok z) r = s z rest l
    go front rest l (err e) r = tt
    go front rest l panic r = r

int_at-Returns : (n : ℕ) (bytes : Bytes) → n ≤ length bytes → Returns (int_at n bytes)
unfolding int_at
int_at-Returns n bytes h =
    let (front, rest, e, l) = cut_ok n bytes h in
    rw e (>>=-Returns (bytes_to_int front) _ (bytes_to_int-Returns front) (λ z e'. tt))

require_length-Returns {ℓ} :
    {A : Type ℓ} (n : ℕ) (bytes : Bytes) (e : TimeError) (next : Result TimeError A)
    → (n ≤ length bytes → Returns next)
    → Returns (require_length n bytes e >> next)
require_length-Returns n bytes e next s = elim (Bool-cases (ltb (length bytes) n)) [
  | inl short ↦ rw short tt
  | inr long ↦ rw long (s (ground arith))
]

-- Two digits where two bytes are there
two-Returns {ℓ} :
    {A : Type ℓ} (bytes : Bytes) (next : ℤ × Bytes → Result TimeError A)
    (other : Result TimeError A)
    → ((z : ℤ) (rest : Bytes) → Returns (next (z, rest)))
    → Returns other
    → Returns (if has_two bytes then int_at 2 bytes >>= next else other)
two-Returns [] next other s o = o
two-Returns (b ∷ []) next other s o = o
two-Returns (b ∷ c ∷ bytes) next other s o =
    if-Returns (has_two (b ∷ c ∷ bytes)) (int_at 2 (b ∷ c ∷ bytes) >>= next) other
      (int_at_then-Returns 2 (b ∷ c ∷ bytes) next (omega arith) (λ z rest l. s z rest)) o

optional_two-Returns : (bytes : Bytes) → Returns (optional_two bytes)
optional_two-Returns [] = tt
optional_two-Returns (b ∷ []) = tt
optional_two-Returns (b ∷ c ∷ bytes) =
    if-Returns (has_two (b ∷ c ∷ bytes)) _ _ (int_at-Returns 2 (b ∷ c ∷ bytes) (omega arith)) tt

offset_at-Returns : (sign : ℤ → ℤ) (c : ℕ) (bytes : Bytes) → Returns (offset_at sign c bytes)
unfolding offset_at
offset_at-Returns sign c bytes = require_length-Returns 5 (c ∷ bytes) _ _ (λ h.
    int_at_then-Returns 2 bytes _ (omega arith)
      (λ z rest l. int_at_then-Returns 2 rest _ (omega arith) (λ z' rest' l'. tt)))

zone_at-Returns : (bytes : Bytes) → Returns (zone_at bytes)
unfolding zone_at
zone_at-Returns [] = tt
zone_at-Returns (b ∷ bytes) = if-Returns (b == b'Z') _ _ tt (
    if-Returns (b == b'+') _ _ (offset_at-Returns (λ z. z) b bytes)
      (if-Returns (b == b'-') _ _ (offset_at-Returns negated b bytes) tt))

fraction_at-Returns : (bytes : Bytes) → Returns (fraction_at bytes)
fraction_at-Returns [] = tt
fraction_at-Returns (b ∷ bytes) =
    if-Returns (b == b'.') _ _
      (require_length-Returns 4 (b ∷ bytes) _ _ (λ h. int_at-Returns 3 bytes (omega arith))) tt

seconds_at-Returns : (bytes : Bytes) → Returns (seconds_at bytes)
seconds_at-Returns bytes =
    two-Returns bytes _ _
      (λ z rest. >>=-Returns (fraction_at rest) _ (fraction_at-Returns rest) (λ a e. tt)) tt

minutes_at-Returns : (bytes : Bytes) → Returns (minutes_at bytes)
minutes_at-Returns bytes =
    two-Returns bytes _ _
      (λ z rest. >>=-Returns (seconds_at rest) _ (seconds_at-Returns rest) (λ a e. tt)) tt

no_garbage-Returns {ℓ} : {A : Type ℓ} (bytes : Bytes) (a : A) → Returns (no_garbage bytes >> ok a)
no_garbage-Returns [] a = tt
no_garbage-Returns (b ∷ bytes) a = tt

parse_utc_time-Returns : (bytes : Bytes) → Returns (parse_utc_time bytes)
unfolding parse_utc_time
parse_utc_time-Returns bytes = require_length-Returns 10 bytes _ _ (λ h.
    int_at_then-Returns 2 bytes _ (omega arith) (λ year b1 l1.
      int_at_then-Returns 2 b1 _ (omega arith) (λ month b2 l2.
        int_at_then-Returns 2 b2 _ (omega arith) (λ day b3 l3.
          int_at_then-Returns 2 b3 _ (omega arith) (λ hour b4 l4.
            int_at_then-Returns 2 b4 _ (omega arith) (λ min b5 l5.
              >>=-Returns (optional_two b5) _ (optional_two-Returns b5) (λ (sec, b6) e6.
                >>=-Returns (zone_at b6) _ (zone_at-Returns b6)
                  (λ (tz, b7) e7. no_garbage-Returns b7 _))))))))

parse_generalized_time-Returns : (bytes : Bytes) → Returns (parse_generalized_time bytes)
unfolding parse_generalized_time
parse_generalized_time-Returns bytes = require_length-Returns 10 bytes _ _ (λ h.
    int_at_then-Returns 4 bytes _ (omega arith) (λ year b1 l1.
      int_at_then-Returns 2 b1 _ (omega arith) (λ month b2 l2.
        int_at_then-Returns 2 b2 _ (omega arith) (λ day b3 l3.
          int_at_then-Returns 2 b3 _ (omega arith) (λ hour b4 l4.
            >>=-Returns (minutes_at b4) _ (minutes_at-Returns b4) (λ (parts, b5) e5.
              >>=-Returns (zone_at b5) _ (zone_at-Returns b5)
                (λ (tz, b6) e6. no_garbage-Returns b6 _)))))))

-- The decoding of a time never panics: each slice expression in it is in range, for a UTCTime, a
-- GeneralizedTime or anything else.
pub decode_asn1_time-Returns : (value : RawValue) → Returns (decode_asn1_time value)
unfolding decode_asn1_time
decode_asn1_time-Returns value =
    if-Returns (not value.is_compound && (value.class == 0)) _ _
      (if-Returns (value.tag == 23) _ _ (parse_utc_time-Returns value.bytes)
        (if-Returns (value.tag == 24) _ _ (parse_generalized_time-Returns value.bytes) tt))
      tt
