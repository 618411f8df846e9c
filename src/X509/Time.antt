-- ===== src/X509/Time.antt =====
-- asn1time.go. A slice expression that is out of range panics; what `time.Date` gets stands for the
-- time. `tz` is the offset in seconds, and no offset is UTC.
pub mod Slices
pub mod Printed
use certspotter.Prelude.{
  ℕ, zero, suc, ◌+◌, ◌-◌, ◌*◌, ◌/◌, ◌%◌, ◌≤◌, ◌<◌, ◌≡◌, ◌≢◌, refl, ap, ◌∙◌, Bool, true, false, not,
  ◌&&◌, ◌||◌, List, [], ◌∷◌, ◌++◌, Bytes, Result, ok, err, panic, ◌>>=◌, ◌>>◌, ◌==◌, ltb, leb,
  if◌then◌else◌, length, Option, none, some, arith, ℤ, pos, negsuc, minus, ◌+ℤ◌, times, negated,
  at_least,
}
use certspotter.X509.Types.{
  RawValue, TimeError, too_short, invalid_integer, offset_too_short, fraction_too_short,
  trailing_garbage, not_a_time,
}

pub record Time : Type 0 where
  pub year : ℤ
  pub month : ℤ
  pub day : ℤ
  pub hour : ℤ
  pub min : ℤ
  pub sec : ℤ
  pub ns : ℤ
  pub tz : ℤ

abbrev pub tag_utc_time : ℕ
tag_utc_time = 23

abbrev pub tag_generalized_time : ℕ
tag_generalized_time = 24

unfoldable pub is_digit : ℕ → Bool
is_digit b = leb 48 b && leb b 57

-- `strconv.Atoi` on few bytes: digits with a sign or none
unfoldable pub digits : Bytes → ℕ → Option ℕ
digits [] n = some n
digits (b ∷ bytes) n =
    let rest = digits bytes (n * 10 + (b - 48)) in if is_digit b then rest else none

abbrev pub some_digits : Bytes → Option ℕ
some_digits [] = none
some_digits (b ∷ bytes) = digits (b ∷ bytes) 0

abbrev pub signed : (ℕ → ℤ) → Option ℕ → Option ℤ
signed f none = none
signed f (some n) = some (f n)

unfoldable pub atoi : Bytes → Option ℤ
atoi [] = none
atoi (b ∷ bytes) =
    if b == b'-'
    then signed minus (some_digits bytes)
    else if b == b'+'
    then signed pos (some_digits bytes)
    else signed pos (digits (b ∷ bytes) 0)

unfoldable pub bytes_to_int : Bytes → Result TimeError ℤ
bytes_to_int bytes = elim (atoi bytes) [ none ↦ err invalid_integer | some z ↦ ok z ]

-- `bytes[0:n]` and `bytes[n:]`
unfoldable pub cut : ℕ → Bytes → Result TimeError (Bytes × Bytes)
cut zero bytes = ok ([], bytes)
cut (suc n) [] = panic
cut (suc n) (b ∷ bytes) = cut n bytes >>= λ (front, rest). ok (b ∷ front, rest)

-- The integer in the next `n` bytes, and the bytes behind them
unfoldable pub int_at : ℕ → Bytes → Result TimeError (ℤ × Bytes)
int_at n bytes = do (front, rest) ← cut n bytes; z ← bytes_to_int front; ok (z, rest)

abbrev pub require_length : ℕ → Bytes → TimeError → Result TimeError (Unit {0})
require_length n bytes e = if ltb (length bytes) n then err e else ok tt

-- `len(bytes) >= 2 && isDigit(bytes[0])`
abbrev pub has_two : Bytes → Bool
has_two [] = false
has_two (b ∷ []) = false
has_two (b ∷ c ∷ bytes) = is_digit b

-- hhmm behind a sign, with five bytes from the sign on
unfoldable pub offset_at : (ℤ → ℤ) → ℕ → Bytes → Result TimeError (ℤ × Bytes)
offset_at sign s bytes = do
  require_length 5 (s ∷ bytes) offset_too_short
  (tz_hour, bytes1) ← int_at 2 bytes
  (tz_min, bytes2) ← int_at 2 bytes1
  ok (sign (times 3600 tz_hour +ℤ times 60 tz_min), bytes2)

unfoldable pub zone_at : Bytes → Result TimeError (ℤ × Bytes)
zone_at [] = ok (pos 0, [])
zone_at (b ∷ bytes) =
    if b == b'Z'
    then ok (pos 0, bytes)
    else if b == b'+'
    then offset_at (λ z. z) b bytes
    else if b == b'-'
    then offset_at negated b bytes
    else ok (pos 0, b ∷ bytes)

abbrev pub no_garbage : Bytes → Result TimeError (Unit {0})
no_garbage [] = ok tt
no_garbage (b ∷ bytes) = err trailing_garbage

abbrev pub window : ℤ → ℤ
window year = if at_least 50 year then pos 1900 +ℤ year else pos 2000 +ℤ year

abbrev pub optional_two : Bytes → Result TimeError (ℤ × Bytes)
optional_two bytes = if has_two bytes then int_at 2 bytes else ok (pos 0, bytes)

unfoldable pub parse_utc_time : Bytes → Result TimeError Time
parse_utc_time bytes = do
  require_length 10 bytes too_short
  (year, b1) ← int_at 2 bytes
  (month, b2) ← int_at 2 b1
  (day, b3) ← int_at 2 b2
  (hour, b4) ← int_at 2 b3
  (min, b5) ← int_at 2 b4
  (sec, b6) ← optional_two b5
  (tz, b7) ← zone_at b6
  no_garbage b7
  ok (record {
    year = window year;
    month = month;
    day = day;
    hour = hour;
    min = min;
    sec = sec;
    ns = pos 0;
    tz = tz;
  })

-- `.fff`
abbrev pub fraction_at : Bytes → Result TimeError (ℤ × Bytes)
fraction_at [] = ok (pos 0, [])
fraction_at (b ∷ bytes) =
    if b == b'.'
    then require_length 4 (b ∷ bytes) fraction_too_short >> int_at 3 bytes
    else ok (pos 0, b ∷ bytes)

-- Minutes, if they are there the seconds, and if those are there the milliseconds
abbrev pub seconds_at : Bytes → Result TimeError ((ℤ × ℤ) × Bytes)
seconds_at bytes =
    if has_two bytes
    then (int_at 2 bytes >>= λ (sec, b1). fraction_at b1 >>= λ (ms, b2). ok ((sec, ms), b2))
    else ok ((pos 0, pos 0), bytes)

abbrev pub minutes_at : Bytes → Result TimeError ((ℤ × ℤ × ℤ) × Bytes)
minutes_at bytes =
    if has_two bytes
    then (int_at 2 bytes >>= λ (min, b1).
        seconds_at b1 >>= λ ((sec, ms), b2). ok ((min, sec, ms), b2))
    else ok ((pos 0, pos 0, pos 0), bytes)

unfoldable pub parse_generalized_time : Bytes → Result TimeError Time
parse_generalized_time bytes = do
  require_length 10 bytes too_short
  (year, b1) ← int_at 4 bytes
  (month, b2) ← int_at 2 b1
  (day, b3) ← int_at 2 b2
  (hour, b4) ← int_at 2 b3
  ((min, sec, ms), b5) ← minutes_at b4
  (tz, b6) ← zone_at b5
  no_garbage b6
  ok (record {
    year = year;
    month = month;
    day = day;
    hour = hour;
    min = min;
    sec = sec;
    ns = times 1000000 ms;
    tz = tz;
  })

unfoldable pub decode_asn1_time : RawValue → Result TimeError Time
decode_asn1_time value =
    if not value.is_compound && (value.class == 0)
    then (if value.tag == tag_utc_time
        then parse_utc_time value.bytes
        else if value.tag == tag_generalized_time
        then parse_generalized_time value.bytes
        else err not_a_time)
    else err not_a_time
