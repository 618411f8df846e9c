-- ===== src/X509/Time/Printed.antt =====
-- Times as a certificate has them are read as what they say.
use certspotter.Prelude.{
  ℕ, ◌+◌, ◌-◌, ◌*◌, ◌/◌, ◌%◌, ◌<◌, ◌≤◌, ◌≡◌, refl, ap, ◌∙◌, inl, inr, Bool-cases, ok, true, false,
  [], ◌∷◌, Bytes, ok, ◌==◌, leb, some, pos, arith,
}
use certspotter.X509.Time.{
  Time, is_digit, digits, atoi, bytes_to_int, cut, int_at, zone_at, parse_utc_time, window, has_two,
  parse_generalized_time,
}

-- A number below 100 in two digits
abbrev pub two : ℕ → Bytes → Bytes
two n rest = (48 + n / 10) ∷ (48 + n % 10) ∷ rest

is_digit-of : (n : ℕ) → n < 10 → is_digit (48 + n) ≡ true
unfolding is_digit
is_digit-of n h = ground arith

digits-digit :
    (n v : ℕ) (rest : Bytes) → n < 10 → digits ((48 + n) ∷ rest) v ≡ digits rest (v * 10 + n)
unfolding digits
digits-digit n v rest h =
    let value : 48 + n - 48 ≡ n = omega arith in
    rw (is_digit-of n h) (ap (λ m. digits rest (v * 10 + m)) value)

-- A number that begins with a digit has no sign.
atoi-digit :
    (n value : ℕ) (rest : Bytes)
    → n < 10
    → digits rest n ≡ some value
    → atoi ((48 + n) ∷ rest) ≡ some (pos value)
unfolding atoi
atoi-digit n value rest h e =
    let no_minus : (48 + n) == 45 ≡ false = ground arith in
    let no_plus : (48 + n) == 43 ≡ false = ground arith in
    let read : digits ((48 + n) ∷ rest) 0 ≡ some value =
      digits-digit n 0 rest h ∙ ap (digits rest) (omega arith) ∙ e in
    rw (no_minus, no_plus, read) refl

bytes_to_int-digit :
    (n value : ℕ) (rest : Bytes)
    → n < 10
    → digits rest n ≡ some value
    → bytes_to_int ((48 + n) ∷ rest) ≡ ok (pos value)
unfolding bytes_to_int
bytes_to_int-digit n value rest h e = rw (bytes_to_int, atoi-digit n value rest h e) refl

int_at-two : (n : ℕ) (rest : Bytes) → n < 100 → int_at 2 (two n rest) ≡ ok (pos n, rest)
unfolding int_at cut digits
int_at-two n rest h =
    let ones = digits-digit (n % 10) (n / 10) [] (omega arith) in
    let value : n / 10 * 10 + n % 10 ≡ n = omega arith in
    let read =
      bytes_to_int-digit (n / 10) n ((48 + n % 10) ∷ []) (omega arith) (ones ∙ ap some value) in
    rw read refl

-- A number below 10000 in four digits
abbrev pub four : ℕ → Bytes → Bytes
four n rest = (48 + n / 1000) ∷ (48 + n / 100 % 10) ∷ (48 + n / 10 % 10) ∷ (48 + n % 10) ∷ rest

int_at-four : (n : ℕ) (rest : Bytes) → n < 10000 → int_at 4 (four n rest) ≡ ok (pos n, rest)
unfolding int_at cut digits
int_at-four n rest h =
    let all =
      digits-digit (n / 100 % 10) (n / 1000) ((48 + n / 10 % 10) ∷ (48 + n % 10) ∷ []) (omega arith)
      ∙ digits-digit (n / 10 % 10) (n / 1000 * 10 + n / 100 % 10) ((48 + n % 10) ∷ []) (omega arith)
      ∙ digits-digit (n % 10) ((n / 1000 * 10 + n / 100 % 10) * 10 + n / 10 % 10) []
          (omega arith) in
    let value : ((n / 1000 * 10 + n / 100 % 10) * 10 + n / 10 % 10) * 10 + n % 10 ≡ n =
      omega arith in
    let read =
      bytes_to_int-digit (n / 1000) n
        ((48 + n / 100 % 10) ∷ (48 + n / 10 % 10) ∷ (48 + n % 10) ∷ []) (omega arith)
        (all ∙ ap some value) in
    rw read refl

has_two-two : (n : ℕ) (rest : Bytes) → n < 100 → has_two (two n rest) ≡ true
has_two-two n rest h = is_digit-of (n / 10) (omega arith)

-- What stands behind the year, in both forms
abbrev pub day_and_time : ℕ → ℕ → ℕ → ℕ → ℕ → Bytes
day_and_time month day hour min sec = two month (two day (two hour (two min (two sec (b'Z' ∷ [])))))

abbrev pub utc_time_of : ℕ → ℕ → ℕ → ℕ → ℕ → ℕ → Time
utc_time_of year month day hour min sec = record {
  year = pos year;
  month = pos month;
  day = pos day;
  hour = pos hour;
  min = pos min;
  sec = pos sec;
  ns = pos 0;
  tz = pos 0;
}

window-of : (year : ℕ) → 1950 ≤ year → year < 2050 → window (pos (year % 100)) ≡ pos year
window-of year low high = elim (Bool-cases (leb 50 (year % 100))) [
  | inl late ↦ rw late (ap pos (grind arith))
  | inr early ↦ rw early (ap pos (grind arith))
]

module _ (month day hour min sec : ℕ) (hm : month < 100) (hd : day < 100) (hh : hour < 100)
    (hi : min < 100) (hs : sec < 100) where
  -- A UTCTime with seconds and a `Z`, of a year from 1950 to 2049, is read as that time.
  pub parse_utc_time-two :
      (year : ℕ)
      → 1950 ≤ year
      → year < 2050
      → parse_utc_time (two (year % 100) (day_and_time month day hour min sec))
        ≡ ok (utc_time_of year month day hour min sec)
  unfolding parse_utc_time zone_at
  parse_utc_time-two year low high =
      let h : year % 100 < 100 = omega arith in
      rw
        (
          int_at-two (year % 100) (day_and_time month day hour min sec) h,
          int_at-two month _ hm,
          int_at-two day _ hd,
          int_at-two hour _ hh,
          int_at-two min _ hi,
          has_two-two sec (b'Z' ∷ []) hs,
          int_at-two sec _ hs,
        )
        (ap (λ y. ok (record (utc_time_of year month day hour min sec) { year = y }))
          (window-of year low high))

  -- A GeneralizedTime with seconds, without a fraction, and with a `Z` is read as that time, whatever
  -- its year is below 10000.
  pub parse_generalized_time-four :
      (year : ℕ)
      → year < 10000
      → parse_generalized_time (four year (day_and_time month day hour min sec))
        ≡ ok (utc_time_of year month day hour min sec)
  unfolding parse_generalized_time zone_at
  parse_generalized_time-four year h =
      rw
        (
          int_at-four year (day_and_time month day hour min sec) h,
          int_at-two month _ hm,
          int_at-two day _ hd,
          int_at-two hour _ hh,
          has_two-two min (two sec (b'Z' ∷ [])) hi,
          int_at-two min _ hi,
          has_two-two sec (b'Z' ∷ []) hs,
          int_at-two sec _ hs,
        )
        refl
