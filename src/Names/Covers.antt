-- ===== src/Names/Covers.antt =====
-- An ASCII name that `add_dns_san` is given is recorded, less an http prefix, and so is the part of it
-- before a null byte; text of IP addresses is not.
use certspotter.Prelude.{
  ◌≡◌, ◌≢◌, true, not, ◌&&◌, List, [], ◌∷◌, ◌++◌, Bytes, bytes_equal, bytes_equal_iff,
  bytes_equal_refl, Option, none, some, Bool-cases, ◌⊎◌, inl, inr,
}
use certspotter.Names.Text.{Library, before_byte}
use certspotter.Names.Identifiers.{
  Identifiers, is_ascii_string, trim_http_prefix, has_dns_name, append_dns_name, sanitize_dns_name,
  has_ip_address, append_ip_address, add_dns_name_value, add_ip_or, add_dns_san_final, add_front,
  add_dns_san_nonnull, add_dns_san,
}

abbrev pub Has : Identifiers → Bytes → Type 0
Has ids name = has_dns_name ids.dns_names name ≡ true

has-snoc_left :
    (names : List Bytes) (x y : Bytes)
    → has_dns_name names x ≡ true
    → has_dns_name (names ++ (y ∷ [])) x ≡ true
unfolding has_dns_name
has-snoc_left [] x y h = cc
has-snoc_left (name ∷ names) x y h = elim (Bool-cases (bytes_equal name x)) [
  | inl same ↦ rw same
  | inr differ ↦ rw differ (has-snoc_left names x y (rw differ at h))
]

has-snoc_right : (names : List Bytes) (y : Bytes) → has_dns_name (names ++ (y ∷ [])) y ≡ true
unfolding has_dns_name
has-snoc_right [] y = rw (bytes_equal_refl y)
has-snoc_right (name ∷ names) y = elim (Bool-cases (bytes_equal name y)) [
  | inl same ↦ rw same
  | inr differ ↦ rw differ (has-snoc_right names y)
]

append_keeps : (ids : Identifiers) (name x : Bytes) → Has ids x → Has (append_dns_name ids name) x
unfolding append_dns_name
append_keeps ids name x h =
    elim (Bool-cases (not (bytes_equal name []) && not (has_dns_name ids.dns_names name))) [
      | inl new ↦ rw new (has-snoc_left ids.dns_names x name h)
      | inr old ↦ rw old h
    ]

append-Has : (ids : Identifiers) (name : Bytes) → name ≢ [] → Has (append_dns_name ids name) name
unfolding append_dns_name
append-Has ids name n = elim (Bool-cases (bytes_equal name [])) [
  | inl empty ↦ absurd (n ((bytes_equal_iff name []).0 empty))
  | inr some_name ↦ elim (Bool-cases (has_dns_name ids.dns_names name)) [
    | inl known ↦ rw (some_name, known) known
    | inr unknown ↦ rw (some_name, unknown) (has-snoc_right ids.dns_names name)
  ]
]

module _ (lib : Library) where
  pub keeps-ip : (ids : Identifiers) (a x : Bytes) → Has ids x → Has (append_ip_address lib ids a) x
  unfolding append_ip_address
  keeps-ip ids a x h = elim (Bool-cases (has_ip_address lib ids.ip_addrs a)) [
    | inl known ↦ rw known h
    | inr unknown ↦ rw unknown h
  ]

  keeps-value : (ids : Identifiers) (v x : Bytes) → Has ids x → Has (add_dns_name_value lib ids v) x
  keeps-value ids v x h = elim (Bool-cases (is_ascii_string v)) [
    | inl ascii ↦ rw ascii (append_keeps ids _ x h)
    | inr other ↦ elim (Bool-cases (lib.valid_utf8 v)) [
      | inl utf8 ↦ rw (other, utf8) (append_keeps _ _ x (append_keeps ids _ x h))
      | inr latin1 ↦ rw (other, latin1) (append_keeps ids _ x h)
    ]
  ]

  keeps-ip_or :
      (ids otherwise : Identifiers) (o : Option Bytes) (x : Bytes)
      → Has ids x
      → Has otherwise x
      → Has (add_ip_or lib ids o otherwise) x
  keeps-ip_or ids otherwise none x h k = k
  keeps-ip_or ids otherwise (some a) x h k = keeps-ip ids a x h

  keeps-final : (ids : Identifiers) (v x : Bytes) → Has ids x → Has (add_dns_san_final lib ids v) x
  unfolding add_dns_san_final
  keeps-final ids v x h = keeps-ip_or ids _ (lib.parse_ip v) x h (keeps-value ids v x h)

  keeps-front :
      (add : Identifiers → Bytes → Identifiers)
      → ((ids : Identifiers) (v x : Bytes) → Has ids x → Has (add ids v) x)
      → (ids : Identifiers) (o : Option Bytes) (x : Bytes) → Has ids x
      → Has (add_front lib add ids o) x
  keeps-front add k ids none x h = h
  keeps-front add k ids (some v) x h = k ids v x h

  keeps-nonnull :
      (ids : Identifiers) (v x : Bytes) → Has ids x → Has (add_dns_san_nonnull lib ids v) x
  unfolding add_dns_san_nonnull
  keeps-nonnull ids v x h =
      keeps-final _ v x (keeps-front (add_dns_san_final lib) keeps-final ids _ x h)

  final-Has :
      (ids : Identifiers) (v : Bytes)
      → lib.parse_ip v ≡ none
      → is_ascii_string v ≡ true
      → sanitize_dns_name lib v ≢ []
      → Has (add_dns_san_final lib ids v) (sanitize_dns_name lib v)
  unfolding add_dns_san_final
  final-Has ids v ip ascii n = rw (ip, ascii) (append-Has ids (sanitize_dns_name lib v) n)

  nonnull-Has :
      (ids : Identifiers) (v : Bytes)
      → lib.parse_ip v ≡ none
      → is_ascii_string v ≡ true
      → sanitize_dns_name lib v ≢ []
      → Has (add_dns_san_nonnull lib ids v) (sanitize_dns_name lib v)
  unfolding add_dns_san_nonnull
  nonnull-Has ids v = final-Has _ v

  -- The text of a DNS name is the value less a leading http:// or https://, as `trim_http_prefix`
  -- cuts it off, or the part of that before the first null byte, which a careless validator would
  -- compare. Each of the two is recorded by `add_dns_san` in its sanitized form, when it is
  -- ASCII, no IP address, and not empty once it is sanitized. The value with its prefix need not
  -- be recorded.
  pub add_dns_san-covers :
      (ids : Identifiers) (value v : Bytes)
      → (v ≡ trim_http_prefix value) ⊎ (before_byte 0 (trim_http_prefix value) ≡ some v)
      → lib.parse_ip v ≡ none
      → is_ascii_string v ≡ true
      → sanitize_dns_name lib v ≢ []
      → Has (add_dns_san lib ids value) (sanitize_dns_name lib v)
  unfolding add_dns_san
  add_dns_san-covers ids value v (inl e) ip ascii n =
      rw e (nonnull-Has _ _ (rw e at ip) (rw e at ascii) (rw e at n))
  add_dns_san-covers ids value v (inr e) ip ascii n =
      rw e (keeps-nonnull _ _ _ (nonnull-Has ids v ip ascii n))

  pub add_dns_san-keeps :
      (ids : Identifiers) (value x : Bytes) → Has ids x → Has (add_dns_san lib ids value) x
  unfolding add_dns_san
  add_dns_san-keeps ids value x h =
      keeps-nonnull _ _ x (keeps-front (add_dns_san_nonnull lib) keeps-nonnull ids _ x h)

  -- A part of a DNS name that is looked up by its sanitized form: the value less an http prefix, or
  -- what stands in that before a null byte, if it is ASCII, no IP address, and not empty when it is
  -- sanitized.
  abbrev pub IsNamedBy : Bytes → Bytes → Type 0
  IsNamedBy v value =
      ((v ≡ trim_http_prefix value) ⊎ (before_byte 0 (trim_http_prefix value) ≡ some v))
      × (lib.parse_ip v ≡ none)
      × (is_ascii_string v ≡ true)
      × (sanitize_dns_name lib v ≢ [])
