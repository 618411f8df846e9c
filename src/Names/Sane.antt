-- ===== src/Names/Sane.antt =====
-- Whatever a certificate holds, the DNS names that are kept are printable, not empty and distinct.
use certspotter.Prelude.{
  ℕ, ◌≡◌, ◌≢◌, refl, sym, true, false, List, [], ◌∷◌, ◌++◌, map, Bytes, bytes_equal,
  bytes_equal_iff, Option, none, some, Bool-cases, inl, inr, All,
}
use certspotter.Names.Text.{Library, join_dots, contains_byte}
use certspotter.Names.Watchlist.{unparsable_dns_label_placeholder}
use certspotter.Names.Identifiers.{
  Identifiers, new_identifiers, is_ascii_string, latin1_to_utf8, is_sane_dns_label_char,
  is_sane_dns_label, sane_or_placeholder, has_dns_name, append_dns_name, sanitize_dns_name,
  sanitize_unicode_dns_name, ascii_or_placeholder, has_ip_address, append_ip_address,
  add_dns_name_value, add_ip_or, add_dns_san_final, add_front, add_dns_san_nonnull, add_dns_san,
  add_cn_value, add_cn_final, add_cn_nonnull, add_cn,
}

-- A tab or a printable ASCII character
abbrev pub IsPrintable : Bytes → Type 0
IsPrintable s = All (λ ch. is_sane_dns_label_char ch ≡ true) s

abbrev pub Distinct : List Bytes → Type 0
Distinct [] = Unit
Distinct (name ∷ names) = (has_dns_name names name ≡ false) × Distinct names

pub record IsClean (ids : Identifiers) : Type 0 where
  pub printable : All IsPrintable ids.dns_names
  pub nonempty : All (λ name. name ≢ []) ids.dns_names
  pub distinct : Distinct ids.dns_names

All-snoc {ℓ κ} :
    {A : Type ℓ} (P : A → Type κ) (xs : List A) (x : A) → All P xs → P x → All P (xs ++ (x ∷ []))
All-snoc P [] x h p = (p, tt)
All-snoc P (y ∷ xs) x (q, h) p = (q, All-snoc P xs x h p)

All-join {κ} : (P : ℕ → Type κ) (xs ys : Bytes) → All P xs → All P ys → All P (xs ++ ys)
All-join P [] ys h k = k
All-join P (x ∷ xs) ys (p, h) k = (p, All-join P xs ys h k)

has_dns_name-snoc :
    (names : List Bytes) (x y : Bytes)
    → has_dns_name names x ≡ false
    → bytes_equal y x ≡ false
    → has_dns_name (names ++ (y ∷ [])) x ≡ false
unfolding has_dns_name
has_dns_name-snoc [] x y h e = rw e
has_dns_name-snoc (name ∷ names) x y h e = elim (Bool-cases (bytes_equal name x)) [
  | inl same ↦ cc (rw same at h)
  | inr differ ↦ rw differ (has_dns_name-snoc names x y (rw differ at h) e)
]

equal_sym : (x y : Bytes) → bytes_equal x y ≡ false → bytes_equal y x ≡ false
equal_sym x y h = elim (Bool-cases (bytes_equal y x)) [
  | inr differ ↦ differ
  | inl same ↦ cc (h, (bytes_equal_iff x y).1 (sym ((bytes_equal_iff y x).0 same)))
]

Distinct-snoc :
    (names : List Bytes) (y : Bytes)
    → Distinct names
    → has_dns_name names y ≡ false
    → Distinct (names ++ (y ∷ []))
unfolding has_dns_name
Distinct-snoc [] y d h = (refl, tt)
Distinct-snoc (name ∷ names) y (n, d) h = elim (Bool-cases (bytes_equal name y)) [
  | inl same ↦ cc (rw same at h)
  | inr differ ↦ (
    has_dns_name-snoc names name y n (equal_sym name y differ),
    Distinct-snoc names y d (rw differ at h),
  )
]

append_dns_name-IsClean :
    {ids : Identifiers} (name : Bytes)
    → IsClean ids
    → IsPrintable name
    → IsClean (append_dns_name ids name)
unfolding append_dns_name
append_dns_name-IsClean {ids} name c p = elim (Bool-cases (bytes_equal name [])) [
  | inl empty ↦ rw empty c
  | inr some_name ↦ elim (Bool-cases (has_dns_name ids.dns_names name)) [
    | inl known ↦ rw (some_name, known) c
    | inr unknown ↦
        rw (some_name, unknown)
          (record {
            printable = All-snoc IsPrintable ids.dns_names name c.printable p;
            nonempty =
                All-snoc (λ n. n ≢ []) ids.dns_names name c.nonempty
                  (λ e. cc (some_name, (bytes_equal_iff name []).1 e));
            distinct = Distinct-snoc ids.dns_names name c.distinct unknown;
          })
  ]
]

is_sane_dns_label-IsPrintable : (label : Bytes) → is_sane_dns_label label ≡ true → IsPrintable label
unfolding is_sane_dns_label
is_sane_dns_label-IsPrintable [] h = tt
is_sane_dns_label-IsPrintable (ch ∷ label) h = elim (Bool-cases (is_sane_dns_label_char ch)) [
  | inl sane ↦ (sane, is_sane_dns_label-IsPrintable label (rw sane at h))
  | inr bad ↦ cc (rw bad at h)
]

placeholder-IsPrintable : IsPrintable unparsable_dns_label_placeholder
placeholder-IsPrintable =
    is_sane_dns_label-IsPrintable unparsable_dns_label_placeholder
      (unfold is_sane_dns_label is_sane_dns_label_char in refl)

sane_or_placeholder-IsPrintable : (label : Bytes) → IsPrintable (sane_or_placeholder label)
unfolding sane_or_placeholder
sane_or_placeholder-IsPrintable label = elim (Bool-cases (is_sane_dns_label label)) [
  | inl sane ↦ rw sane (is_sane_dns_label-IsPrintable label sane)
  | inr bad ↦ rw bad placeholder-IsPrintable
]

ascii_or_placeholder-IsPrintable :
    (lib : Library) (o : Option Bytes) → IsPrintable (ascii_or_placeholder lib o)
ascii_or_placeholder-IsPrintable lib none = placeholder-IsPrintable
ascii_or_placeholder-IsPrintable lib (some label) = elim (Bool-cases (is_sane_dns_label label)) [
  | inl sane ↦ rw sane (is_sane_dns_label-IsPrintable label sane)
  | inr bad ↦ rw bad placeholder-IsPrintable
]

join_dots-IsPrintable :
    (f : Bytes → Bytes) (labels : List Bytes)
    → ((label : Bytes) → IsPrintable (f label))
    → IsPrintable (join_dots (map f labels))
unfolding join_dots
join_dots-IsPrintable f [] h = tt
join_dots-IsPrintable f (label ∷ []) h = h label
join_dots-IsPrintable f (label ∷ next ∷ labels) h =
    All-join (λ ch. is_sane_dns_label_char ch ≡ true) (f label) _ (h label)
      (unfold is_sane_dns_label_char in refl, join_dots-IsPrintable f (next ∷ labels) h)

module _ (lib : Library) where
  Clean-front :
      (add : Identifiers → Bytes → Identifiers)
      → ((ids : Identifiers) (value : Bytes) → IsClean ids → IsClean (add ids value))
      → (ids : Identifiers) (front : Option Bytes) → IsClean ids
      → IsClean (add_front lib add ids front)
  Clean-front add h ids none c = c
  Clean-front add h ids (some front) c = h ids front c

  pub Clean-ip :
      (ids : Identifiers) (addr : Bytes) → IsClean ids → IsClean (append_ip_address lib ids addr)
  unfolding append_ip_address
  Clean-ip ids addr c = elim (Bool-cases (has_ip_address lib ids.ip_addrs addr)) [
    | inl known ↦ rw known c
    | inr unknown ↦
        rw unknown
          (record { printable = c.printable; nonempty = c.nonempty; distinct = c.distinct })
  ]

  Clean-ip_or :
      (ids otherwise : Identifiers) (addr : Option Bytes)
      → IsClean ids
      → IsClean otherwise
      → IsClean (add_ip_or lib ids addr otherwise)
  Clean-ip_or ids otherwise none c d = d
  Clean-ip_or ids otherwise (some addr) c d = Clean-ip ids addr c

  sanitized : (value : Bytes) → IsPrintable (sanitize_dns_name lib value)
  unfolding sanitize_dns_name
  sanitized value = join_dots-IsPrintable sane_or_placeholder _ sane_or_placeholder-IsPrintable

  sanitized_unicode : (value : Bytes) → IsPrintable (sanitize_unicode_dns_name lib value)
  unfolding sanitize_unicode_dns_name
  sanitized_unicode value =
      join_dots-IsPrintable (λ label. ascii_or_placeholder lib (lib.to_ascii label)) _
        (λ label. ascii_or_placeholder-IsPrintable lib (lib.to_ascii label))

  Clean-value :
      (ids : Identifiers) (value : Bytes) → IsClean ids → IsClean (add_dns_name_value lib ids value)
  Clean-value ids value c = elim (Bool-cases (is_ascii_string value)) [
    | inl ascii ↦ rw ascii (append_dns_name-IsClean _ c (sanitized value))
    | inr other ↦ elim (Bool-cases (lib.valid_utf8 value)) [
      | inl utf8 ↦
          rw (other, utf8)
            (append_dns_name-IsClean _ (append_dns_name-IsClean _ c (sanitized_unicode value))
              (sanitized_unicode (latin1_to_utf8 value)))
      | inr latin1 ↦
          rw (other, latin1)
            (append_dns_name-IsClean _ c (sanitized_unicode (latin1_to_utf8 value)))
    ]
  ]

  Clean-san_final :
      (ids : Identifiers) (value : Bytes) → IsClean ids → IsClean (add_dns_san_final lib ids value)
  unfolding add_dns_san_final
  Clean-san_final ids value c = Clean-ip_or ids _ (lib.parse_ip value) c (Clean-value ids value c)

  Clean-san_nonnull :
      (ids : Identifiers) (value : Bytes)
      → IsClean ids
      → IsClean (add_dns_san_nonnull lib ids value)
  unfolding add_dns_san_nonnull
  Clean-san_nonnull ids value c =
      Clean-san_final _ value (Clean-front (add_dns_san_final lib) Clean-san_final ids _ c)

  -- Adding a DNS name of a certificate, whatever bytes it has, keeps the names that are recorded
  -- printable, not empty and distinct.
  pub add_dns_san-IsClean :
      (ids : Identifiers) (value : Bytes) → IsClean ids → IsClean (add_dns_san lib ids value)
  unfolding add_dns_san
  add_dns_san-IsClean ids value c =
      Clean-san_nonnull _ _ (Clean-front (add_dns_san_nonnull lib) Clean-san_nonnull ids _ c)

  Clean-cn_value :
      (ids : Identifiers) (value : Bytes) → IsClean ids → IsClean (add_cn_value lib ids value)
  Clean-cn_value ids value c = elim (Bool-cases (contains_byte b' ' value)) [
    | inl space ↦ rw space c
    | inr plain ↦ rw plain (append_dns_name-IsClean _ c (sanitized_unicode value))
  ]

  Clean-cn_final :
      (ids : Identifiers) (value : Bytes) → IsClean ids → IsClean (add_cn_final lib ids value)
  unfolding add_cn_final
  Clean-cn_final ids value c = Clean-ip_or ids _ (lib.parse_ip value) c (Clean-cn_value ids value c)

  Clean-cn_nonnull :
      (ids : Identifiers) (value : Bytes) → IsClean ids → IsClean (add_cn_nonnull lib ids value)
  unfolding add_cn_nonnull
  Clean-cn_nonnull ids value c =
      Clean-cn_final _ value (Clean-front (add_cn_final lib) Clean-cn_final ids _ c)

  -- `add_cn` keeps the identifiers clean: every DNS name is printable, none is empty and none is there
  -- twice.
  pub add_cn-IsClean :
      (ids : Identifiers) (value : Bytes) → IsClean ids → IsClean (add_cn lib ids value)
  unfolding add_cn
  add_cn-IsClean ids value c =
      Clean-cn_nonnull _ _ (Clean-front (add_cn_nonnull lib) Clean-cn_nonnull ids _ c)

  pub IsClean-new : IsClean new_identifiers
  IsClean-new = record { printable = tt; nonempty = tt; distinct = tt }
