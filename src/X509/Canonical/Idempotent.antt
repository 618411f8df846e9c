-- ===== src/X509/Canonical/Idempotent.antt =====
-- The canonical form of a canonical string is the string itself.
use certspotter.Prelude.{
  ℕ, ◌≡◌, ◌≢◌, refl, sym, ap, ◌∙◌, false, ◌&&◌, List, [], ◌∷◌, ◌++◌, All, Bytes, leb, Bool-cases,
  inl, inr, append_assoc, append-nil, arith,
}
use certspotter.X509.Canonical.{space, is_white, to_lowercase, canonicalize_rdn_string}
use certspotter.X509.Canonical.Words.{
  word_list, words_from, join_words, canonicalize_rdn_string-eq_words,
}

-- A character of a word
abbrev IsPlain : ℕ → Type 0
IsPlain ch = (is_white ch ≡ false) × (to_lowercase ch ≡ ch)

abbrev IsWord : Bytes → Type 0
IsWord word = (word ≢ []) × All IsPlain word

to_lowercase-IsPlain : (ch : ℕ) → is_white ch ≡ false → IsPlain (to_lowercase ch)
unfolding is_white to_lowercase
to_lowercase-IsPlain ch h = elim (Bool-cases (leb 65 ch && leb ch 90)) [
  | inl upper ↦ rw upper (grind arith, grind arith)
  | inr other ↦ rw other (h, rw other refl)
]

append-All {ℓ κ} :
    {A : Type ℓ} (P : A → Type κ) (xs ys : List A) → All P xs → All P ys → All P (xs ++ ys)
append-All P [] ys p q = q
append-All P (x ∷ xs) ys (h, p) q = (h, append-All P xs ys p q)

word_list-All : (word : Bytes) → All IsPlain word → All IsWord (word_list word)
word_list-All [] p = tt
word_list-All (b ∷ word) p = (((λ e. cc), p), tt)

words_from-All : (word text : Bytes) → All IsPlain word → All IsWord (words_from word text)
unfolding words_from
words_from-All word [] p = word_list-All word p
words_from-All word (ch ∷ text) p = elim (Bool-cases (is_white ch)) [
  | inl white ↦
      rw white
        (append-All IsWord (word_list word) _ (word_list-All word p) (words_from-All [] text tt))
  | inr other ↦ rw other (
      words_from-All (word ++ (to_lowercase ch ∷ [])) text
        (append-All IsPlain word _ p (to_lowercase-IsPlain ch other, tt)))
]

words_from-append :
    (begun word text : Bytes)
    → All IsPlain word
    → words_from begun (word ++ text) ≡ words_from (begun ++ word) text
unfolding words_from
words_from-append begun [] text p = ap (λ l. words_from l text) (sym (append-nil begun))
words_from-append begun (ch ∷ word) text ((plain, lower), p) =
    rw (plain, lower)
      (words_from-append (begun ++ (ch ∷ [])) word text p
        ∙ ap (λ l. words_from l text) (append_assoc begun (ch ∷ []) word))

word_list-eq : (word : Bytes) → word ≢ [] → word_list word ≡ word ∷ []
word_list-eq [] n = absurd (n refl)
word_list-eq (b ∷ word) n = refl

words_from-join_words :
    (words : List Bytes) → All IsWord words → words_from [] (join_words words) ≡ words
unfolding words_from join_words is_white
words_from-join_words [] h = refl
words_from-join_words (word ∷ []) ((n, p), h) =
    ap (words_from []) (sym (append-nil word))
    ∙ words_from-append [] word [] p
    ∙ word_list-eq word n
words_from-join_words (word ∷ other ∷ words) ((n, p), h) =
    words_from-append [] word (space ∷ join_words (other ∷ words)) p
    ∙ ap (λ l. l ++ words_from [] (join_words (other ∷ words))) (word_list-eq word n)
    ∙ ap (λ l. word ∷ l) (words_from-join_words (other ∷ words) h)

-- To canonicalize a string that is canonicalized changes nothing.
pub canonicalize_rdn_string-canonicalize :
    (from : Bytes)
    → canonicalize_rdn_string (canonicalize_rdn_string from) ≡ canonicalize_rdn_string from
canonicalize_rdn_string-canonicalize from =
    let e = canonicalize_rdn_string-eq_words from in
    canonicalize_rdn_string-eq_words (canonicalize_rdn_string from)
    ∙ ap join_words (
        ap (words_from []) e
        ∙ words_from-join_words (words_from [] from) (words_from-All [] from tt))
    ∙ sym e
