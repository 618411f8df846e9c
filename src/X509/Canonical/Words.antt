-- ===== src/X509/Canonical/Words.antt =====
-- The canonical form of a string in words: what stands between white space, joined by single spaces.
use certspotter.Prelude.{
  ℕ, ◌≡◌, refl, sym, ap, ◌∙◌, Bool, true, false, not, List, [], ◌∷◌, ◌++◌, Bytes, if◌then◌else◌,
  Bool-cases, inl, inr, append_assoc, append-nil,
}
use certspotter.X509.Canonical.{
  space, is_white, to_lowercase, drop_last, canonical_loop, canonicalize_rdn_string,
}

abbrev pub is_empty : Bytes → Bool
is_empty [] = true
is_empty (b ∷ word) = false

abbrev pub word_list : Bytes → List Bytes
word_list [] = []
word_list (b ∷ word) = (b ∷ word) ∷ []

-- The words of a text in lower case, the first of which goes on a word that has begun
unfoldable pub words_from : Bytes → Bytes → List Bytes
words_from word [] = word_list word
words_from word (ch ∷ text) =
    let next = words_from [] text in
    let longer = words_from (word ++ (to_lowercase ch ∷ [])) text in
    if is_white ch then word_list word ++ next else longer

unfoldable pub join_words : List Bytes → Bytes
join_words [] = []
join_words (word ∷ []) = word
join_words (word ∷ other ∷ words) = word ++ (space ∷ join_words (other ∷ words))

-- Each word with a space behind it
unfoldable spaced : List Bytes → Bytes
spaced [] = []
spaced (word ∷ words) = word ++ (space ∷ spaced words)

drop_last-append :
    (front : Bytes) (b : ℕ) (back : Bytes)
    → drop_last (front ++ (b ∷ back)) ≡ front ++ drop_last (b ∷ back)
unfolding drop_last
drop_last-append [] b back = refl
drop_last-append (a ∷ []) b back = refl
drop_last-append (a ∷ c ∷ front) b back = ap (λ l. a ∷ l) (drop_last-append (c ∷ front) b back)

drop_last-spaced : (words : List Bytes) → drop_last (spaced words) ≡ join_words words
unfolding spaced join_words drop_last
drop_last-spaced [] = refl
drop_last-spaced (word ∷ []) = drop_last-append word space [] ∙ append-nil word
drop_last-spaced (word ∷ other ∷ words) =
    drop_last-append word space (spaced (other ∷ words))
    ∙ ap (λ l. word ++ l)
        (behind_space other words ∙ ap (λ l. space ∷ l) (drop_last-spaced (other ∷ words)))
  where
    behind_space :
        (other : Bytes) (words : List Bytes)
        → drop_last (space ∷ spaced (other ∷ words)) ≡ space ∷ drop_last (spaced (other ∷ words))
    behind_space [] words = refl
    behind_space (b ∷ other) words = refl

spaced-append :
    (done : List Bytes) (word : Bytes)
    → (spaced done ++ word) ++ (space ∷ []) ≡ spaced (done ++ (word ∷ [])) ++ []
unfolding spaced
spaced-append [] word = sym (append-nil (word ++ (space ∷ [])))
spaced-append (other ∷ done) word =
    ap (λ l. l ++ (space ∷ [])) (append_assoc other (space ∷ spaced done) word)
    ∙ append_assoc other (space ∷ (spaced done ++ word)) (space ∷ [])
    ∙ ap (λ l. other ++ (space ∷ l)) (spaced-append done word)
    ∙ sym (append_assoc other (space ∷ spaced (done ++ (word ∷ []))) [])

spaced-join :
    (done : List Bytes) (word : Bytes) → spaced done ++ word ≡ join_words (done ++ (word ∷ []))
unfolding spaced join_words
spaced-join [] word = refl
spaced-join (other ∷ []) word = append_assoc other (space ∷ []) word
spaced-join (other ∷ next ∷ done) word =
    append_assoc other (space ∷ spaced (next ∷ done)) word
    ∙ ap (λ l. other ++ (space ∷ l)) (spaced-join (next ∷ done) word)

is_empty-append : (word : Bytes) (b : ℕ) → is_empty (word ++ (b ∷ [])) ≡ false
is_empty-append [] b = refl
is_empty-append (a ∷ word) b = refl

-- The loop of `canonicalizeRDNString`, in the middle of a word that has begun
canonical_loop-words :
    (from word : Bytes) (done : List Bytes)
    → canonical_loop from (is_empty word) (spaced done ++ word)
      ≡ join_words (done ++ words_from word from)
unfolding canonical_loop words_from
canonical_loop-words [] [] done =
    ap drop_last (append-nil (spaced done))
    ∙ drop_last-spaced done
    ∙ ap join_words (sym (append-nil done))
canonical_loop-words [] (b ∷ word) done = spaced-join done (b ∷ word)
canonical_loop-words (ch ∷ from) word done = elim (Bool-cases (is_white ch)) [
  | inl white ↦ rw white (
      at_white word (canonical_loop-words from [] done)
        (canonical_loop-words from [] (done ++ (word ∷ []))))
  | inr other ↦
      let longer = canonical_loop-words from (word ++ (to_lowercase ch ∷ [])) done in
      rw other (
        ap (canonical_loop from false) (append_assoc (spaced done) word (to_lowercase ch ∷ []))
        ∙ (rw (is_empty-append word (to_lowercase ch)) at longer))
]
  where
    at_white :
        (word : Bytes)
        → canonical_loop from true (spaced done ++ []) ≡ join_words (done ++ words_from [] from)
        → canonical_loop from true (spaced (done ++ (word ∷ [])) ++ [])
          ≡ join_words ((done ++ (word ∷ [])) ++ words_from [] from)
        → canonical_loop from true (
            if not (is_empty word)
            then (spaced done ++ word) ++ (space ∷ [])
            else spaced done ++ word)
          ≡ join_words (done ++ (word_list word ++ words_from [] from))
    at_white [] same next = same
    at_white (b ∷ word) same next =
        ap (canonical_loop from true) (spaced-append done (b ∷ word))
        ∙ next
        ∙ ap join_words (append_assoc done ((b ∷ word) ∷ []) (words_from [] from))

-- The canonical form of a string is its words in lower case, joined by single spaces: white space
-- before the first word and behind the last is dropped, and other white space is one space.
pub canonicalize_rdn_string-eq_words :
    (from : Bytes) → canonicalize_rdn_string from ≡ join_words (words_from [] from)
unfolding canonicalize_rdn_string spaced
canonicalize_rdn_string-eq_words from = canonical_loop-words from [] []
