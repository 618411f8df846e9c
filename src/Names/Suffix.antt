-- ===== src/Names/Suffix.antt =====
-- What a watch item matches: the last labels of the name, one by one, are those of its domain.
use certspotter.Prelude.{
  ◌≡◌, ◌≢◌, refl, sym, ap, subst, ◌∙◌, ◌↔◌, ◌⊎◌, inl, inr, Bool, true, false, ◌||◌, List, [], ◌∷◌,
  ◌++◌, reverse, map, Bytes, bytes_equal, none, some, Bool-cases, arith, All,
}
use mathlib.Core.List.{reverse-append, reverse-reverse, reverse-cons}
use certspotter.Names.Text.{split_dots}
use certspotter.Names.Wildcard.{matches_wildcard_refl}
use certspotter.Names.Watchlist.{
  WatchItem, dns_label_matches, matches_from_end, matches_dns_name, matches_any, first_match,
  watch_list_matches, unparsable_dns_label_placeholder,
}

abbrev pub LabelsMatch : List Bytes → List Bytes → Type 0
LabelsMatch [] [] = Unit
LabelsMatch [] (w ∷ ws) = ⊥
LabelsMatch (c ∷ cs) [] = ⊥
LabelsMatch (c ∷ cs) (w ∷ ws) = (dns_label_matches c w ≡ true) × LabelsMatch cs ws

LabelsMatch-snoc :
    (cs ws : List Bytes) (c w : Bytes)
    → LabelsMatch cs ws
    → dns_label_matches c w ≡ true
    → LabelsMatch (cs ++ (c ∷ [])) (ws ++ (w ∷ []))
LabelsMatch-snoc [] [] c w m h = (h, tt)
LabelsMatch-snoc [] (w' ∷ ws) c w m h = absurd m
LabelsMatch-snoc (c' ∷ cs) [] c w m h = absurd m
LabelsMatch-snoc (c' ∷ cs) (w' ∷ ws) c w (p, m) h = (p, LabelsMatch-snoc cs ws c w m h)

LabelsMatch-reverse :
    (cs ws : List Bytes) → LabelsMatch cs ws → LabelsMatch (reverse cs) (reverse ws)
LabelsMatch-reverse [] [] m = tt
LabelsMatch-reverse [] (w ∷ ws) m = absurd m
LabelsMatch-reverse (c ∷ cs) [] m = absurd m
LabelsMatch-reverse (c ∷ cs) (w ∷ ws) (p, m) =
    rw (reverse-cons c, reverse-cons w)
      (LabelsMatch-snoc (reverse cs) (reverse ws) c w (LabelsMatch-reverse cs ws m) p)

from_end_sound :
    (name domain : List Bytes) (accept : Bool)
    → matches_from_end name domain accept ≡ true
    → (front back : List Bytes) × (name ≡ front ++ back)
      × LabelsMatch front domain
      × ((accept ≡ true) ⊎ (back ≡ []))
unfolding matches_from_end
from_end_sound name [] true h = ([], name, refl, tt, inl refl)
from_end_sound [] [] false h = ([], [], refl, tt, inr refl)
from_end_sound (c ∷ name) [] false h = cc
from_end_sound [] (w ∷ domain) accept h = cc
from_end_sound (c ∷ name) (w ∷ domain) accept h = elim (Bool-cases (dns_label_matches c w)) [
  | inr differ ↦ cc (rw differ at h)
  | inl same ↦
      let (front, back, e, m, end) = from_end_sound name domain accept (rw same at h) in
      (c ∷ front, back, rw e, (same, m), end)
]

from_end_complete :
    (front back domain : List Bytes) (accept : Bool)
    → LabelsMatch front domain
    → (accept ≡ true) ⊎ (back ≡ [])
    → matches_from_end (front ++ back) domain accept ≡ true
unfolding matches_from_end
from_end_complete [] back [] true m h = refl
from_end_complete [] back [] false m (inl h) = cc
from_end_complete [] back [] false m (inr h) = rw h
from_end_complete [] back (w ∷ domain) accept m h = absurd m
from_end_complete (c ∷ front) back [] accept m h = absurd m
from_end_complete (c ∷ front) back (w ∷ domain) accept (p, m) h =
    rw p (from_end_complete front back domain accept m h)

nil_of_reverse : (xs : List Bytes) → xs ≡ [] → reverse xs ≡ []
nil_of_reverse xs e = rw e

-- An item matches a name exactly when the name ends in labels that match the labels of the item's
-- domain, and nothing stands before them unless the item accepts subdomains.
pub matches_dns_name_iff :
    (item : WatchItem) (name : List Bytes)
    → (matches_dns_name item name ≡ true) ↔ (
        (front back : List Bytes) × (name ≡ front ++ back)
        × LabelsMatch back item.domain
        × ((item.accept_suffix ≡ true) ⊎ (front ≡ [])))
unfolding matches_dns_name
matches_dns_name_iff item name = (
  λ h.
      let (front, back, e, m, end) =
        from_end_sound (reverse name) (reverse item.domain) item.accept_suffix h in
      (
        reverse back,
        reverse front,
        sym (reverse-reverse name) ∙ ap reverse e ∙ reverse-append front back,
        subst (λ d. LabelsMatch (reverse front) d) (reverse-reverse item.domain)
            (LabelsMatch-reverse front (reverse item.domain) m),
        ends back end,
      ),
  λ (front, back, e, m, end).
      rw (e, reverse-append)
        (from_end_complete (reverse back) (reverse front) (reverse item.domain) item.accept_suffix
          (LabelsMatch-reverse back item.domain m) (ends front end)),
)
  where
    ends :
        (xs : List Bytes)
        → (item.accept_suffix ≡ true) ⊎ (xs ≡ [])
        → (item.accept_suffix ≡ true) ⊎ (reverse xs ≡ [])
    ends xs (inl a) = inl a
    ends xs (inr e) = inr (nil_of_reverse xs e)

or_true : (a b c : Bool) → (a || b || c || true) ≡ true
or_true a b c = ground arith

-- A label that could not be parsed, or that is redacted, matches every label of a watch item, and
-- a label without dots matches itself.
pub dns_label_matches_safe :
    (cert_label watch_label : Bytes)
    → (cert_label ≡ unparsable_dns_label_placeholder)
      ⊎ ((cert_label ≡ b'?' ∷ [])
          ⊎ ((cert_label ≡ b'*' ∷ [])
              ⊎ ((cert_label ≡ watch_label) × All (λ c. c ≢ b'.') cert_label)))
    → dns_label_matches cert_label watch_label ≡ true
unfolding dns_label_matches
dns_label_matches_safe c w (inl e) = rw e
dns_label_matches_safe c w (inr (inl e)) = rw e
dns_label_matches_safe c w (inr (inr (inl e))) = rw e
dns_label_matches_safe c w (inr (inr (inr (e, plain)))) =
    rw (← e, matches_wildcard_refl c plain)
      (or_true (bytes_equal c (b'*' ∷ [])) (bytes_equal c (b'?' ∷ []))
        (bytes_equal c unparsable_dns_label_placeholder))

none_matches :
    (item : WatchItem) (names : List Bytes)
    → (matches_any item (map split_dots names) ≡ false)
      ↔ All (λ name. matches_dns_name item (split_dots name) ≡ false) names
unfolding matches_any
none_matches item [] = (λ h. tt, λ h. refl)
none_matches item (name ∷ names) = elim (Bool-cases (matches_dns_name item (split_dots name))) [
  | inl found ↦ (λ h. cc (rw found at h), λ (p, ps). cc (found, p))
  | inr nothing ↦ (
    λ h. (nothing, (none_matches item names).0 (rw nothing at h)),
    λ (p, ps). rw nothing ((none_matches item names).1 ps),
  )
]

-- Nothing is found exactly when no item of the watch list matches any of the names.
pub watch_list_matches-none_iff :
    (items : List WatchItem) (names : List Bytes)
    → (watch_list_matches items names ≡ none)
      ↔ All (λ item. All (λ name. matches_dns_name item (split_dots name) ≡ false) names) items
unfolding watch_list_matches first_match
watch_list_matches-none_iff [] names = (λ h. tt, λ h. refl)
watch_list_matches-none_iff (item ∷ items) names =
    elim (Bool-cases (matches_any item (map split_dots names))) [
      | inl found ↦ (λ h. cc (rw found at h), λ (p, ps). cc (found, (none_matches item names).1 p))
      | inr nothing ↦ (
        λ h. (
          (none_matches item names).0 nothing,
          (watch_list_matches-none_iff items names).0 (rw nothing at h),
        ),
        λ (p, ps). rw nothing ((watch_list_matches-none_iff items names).1 ps),
      )
    ]

-- What is found is an item of the watch list that matches some name, and no item before it does.
pub watch_list_matches-some :
    (items : List WatchItem) (names : List Bytes) (item : WatchItem)
    → watch_list_matches items names ≡ some item
    → (front back : List WatchItem) × (items ≡ front ++ (item ∷ back))
      × All (λ earlier. matches_any earlier (map split_dots names) ≡ false) front
      × (matches_any item (map split_dots names) ≡ true)
unfolding watch_list_matches first_match
watch_list_matches-some [] names item h = cc
watch_list_matches-some (first ∷ items) names item h =
    elim (Bool-cases (matches_any first (map split_dots names))) [
      | inl found ↦
          let same : first ≡ item = cc (rw found at h) in ([], items, rw same, tt, rw same at found)
      | inr nothing ↦
          let (front, back, e, before, matched) =
            watch_list_matches-some items names item (rw nothing at h) in
          (first ∷ front, back, rw e, (nothing, before), matched)
    ]
