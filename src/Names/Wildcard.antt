-- ===== src/Names/Wildcard.antt =====
-- `MatchesWildcard` of helpers.go, and that it decides what a wildcard pattern means.
use certspotter.Prelude.{
  ℕ, ◌≡◌, ◌≢◌, refl, ◌↔◌, Bool, true, false, not, ◌&&◌, [], ◌∷◌, Bytes, ◌==◌, ==_iff, ==_refl,
  Bool-cases, inl, inr, if◌then◌else◌, arith, All,
}

unfoldable pub matches_wildcard : Bytes → Bytes → Bool
matches_wildcard [] [] = true
matches_wildcard (d ∷ dns_name) [] = false
matches_wildcard [] (p ∷ pattern_rest) =
    let rest = matches_wildcard [] pattern_rest in if p == b'*' then rest else false
matches_wildcard (d ∷ dns_name) (p ∷ pattern_rest) = elim (p == b'*') [
  | true ↦
      let taken = matches_wildcard dns_name (p ∷ pattern_rest) in
      let skipped = matches_wildcard (d ∷ dns_name) pattern_rest in
      if not (d == b'.') && taken then true else skipped
  | false ↦ let rest = matches_wildcard dns_name pattern_rest in if p == d then rest else false
]

-- A star stands for any run of characters but dots, and every other character for itself.
pub data Matches : Bytes → Bytes → Type 0 where
  done : Matches [] []
  char :
      {c : ℕ} {dns_name pattern_rest : Bytes}
      → c ≢ b'*'
      → Matches dns_name pattern_rest
      → Matches (c ∷ dns_name) (c ∷ pattern_rest)
  skip :
      {star : ℕ} {dns_name pattern_rest : Bytes}
      → star ≡ b'*'
      → Matches dns_name pattern_rest
      → Matches dns_name (star ∷ pattern_rest)
  take :
      {star d : ℕ} {dns_name pattern_rest : Bytes}
      → star ≡ b'*'
      → d ≢ b'.'
      → Matches dns_name (star ∷ pattern_rest)
      → Matches (d ∷ dns_name) (star ∷ pattern_rest)

Matches-refl : (s : Bytes) → All (λ c. c ≢ b'.') s → Matches s s
Matches-refl [] h = Matches.done
Matches-refl (c ∷ s) (n, h) = elim (Bool-cases (c == b'*')) [
  | inl star ↦
      let e : c ≡ b'*' = (==_iff c _).0 star in Matches.take e n (Matches.skip e (Matches-refl s h))
  | inr other ↦ Matches.char (λ e. cc (other, (==_iff c b'*').1 e)) (Matches-refl s h)
]

and_true : (a b : Bool) → (not a && b) ≡ true → (a ≡ false) × (b ≡ true)
and_true a b h = ground arith

either : (b : Bool) → (if b then true else true) ≡ true
either b = ground arith

at_star :
    (d p : ℕ) (s ps : Bytes)
    → (p == b'*') ≡ true
    → matches_wildcard (d ∷ s) (p ∷ ps) ≡ (
        if not (d == b'.') && matches_wildcard s (p ∷ ps)
        then true
        else matches_wildcard (d ∷ s) ps)
unfolding matches_wildcard
at_star d p s ps e = rw (e, matches_wildcard)

at_other :
    (d p : ℕ) (s ps : Bytes)
    → (p == b'*') ≡ false
    → matches_wildcard (d ∷ s) (p ∷ ps) ≡ (if p == d then matches_wildcard s ps else false)
unfolding matches_wildcard
at_other d p s ps e = rw (e, matches_wildcard)

at_end :
    (p : ℕ) (ps : Bytes)
    → (p == b'*') ≡ true
    → matches_wildcard [] (p ∷ ps) ≡ matches_wildcard [] ps
unfolding matches_wildcard
at_end p ps e = rw e

matches_wildcard_sound : (s p : Bytes) → matches_wildcard s p ≡ true → Matches s p
matches_wildcard_sound [] [] h = Matches.done
matches_wildcard_sound (d ∷ s) [] h = unfold matches_wildcard in cc
matches_wildcard_sound [] (p ∷ ps) h = elim (Bool-cases (p == b'*')) [
  | inl star ↦
      Matches.skip ((==_iff p _).0 star) (matches_wildcard_sound [] ps (rw (at_end p ps star) at h))
  | inr other ↦ unfold matches_wildcard in cc (rw other at h)
]
matches_wildcard_sound (d ∷ s) (p ∷ ps) h = elim (Bool-cases (p == b'*')) [
  | inr other ↦ elim (Bool-cases (p == d)) [
    | inr differ ↦ cc (rw (at_other d p s ps other, differ) at h)
    | inl same ↦
        let e : p ≡ d = (==_iff p d).0 same in
        rw (← e) (
          Matches.char {c = p} (λ star. cc (other, (==_iff p b'*').1 star))
            (matches_wildcard_sound s ps (rw (at_other d p s ps other, same) at h)))
  ]
  | inl star ↦ elim (Bool-cases (not (d == b'.') && matches_wildcard s (p ∷ ps))) [
    | inl taken ↦
        let (plain, rest) = and_true (d == b'.') (matches_wildcard s (p ∷ ps)) taken in
        Matches.take ((==_iff p _).0 star) (λ dot. cc (plain, (==_iff d b'.').1 dot))
          (matches_wildcard_sound s (p ∷ ps) rest)
    | inr stop ↦
        Matches.skip ((==_iff p _).0 star)
          (matches_wildcard_sound (d ∷ s) ps (rw (at_star d p s ps star, stop) at h))
  ]
]

matches_wildcard_complete : {s p : Bytes} → Matches s p → matches_wildcard s p ≡ true
matches_wildcard_complete Matches.done = unfold matches_wildcard in refl
matches_wildcard_complete (Matches.char {c = c} {dns_name = s} {pattern_rest = ps} h m) =
    let other : (c == b'*') ≡ false = ground arith in
    rw (at_other c c s ps other, ==_refl, matches_wildcard_complete m)
matches_wildcard_complete (Matches.skip {star = p} {dns_name = []} {pattern_rest = ps} e m) =
    rw (at_end p ps ((==_iff p _).1 e)) (matches_wildcard_complete m)
matches_wildcard_complete (Matches.skip {star = p} {dns_name = d ∷ s} {pattern_rest = ps} e m) =
    rw (at_star d p s ps ((==_iff p _).1 e), matches_wildcard_complete m)
      (either (not (d == b'.') && matches_wildcard s (p ∷ ps)))
matches_wildcard_complete
      (Matches.take {star = p} {d = d} {dns_name = s} {pattern_rest = ps} e n m) =
    let plain : (d == b'.') ≡ false = ground arith in
    rw (at_star d p s ps ((==_iff p _).1 e), plain, matches_wildcard_complete m)

-- `MatchesWildcard` answers true exactly when the name is an instance of the pattern.
pub matches_wildcard_iff : (s p : Bytes) → (matches_wildcard s p ≡ true) ↔ Matches s p
matches_wildcard_iff s p = (matches_wildcard_sound s p, matches_wildcard_complete)

-- A label, which has no dot, matches itself.
pub matches_wildcard_refl : (s : Bytes) → All (λ c. c ≢ b'.') s → matches_wildcard s s ≡ true
matches_wildcard_refl s h = matches_wildcard_complete (Matches-refl s h)
