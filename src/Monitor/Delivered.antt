-- ===== src/Monitor/Delivered.antt =====
-- `downloadEntries` sends the entries of the log in order, without a gap, and in the end all.
use certspotter.Prelude.{
  ℕ, zero, suc, ◌+◌, ◌%◌, ◌^◌, ◌<◌, ◌≤◌, ◌≡◌, refl, sym, ap, ◌∙◌, Bool, true, not, ◌&&◌, List, [],
  ◌∷◌, ◌++◌, Result, ok, err, panic, ltb, if◌then◌else◌, Bool-cases, inl, inr, length,
  length-append, arith,
}
use certspotter.Ct.Client.{ClientError, GetEntriesItem}
use certspotter.Monitor.Download.{
  context_done, send_entries, in_front, after_fetch, next_entries, next_entries-bounds,
  download_entries,
}

module _ (log : ℕ → GetEntriesItem) where
  -- The entries of the log from a position on, that many
  unfoldable pub range : ℕ → ℕ → List GetEntriesItem
  range start zero = []
  range start (suc n) = log start ∷ range (suc start) n

  range-append : (start m n : ℕ) → range start m ++ range (start + m) n ≡ range start (m + n)
  unfolding range
  range-append start zero n =
      let start_at : start + 0 ≡ start = omega arith in
      let all : 0 + n ≡ n = omega arith in rw (start_at, all) refl
  range-append start (suc m) n =
      let start_at : start + suc m ≡ suc start + m = omega arith in
      let all : suc m + n ≡ suc (m + n) = omega arith in
      rw (start_at, all) (ap (λ l. log start ∷ l) (range-append (suc start) m n))

  pub range-length : (start n : ℕ) → length (range start n) ≡ n
  unfolding range
  range-length start zero = refl
  range-length start (suc n) = ap suc (range-length (suc start) n)

  range-prefix :
      (start n : ℕ) (front back : List GetEntriesItem)
      → front ++ back ≡ range start n
      → front ≡ range start (length front)
  unfolding range
  range-prefix start n [] back e = refl
  range-prefix start zero (entry ∷ front) back e = cc
  range-prefix start (suc n) (entry ∷ front) back e =
      let first : entry ≡ log start = cc in
      let others : front ++ back ≡ range (suc start) n = cc in
      rw first (ap (λ l. log start ∷ l) (range-prefix (suc start) n front back others))

  module _ (stops : ℕ → Bool) where
    send_entries-prefix :
        (entries : List GetEntriesItem) (look : ℕ)
        → (back : List GetEntriesItem) × ((send_entries stops entries look).0 ++ back ≡ entries)
    unfolding send_entries
    send_entries-prefix [] look = ([], refl)
    send_entries-prefix (entry ∷ entries) look = elim (Bool-cases (stops look)) [
      | inl stop ↦ (entry ∷ entries, rw stop refl)
      | inr go ↦ elim (Bool-cases (stops (look + 1))) [
        | inl stop ↦ (entry ∷ entries, rw (go, stop) refl)
        | inr go' ↦
            let (back, e) = send_entries-prefix entries (look + 2) in
            (back, rw (go, go') (ap (λ l. entry ∷ l) e))
      ]
    ]

    pub send_entries-all :
        (entries : List GetEntriesItem) (look : ℕ)
        → (send_entries stops entries look).2 ≡ true
        → (send_entries stops entries look).0 ≡ entries
    unfolding send_entries
    send_entries-all [] look all = refl
    send_entries-all (entry ∷ entries) look all = elim (Bool-cases (stops look)) [
      | inl stop ↦ cc (rw stop at all)
      | inr go ↦ elim (Bool-cases (stops (look + 1))) [
        | inl stop ↦ cc (rw (go, stop) at all)
        | inr go' ↦
            rw (go, go')
              (ap (λ l. entry ∷ l) (send_entries-all entries (look + 2) (rw (go, go') at all)))
      ]
    ]

    module _ (fetch : ℕ → ℕ → Result ClientError (List GetEntriesItem))
        (honest : (start last : ℕ) (entries : List GetEntriesItem)
          → fetch start last ≡ ok entries
          → entries ≡ range start (length entries)) where
      pub next_entries-ok :
          (begin end : ℕ) (entries : List GetEntriesItem)
          → begin < end
          → end < 2 ^ 64
          → next_entries stops fetch begin end ≡ ok entries
          → (entries ≡ range begin (length entries))
            × (0 < length entries)
            × (begin + length entries ≤ end)
      next_entries-ok begin end entries h bound e =
          let (fetched, some_entries, few) =
            next_entries-bounds stops fetch begin end entries h bound e in
          (honest _ _ entries fetched, some_entries, few)

      -- Something of the log from a position on, that ends no later than another
      abbrev pub IsRange : ℕ → ℕ → List GetEntriesItem → Type 0
      IsRange begin end items = (begin + length items ≤ end) × (items ≡ range begin (length items))

      nothing-IsRange : (begin end : ℕ) → begin ≤ end → IsRange begin end []
      unfolding range
      nothing-IsRange begin end h = (omega arith, refl)

      append-IsRange :
          (begin end : ℕ) (front back : List GetEntriesItem)
          → IsRange begin end front
          → IsRange (begin + length front) end back
          → IsRange begin end (front ++ back)
      append-IsRange begin end front back (low, e) (high, f) =
          let n = length-append front back in
          (
            omega arith,
            sym (
                ap (range begin) n
                ∙ sym (range-append begin (length front) (length back))
                ∙ ap (λ l. l ++ range (begin + length front) (length back)) (sym e)
                ∙ ap (λ l. front ++ l) (sym f)),
          )

      -- Whatever is sent when `download_entries` ends, finished or not, is what the log has from `begin`
      -- on: in order, without a gap, none twice, and nothing from `end` on. The log's answers are
      -- taken to be its entries from the start of the range that was asked for.
      pub download_entries-IsRange :
          (fuel begin end look : ℕ)
          → begin ≤ end
          → end < 2 ^ 64
          → IsRange begin end (download_entries stops fetch fuel begin end look).0
      unfolding download_entries
      download_entries-IsRange zero begin end look h bound =
          elim (Bool-cases (ltb begin end && not (stops look))) [
            | inl goes ↦ rw goes (nothing-IsRange begin end h)
            | inr ends ↦ elim (Bool-cases (ltb begin end)) [
              | inl left ↦ rw (ends, left) (nothing-IsRange begin end h)
              | inr none_left ↦ rw (ends, none_left) (nothing-IsRange begin end h)
            ]
          ]
      download_entries-IsRange (suc fuel) begin end look h bound =
          elim (Bool-cases (ltb begin end && not (stops look))) [
            | inl goes ↦ rw goes (
                next (λ b l g. download_entries-IsRange fuel b end l g bound) (grind arith)
                  (next_entries stops fetch begin end) refl)
            | inr ends ↦ elim (Bool-cases (ltb begin end)) [
              | inl left ↦ rw (ends, left) (nothing-IsRange begin end h)
              | inr none_left ↦ rw (ends, none_left) (nothing-IsRange begin end h)
            ]
          ]
        where
          next :
              ((b l : ℕ) → b ≤ end → IsRange b end (download_entries stops fetch fuel b end l).0)
              → begin < end
              → (m : Result ClientError (List GetEntriesItem))
              → next_entries stops fetch begin end ≡ m
              → IsRange begin end
                  (after_fetch stops m (λ entries.
                    let sent = send_entries stops entries (look + 1) in
                    if sent.2
                    then in_front stops sent.0 (
                        download_entries stops fetch fuel
                          ((begin + length entries) % 2 ^ 64)
                          end
                          sent.1)
                    else (sent.0, context_done))).0
          next later left (err e) is = nothing-IsRange begin end h
          next later left panic is = nothing-IsRange begin end h
          next later left (ok entries) is =
              let (e, _, few) = next_entries-ok begin end entries left bound is in
              let no_wrap : (begin + length entries) % 2 ^ 64 ≡ begin + length entries =
                omega arith in
              elim (Bool-cases (send_entries stops entries (look + 1)).2) [
                | inl all ↦
                    rw (all, no_wrap, send_entries-all entries (look + 1) all)
                      (append-IsRange begin end entries _ (few, e)
                        (later (begin + length entries) (send_entries stops entries (look + 1)).1
                          few))
                | inr some_left ↦ rw some_left (sent_part entries e few)
              ]
            where
              sent_part :
                  (entries : List GetEntriesItem)
                  → entries ≡ range begin (length entries)
                  → begin + length entries ≤ end
                  → IsRange begin end (send_entries stops entries (look + 1)).0
              sent_part entries e few =
                  let (back, p) = send_entries-prefix entries (look + 1) in
                  let n = length-append (send_entries stops entries (look + 1)).0 back in
                  let m = ap length p in
                  (omega arith, range-prefix begin (length entries) _ back (p ∙ e))
