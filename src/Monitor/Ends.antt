-- ===== src/Monitor/Ends.antt =====
-- `downloadEntries` ends whatever the log answers: each round that goes on has sent an entry.
use certspotter.Prelude.{
  ℕ, zero, suc, ◌+◌, ◌-◌, ◌%◌, ◌^◌, ◌<◌, ◌≤◌, ◌≡◌, ◌≢◌, refl, Bool, false, not, ◌&&◌, List, Result,
  ok, err, panic, ltb, if◌then◌else◌, Bool-cases, inl, inr, length, arith,
}
use certspotter.Ct.Client.{ClientError, GetEntriesItem}
use certspotter.Monitor.Download.{
  context_done, out_of_fuel, send_entries, context_ending, in_front, after_fetch, next_entries,
  next_entries-bounds, download_entries,
}

module _ (stops : ℕ → Bool) (fetch : ℕ → ℕ → Result ClientError (List GetEntriesItem)) where
  context_ending-ends : (look : ℕ) → context_ending stops look ≢ out_of_fuel
  context_ending-ends look = elim (Bool-cases (stops look)) [
    | inl stop ↦ rw stop (λ h. cc)
    | inr go ↦ rw go (λ h. cc)
  ]

  -- The download of a range never runs out of its fuel, which is the number of the entries in the
  -- range: whatever the log answers and whenever the context is done, it ends.
  pub download_entries_ends :
      (fuel begin end look : ℕ)
      → end - begin ≤ fuel
      → end < 2 ^ 64
      → (download_entries stops fetch fuel begin end look).1 ≢ out_of_fuel
  unfolding download_entries
  download_entries_ends zero begin end look enough bound =
      let over : ltb begin end ≡ false = ground arith in rw over (context_ending-ends look)
  download_entries_ends (suc fuel) begin end look enough bound =
      elim (Bool-cases (ltb begin end && not (stops look))) [
        | inl goes ↦ rw goes (
            next (λ b l e. download_entries_ends fuel b end l e bound) (grind arith)
              (next_entries stops fetch begin end) refl)
        | inr ends ↦ elim (Bool-cases (ltb begin end)) [
          | inl left ↦ rw (ends, left) (context_ending-ends (look + 1))
          | inr none_left ↦ rw (ends, none_left) (context_ending-ends look)
        ]
      ]
    where
      next :
          ((b l : ℕ) → end - b ≤ fuel → (download_entries stops fetch fuel b end l).1 ≢ out_of_fuel)
          → begin < end
          → (m : Result ClientError (List GetEntriesItem)) → next_entries stops fetch begin end ≡ m
          → (after_fetch stops m (λ entries.
              let sent = send_entries stops entries (look + 1) in
              if sent.2
              then in_front stops sent.0
                  (download_entries stops fetch fuel ((begin + length entries) % 2 ^ 64) end sent.1)
              else (sent.0, context_done))).1
            ≢ out_of_fuel
      next later left (err e) is = λ h. cc
      next later left panic is = λ h. cc
      next later left (ok entries) is =
          let (_, some_entries, few) =
            next_entries-bounds stops fetch begin end entries left bound is in
          let no_wrap : (begin + length entries) % 2 ^ 64 ≡ begin + length entries = omega arith in
          elim (Bool-cases (send_entries stops entries (look + 1)).2) [
            | inl all ↦
                rw (all, no_wrap)
                  (later (begin + length entries) (send_entries stops entries (look + 1)).1
                    (omega arith))
            | inr some_left ↦ rw some_left (λ h. cc)
          ]
