-- ===== src/Ct/Retry/Bounds.antt =====
-- The retries of the log client are few, and no delay is long.
use certspotter.Prelude.{
  ℕ, zero, suc, ◌+◌, ◌*◌, ◌/◌, ◌^◌, ◌<◌, ◌≤◌, ◌≡◌, ◌≢◌, refl, subst, not, All, Bytes, ◌==◌,
  Bool-cases, inl, inr, Option, none, some, arith,
}
use certspotter.Ct.Retry.{
  Response, Attempt, no_request, not_sent, answered, FetchError, reading, sending, bad_status,
  out_of_fuel, Exchange, second, max_retries, retry_after_of, is_final, backoff, delay_by, delay_of,
  should_retry, failed, Tried, ends_with, retry_or, parsed_or_not, after_answer, after_attempt,
  do_and_parse,
}

-- The header is read as a number of 16 bits.
abbrev pub IsShort : Option ℕ → Type 0
IsShort none = Unit {0}
IsShort (some seconds) = seconds < 2 ^ 16

abbrev pub IsShortAttempt : Attempt → Type 0
IsShortAttempt (answered resp) = IsShort resp.retry_after
IsShortAttempt _ = Unit {0}

abbrev pub IsShortDelay : ℕ → Type 0
IsShortDelay delay = delay < 2 ^ 16 * second

delay_by-IsShortDelay :
    (n random : ℕ) (after : Option ℕ) → IsShort after → IsShortDelay (delay_by n random after)
unfolding backoff
delay_by-IsShortDelay n random none short = grind arith
delay_by-IsShortDelay n random (some seconds) short = omega arith

module _ (exchange : Exchange) where
  should_retry-some :
      (n : ℕ) (resp : Option Response) (delay : ℕ)
      → IsShort (retry_after_of resp)
      → should_retry exchange n resp ≡ some delay
      → (n ≢ max_retries) × IsShortDelay delay
  unfolding should_retry delay_of
  should_retry-some n resp delay short h =
      let d = delay_by-IsShortDelay n (exchange.random n) (retry_after_of resp) short in
      elim (Bool-cases (n == max_retries)) [
        | inl last ↦ cc (rw last at h)
        | inr more ↦ elim (Bool-cases (is_final resp)) [
          | inl final ↦ cc (rw (more, final) at h)
          | inr again ↦
              elim (Bool-cases
                (exchange.too_late n (delay_by n (exchange.random n) (retry_after_of resp)))) [
                  | inl late ↦ cc (rw (more, again, late) at h)
                  | inr in_time ↦
                      let same : delay_by n (exchange.random n) (retry_after_of resp) ≡ delay =
                        cc (rw (more, again, in_time) at h) in
                      ((λ e. grind arith), subst IsShortDelay same d)
                ]
        ]
      ]

  module _ {A : Type 0} (unmarshal : Bytes → Option A) where
    -- What is shown of a run after so many retries
    abbrev pub IsBounded : ℕ → Tried exchange unmarshal → Type 0
    IsBounded n t =
        (t.outcome ≢ failed out_of_fuel)
        × (t.tries + n ≤ max_retries + 1)
        × All IsShortDelay t.slept

    retry_or-IsBounded :
        (n : ℕ) (e : FetchError) (o : Option ℕ) (later : Tried exchange unmarshal)
        → n ≤ max_retries
        → e ≢ out_of_fuel
        → ((delay : ℕ) → o ≡ some delay → (n ≢ max_retries) × IsShortDelay delay)
        → (n ≢ max_retries → IsBounded (n + 1) later)
        → IsBounded n (retry_or exchange unmarshal e o later)
    retry_or-IsBounded n e none later low real some_more bounded =
        ((λ h. real (cc h)), omega arith, tt)
    retry_or-IsBounded n e (some delay) later low real some_more bounded =
        let (not_last, short) = some_more delay refl in
        let (outcome, few, delays) = bounded not_last in (outcome, omega arith, (short, delays))

    parsed-IsBounded :
        (n : ℕ) (o : Option A)
        → n ≤ max_retries
        → IsBounded n (ends_with exchange unmarshal (parsed_or_not exchange unmarshal o))
    parsed-IsBounded n none low = ((λ h. cc), omega arith, tt)
    parsed-IsBounded n (some a) low = ((λ h. cc), omega arith, tt)

    after_answer-IsBounded :
        (n : ℕ) (resp : Response) (body : Option Bytes) (later : Tried exchange unmarshal)
        → n ≤ max_retries
        → IsShort resp.retry_after
        → (n ≢ max_retries → IsBounded (n + 1) later)
        → IsBounded n (after_answer exchange unmarshal n resp body later)
    after_answer-IsBounded n resp none later low short bounded =
        retry_or-IsBounded n reading _ later low (λ h. cc)
          (λ delay e. should_retry-some n none delay tt e) bounded
    after_answer-IsBounded n resp (some body) later low short bounded =
        elim (Bool-cases (not (resp.status_code / 100 == 2))) [
          | inl bad ↦ rw bad (
              retry_or-IsBounded n (bad_status resp.status_code) _ later low (λ h. cc)
                (λ delay e. should_retry-some n (some resp) delay short e) bounded)
          | inr good ↦ rw good (parsed-IsBounded n (unmarshal body) low)
        ]

    after_attempt-IsBounded :
        (n : ℕ) (attempt : Attempt) (later : Tried exchange unmarshal)
        → n ≤ max_retries
        → IsShortAttempt attempt
        → (n ≢ max_retries → IsBounded (n + 1) later)
        → IsBounded n (after_attempt exchange unmarshal n attempt later)
    after_attempt-IsBounded n no_request later low short bounded = ((λ h. cc), omega arith, tt)
    after_attempt-IsBounded n not_sent later low short bounded =
        retry_or-IsBounded n sending _ later low (λ h. cc)
          (λ delay e. should_retry-some n none delay tt e) bounded
    after_attempt-IsBounded n (answered resp) later low short bounded =
        after_answer-IsBounded n resp resp.body later low short bounded

    -- The exchange ends after at most eleven tries, whatever the log answers, with the fuel that is
    -- one more than the retries that are left; and it never sleeps for 65536 seconds or more between
    -- two tries, if `Retry-After` is read as a number of 16 bits.
    pub do_and_parse-IsBounded :
        ((n : ℕ) → IsShortAttempt (exchange.attempt n))
        → (fuel n : ℕ) → n ≤ max_retries
        → max_retries < fuel + n
        → IsBounded n (do_and_parse exchange unmarshal fuel n)
    unfolding do_and_parse
    do_and_parse-IsBounded short zero n low enough = absurd (omega arith)
    do_and_parse-IsBounded short (suc fuel) n low enough = elim (Bool-cases (exchange.is_done n)) [
      | inl done ↦ rw done ((λ h. cc), omega arith, tt)
      | inr goes ↦ rw goes (
          after_attempt-IsBounded n (exchange.attempt n) _ low (short n)
            (λ more. do_and_parse-IsBounded short fuel (n + 1) (omega arith) (omega arith)))
    ]
