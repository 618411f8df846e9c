-- ===== src/Ct/Retry.antt =====
-- ct/client/logclient.go: the HTTP exchange with its retries. What happens in each try is a function
-- of the number of retries before it. Durations are nanoseconds.
pub mod Bounds
use certspotter.Prelude.{
  ℕ, zero, suc, ◌+◌, ◌*◌, ◌/◌, ◌%◌, ◌^◌, Bool, true, false, not, ◌||◌, List, [], ◌∷◌, Bytes, ◌==◌,
  ltb, if◌then◌else◌, Option, none, some, Result, ok, err,
}
use certspotter.Ct.Client.{ClientError, fetch_failed}

-- The header `Retry-After` as `strconv.ParseUint` reads it; no body is an error of reading it.
pub record Response : Type 0 where
  pub status_code : ℕ
  pub retry_after : Option ℕ
  pub body : Option Bytes

pub data Attempt : Type 0 where
  no_request not_sent : Attempt
  answered : Response → Attempt

pub data FetchError : Type 0 where
  context_done creating_request sending reading parsing : FetchError
  bad_status : ℕ → FetchError
  -- The fuel ran out; no exchange ends so.
  out_of_fuel : FetchError

-- What the outside does in the try after so many retries
pub record Exchange : Type 0 where
  pub is_done : ℕ → Bool
  pub attempt : ℕ → Attempt
  -- `insecurerand.Int63n`
  pub random : ℕ → ℕ
  -- Whether the context has a deadline, and it is before the end of such a delay.
  pub too_late : ℕ → ℕ → Bool

abbrev pub second : ℕ
second = 1000000000

abbrev pub base_retry_delay : ℕ
base_retry_delay = 1 * second

abbrev pub max_retry_delay : ℕ
max_retry_delay = 120 * second

abbrev pub max_retries : ℕ
max_retries = 10

unfoldable pub is_retryable_status_code : ℕ → Bool
is_retryable_status_code code = (code / 100 == 5) || (code == 429)

abbrev pub retry_after_of : Option Response → Option ℕ
retry_after_of none = none
retry_after_of (some resp) = resp.retry_after

-- `resp != nil && !isRetryableStatusCode(resp.StatusCode)`
abbrev pub is_final : Option Response → Bool
is_final none = false
is_final (some resp) = not (is_retryable_status_code resp.status_code)

unfoldable pub backoff : ℕ → ℕ
backoff num_retries =
    let delay = base_retry_delay * 2 ^ num_retries in
    if ltb max_retry_delay delay then max_retry_delay else delay

abbrev pub delay_by : ℕ → ℕ → Option ℕ → ℕ
delay_by num_retries random none = backoff num_retries + random % (backoff num_retries / 2 + 1)
delay_by num_retries random (some seconds) = seconds * second

module _ (exchange : Exchange) where
  unfoldable pub delay_of : ℕ → Option Response → ℕ
  delay_of num_retries resp =
      delay_by num_retries (exchange.random num_retries) (retry_after_of resp)

  -- The delay to sleep before the next try, if there is to be one
  unfoldable pub should_retry : ℕ → Option Response → Option ℕ
  should_retry num_retries resp =
      if num_retries == max_retries
      then none
      else if is_final resp
      then none
      else if exchange.too_late num_retries (delay_of num_retries resp)
      then none
      else some (delay_of num_retries resp)

  module _ {A : Type 0} (unmarshal : Bytes → Option A) where
    pub data Fetched : Type 0 where
      parsed : A → Fetched
      failed : FetchError → Fetched

    -- The number of tries, the delays between them, and the outcome
    pub record Tried : Type 0 where
      pub tries : ℕ
      pub slept : List ℕ
      pub outcome : Fetched

    abbrev pub ends_with : Fetched → Tried
    ends_with outcome = record { tries = 1; slept = []; outcome = outcome }

    abbrev pub after_sleep : ℕ → Tried → Tried
    after_sleep delay later = record {
      tries = suc later.tries;
      slept = delay ∷ later.slept;
      outcome = later.outcome;
    }

    abbrev pub retry_or : FetchError → Option ℕ → Tried → Tried
    retry_or e none later = ends_with (failed e)
    retry_or e (some delay) later = after_sleep delay later

    abbrev pub parsed_or_not : Option A → Fetched
    parsed_or_not none = failed parsing
    parsed_or_not (some a) = parsed a

    -- A try that has been answered, and the run of the tries behind it
    abbrev pub after_answer : ℕ → Response → Option Bytes → Tried → Tried
    after_answer num_retries resp none later =
        retry_or reading (should_retry num_retries none) later
    after_answer num_retries resp (some body) later =
        if not (resp.status_code / 100 == 2)
        then retry_or (bad_status resp.status_code) (should_retry num_retries (some resp)) later
        else ends_with (parsed_or_not (unmarshal body))

    abbrev pub after_attempt : ℕ → Attempt → Tried → Tried
    after_attempt num_retries no_request later = ends_with (failed creating_request)
    after_attempt num_retries not_sent later =
        retry_or sending (should_retry num_retries none) later
    after_attempt num_retries (answered resp) later = after_answer num_retries resp resp.body later

    unfoldable pub do_and_parse : ℕ → ℕ → Tried
    do_and_parse zero num_retries = ends_with (failed out_of_fuel)
    do_and_parse (suc fuel) num_retries =
        let later = do_and_parse fuel (num_retries + 1) in
        if exchange.is_done num_retries
        then ends_with (failed context_done)
        else after_attempt num_retries (exchange.attempt num_retries) later

    abbrev pub result_of : Fetched → Result ClientError A
    result_of (parsed a) = ok a
    result_of (failed e) = err fetch_failed

    -- `fetchAndParse` and `postAndParse`: the eleven tries that there can be are the fuel.
    unfoldable pub fetch_and_parse : Result ClientError A
    fetch_and_parse = result_of (Tried.outcome (do_and_parse (max_retries + 1) 0))
