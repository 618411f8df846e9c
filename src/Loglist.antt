-- ===== src/Loglist.antt =====
-- loglist/schema.go, loglist/validate.go, loglist/helpers.go and the end of loglist/load.go: the list
-- of logs, and `getLogList` of monitor/loglist.go. Times are numbers of their order. A state keeps
-- only its times, and a log the fields that the functions below look at, its URL and its key.
use certspotter.Prelude.{
  ℕ, suc, Bool, true, false, not, ◌&&◌, ◌||◌, List, [], ◌∷◌, ◌++◌, Bytes, bytes_equal, Result, ok,
  err, panic, ◌>>=◌, ◌>>◌, ltb, if◌then◌else◌, Option, none, some,
}
pub mod Valid
pub mod Found
mod Tests

pub record LogStatus : Type 0 where
  pub pending : Option ℕ
  pub qualified : Option ℕ
  pub usable : Option ℕ
  pub readonly : Option ℕ
  pub retired : Option ℕ
  pub rejected : Option ℕ

pub record Log : Type 0 where
  pub key : Bytes
  pub log_id : Bytes
  pub url : Bytes
  pub status : LogStatus
  -- start_inclusive and end_exclusive
  pub temporal_interval : Option (ℕ × ℕ)

pub record Operator : Type 0 where
  pub name : Bytes
  pub email : List Bytes
  pub logs : List Log

pub record LogList : Type 0 where
  pub version : Bytes
  pub log_list_timestamp : ℕ
  pub operators : List Operator

-- An error names the place: the operator and the log within it.
pub data LoglistError : Type 0 where
  id_mismatch : LoglistError
  problem_with_log problem_with_operator : ℕ → LoglistError → LoglistError
  not_json : LoglistError
  -- `log list contains more than one entry with ID ...`
  more_than_one_entry : Bytes → LoglistError
  invalid_log_list : LoglistError → LoglistError

abbrev pub is_some : Option ℕ → Bool
is_some none = false
is_some (some t) = true

unfoldable pub is_approved : LogStatus → Bool
is_approved status = is_some status.qualified || is_some status.usable || is_some status.readonly

abbrev pub before_retired : ℕ → Option ℕ → Bool
before_retired t none = false
before_retired t (some retired) = ltb t retired

unfoldable pub was_approved_at : LogStatus → ℕ → Bool
was_approved_at status t = before_retired t status.retired

unfoldable pub within_interval : ℕ → ℕ → ℕ → Bool
within_interval expiration start_inclusive end_exclusive =
    not (ltb expiration start_inclusive) && ltb expiration end_exclusive

abbrev pub accepted_by : ℕ → Option (ℕ × ℕ) → Bool
accepted_by expiration none = true
accepted_by expiration (some (start, end)) = within_interval expiration start end

unfoldable pub accepts_expiration : Log → ℕ → Bool
accepts_expiration log expiration = accepted_by expiration log.temporal_interval

unfoldable pub all_logs : List Operator → List Log
all_logs [] = []
all_logs (operator ∷ operators) = operator.logs ++ all_logs operators

abbrev pub wrapped :
    (LoglistError → LoglistError) → Result LoglistError (Unit {0}) → Result LoglistError (Unit {0})
wrapped f (ok t) = ok t
wrapped f (err e) = err (f e)
wrapped f panic = panic

module _ (sha256 : Bytes → Bytes) where
  unfoldable pub validate_log : Log → Result LoglistError (Unit {0})
  validate_log log =
      let real_log_id = sha256 log.key in
      if not (bytes_equal log.log_id real_log_id) then err id_mismatch else ok tt

  -- From the log, and from the operator, with this number on
  unfoldable pub validate_logs : ℕ → List Log → Result LoglistError (Unit {0})
  validate_logs i [] = ok tt
  validate_logs i (log ∷ logs) =
      wrapped (problem_with_log i) (validate_log log) >> validate_logs (suc i) logs

  unfoldable pub validate_operators : ℕ → List Operator → Result LoglistError (Unit {0})
  validate_operators i [] = ok tt
  validate_operators i (operator ∷ operators) =
      wrapped (problem_with_operator i) (validate_logs 0 operator.logs)
      >> validate_operators (suc i) operators

  unfoldable pub validate : LogList → Result LoglistError (Unit {0})
  validate list = validate_operators 0 list.operators

  abbrev pub after_json : Option LogList → Result LoglistError LogList
  after_json none = err not_json
  after_json (some list) = wrapped invalid_log_list (validate list) >>= λ _. ok list

  -- By what `json.Unmarshal` gives
  unfoldable pub unmarshal : (Bytes → Option LogList) → Bytes → Result LoglistError LogList
  unmarshal json bytes = after_json (json bytes)

-- A map from log ids, what was added last first
abbrev pub LogMap : Type 0
LogMap = List (Bytes × Log)

unfoldable pub find_log : Bytes → LogMap → Option Log
find_log id [] = none
find_log id ((key, log) ∷ logs) =
    let rest = find_log id logs in if bytes_equal key id then some log else rest

unfoldable pub collect_logs : LogMap → List Log → Result LoglistError LogMap
collect_logs logs [] = ok logs
collect_logs logs (log ∷ more) = elim (find_log log.log_id logs) [
  | some found ↦ err (more_than_one_entry log.log_id)
  | none ↦ collect_logs ((log.log_id, log) ∷ logs) more
]

-- `getLogList`, from what has been loaded
unfoldable pub get_log_list : Result LoglistError LogList → Result LoglistError LogMap
get_log_list loaded = loaded >>= λ list. collect_logs [] (all_logs list.operators)
