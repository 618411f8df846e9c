-- ===== src/Loglist/Tests.antt =====
-- The theorem on log lists at a list of one log.
use certspotter.Prelude.{◌≡◌, refl, [], ◌∷◌, All, Bytes, ok, none, some}
use certspotter.Loglist.{
  Log, LogList, all_logs, validate_log, validate_logs, validate_operators, validate, unmarshal,
  find_log, collect_logs, get_log_list,
}
use certspotter.Loglist.Valid.{HasOwnId}
use certspotter.Loglist.Found.{get_log_list-finds}

abbrev same_bytes : Bytes → Bytes
same_bytes b = b

abbrev one_log : Log
one_log = record {
  key = 5 ∷ [];
  log_id = 5 ∷ [];
  url = [];
  status = record {
    pending = none;
    qualified = none;
    usable = some 1;
    readonly = none;
    retired = none;
    rejected = none;
  };
  temporal_interval = none;
}

abbrev one_list : LogList
one_list = record {
  version = [];
  log_list_timestamp = 0;
  operators = (record { name = []; email = []; logs = one_log ∷ [] }) ∷ [];
}

accepted : get_log_list (unmarshal same_bytes (λ b. some one_list) []) ≡ ok ((5 ∷ [], one_log) ∷ [])
unfolding get_log_list collect_logs find_log all_logs unmarshal validate validate_operators
    validate_logs validate_log
accepted = refl

get_log_list-finds_example :
    (list : LogList) × (unmarshal same_bytes (λ b. some one_list) [] ≡ ok list)
    × All
        (λ log. HasOwnId same_bytes log × (find_log log.log_id ((5 ∷ [], one_log) ∷ []) ≡ some log))
        (all_logs list.operators)
get_log_list-finds_example =
    get_log_list-finds same_bytes (λ b. some one_list) [] ((5 ∷ [], one_log) ∷ []) accepted
