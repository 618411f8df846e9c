-- ===== src/Loglist/Found.antt =====
-- The map of the logs finds every log of the list.
use certspotter.Prelude.{
  ◌≡◌, refl, sym, ap, ◌∙◌, Bool-cases, inl, inr, List, [], ◌∷◌, All, Bytes, bytes_equal,
  bytes_equal_iff, ok, >>=-eq-ok, Option, none, some,
}
use certspotter.Loglist.{
  Log, LogList, LogMap, all_logs, find_log, collect_logs, get_log_list, unmarshal,
}
use certspotter.Loglist.Valid.{HasOwnId, unmarshal-HasOwnId}

both {ℓ κ ν} :
    {A : Type ℓ} (P : A → Type κ) (Q : A → Type ν) (xs : List A)
    → All P xs
    → All Q xs
    → All (λ x. P x × Q x) xs
both P Q [] p q = tt
both P Q (x ∷ xs) (p, ps) (q, qs) = ((p, q), both P Q xs ps qs)

find_log-added :
    (id : Bytes) (log other : Log) (logs : LogMap)
    → find_log other.log_id logs ≡ none
    → find_log id logs ≡ some log
    → find_log id ((other.log_id, other) ∷ logs) ≡ some log
unfolding find_log
find_log-added id log other logs new found = elim (Bool-cases (bytes_equal other.log_id id)) [
  | inl same ↦
      let e = (bytes_equal_iff other.log_id id).0 same in
      let twice : find_log other.log_id logs ≡ some log = ap (λ i. find_log i logs) e ∙ found in cc
  | inr differ ↦ rw differ found
]

find_log-last :
    (log : Log) (logs : LogMap) → find_log log.log_id ((log.log_id, log) ∷ logs) ≡ some log
unfolding find_log
find_log-last log logs = rw ((bytes_equal_iff log.log_id log.log_id).1 refl) refl

collect_logs-cons :
    (logs result : LogMap) (log : Log) (more : List Log) (o : Option Log)
    → find_log log.log_id logs ≡ o
    → collect_logs logs (log ∷ more) ≡ ok result
    → (find_log log.log_id logs ≡ none) × (collect_logs ((log.log_id, log) ∷ logs) more ≡ ok result)
unfolding collect_logs
collect_logs-cons logs result log more none e h = (e, rw (collect_logs, e) at h)
collect_logs-cons logs result log more (some found) e h = cc (rw (collect_logs, e) at h)

collect_logs-keeps :
    (logs result : LogMap) (more : List Log) (id : Bytes) (log : Log)
    → collect_logs logs more ≡ ok result
    → find_log id logs ≡ some log
    → find_log id result ≡ some log
unfolding collect_logs
collect_logs-keeps logs result [] id log h found =
    let same : logs ≡ result = cc in ap (find_log id) (sym same) ∙ found
collect_logs-keeps logs result (other ∷ more) id log h found =
    let (new, rest) = collect_logs-cons logs result other more _ refl h in
    collect_logs-keeps ((other.log_id, other) ∷ logs) result more id log rest
      (find_log-added id log other logs new found)

collect_logs-finds :
    (logs result : LogMap) (more : List Log)
    → collect_logs logs more ≡ ok result
    → All (λ log. find_log log.log_id result ≡ some log) more
collect_logs-finds logs result [] h = tt
collect_logs-finds logs result (log ∷ more) h =
    let (new, rest) = collect_logs-cons logs result log more _ refl h in
    (
      collect_logs-keeps ((log.log_id, log) ∷ logs) result more log.log_id log rest
          (find_log-last log logs),
      collect_logs-finds ((log.log_id, log) ∷ logs) result more rest,
    )

-- When `get_log_list` returns a map for a log list that `unmarshal` has returned, then for every log
-- of the list the map finds exactly this log under its id, and the id is the SHA-256 of its key.
pub get_log_list-finds :
    (sha256 : Bytes → Bytes) (json : Bytes → Option LogList) (bytes : Bytes) (logs : LogMap)
    → get_log_list (unmarshal sha256 json bytes) ≡ ok logs
    → (list : LogList) × (unmarshal sha256 json bytes ≡ ok list)
      × All
          (λ log. HasOwnId sha256 log × (find_log log.log_id logs ≡ some log))
          (all_logs list.operators)
unfolding get_log_list
get_log_list-finds sha256 json bytes logs h =
    let (list, loaded, collected) = >>=-eq-ok (unmarshal sha256 json bytes) _ h in
    (
      list,
      loaded,
      both (HasOwnId sha256) (λ log. find_log log.log_id logs ≡ some log) (all_logs list.operators)
          (unmarshal-HasOwnId sha256 json bytes list loaded)
          (collect_logs-finds [] logs (all_logs list.operators) collected),
    )
