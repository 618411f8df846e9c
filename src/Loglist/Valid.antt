-- ===== src/Loglist/Valid.antt =====
-- A log list that is accepted has the right log ids.
use certspotter.Prelude.{
  ℕ, suc, ◌≡◌, Bool-cases, inl, inr, List, [], ◌∷◌, ◌++◌, All, Bytes, bytes_equal, bytes_equal_iff,
  Result, ok, err, panic, >>=-eq-ok, subst, Option, none, some,
}
use certspotter.Loglist.{
  Log, Operator, LogList, LoglistError, problem_with_log, problem_with_operator, invalid_log_list,
  all_logs, wrapped, validate_log, validate_logs, validate_operators, validate, after_json,
  unmarshal,
}

append-All {ℓ κ} :
    {A : Type ℓ} (P : A → Type κ) (xs ys : List A) → All P xs → All P ys → All P (xs ++ ys)
append-All P [] ys p q = q
append-All P (x ∷ xs) ys (h, p) q = (h, append-All P xs ys p q)

wrapped-eq_ok :
    (f : LoglistError → LoglistError) (m : Result LoglistError (Unit {0}))
    → wrapped f m ≡ ok tt
    → m ≡ ok tt
wrapped-eq_ok f (ok t) h = h
wrapped-eq_ok f (err e) h = cc
wrapped-eq_ok f panic h = cc

module _ (sha256 : Bytes → Bytes) where
  abbrev pub HasOwnId : Log → Type 0
  HasOwnId log = log.log_id ≡ sha256 log.key

  validate_log-HasOwnId : (log : Log) → validate_log sha256 log ≡ ok tt → HasOwnId log
  unfolding validate_log
  validate_log-HasOwnId log h = elim (Bool-cases (bytes_equal log.log_id (sha256 log.key))) [
    | inl same ↦ (bytes_equal_iff _ _).0 same
    | inr differ ↦ cc (rw differ at h)
  ]

  validate_logs-All :
      (i : ℕ) (logs : List Log) → validate_logs sha256 i logs ≡ ok tt → All HasOwnId logs
  unfolding validate_logs
  validate_logs-All i [] h = tt
  validate_logs-All i (log ∷ logs) h =
      let (_, first, rest) =
        >>=-eq-ok (wrapped (problem_with_log i) (validate_log sha256 log)) _ h in
      (
        validate_log-HasOwnId log (wrapped-eq_ok (problem_with_log i) _ first),
        validate_logs-All (suc i) logs rest,
      )

  validate_operators-All :
      (i : ℕ) (operators : List Operator)
      → validate_operators sha256 i operators ≡ ok tt
      → All HasOwnId (all_logs operators)
  unfolding validate_operators all_logs
  validate_operators-All i [] h = tt
  validate_operators-All i (operator ∷ operators) h =
      let (_, first, rest) =
        >>=-eq-ok (wrapped (problem_with_operator i) (validate_logs sha256 0 operator.logs)) _ h in
      append-All HasOwnId operator.logs (all_logs operators)
        (validate_logs-All 0 operator.logs (wrapped-eq_ok (problem_with_operator i) _ first))
        (validate_operators-All (suc i) operators rest)

  -- In a log list that `unmarshal` returns, the id of every log of every operator is the SHA-256 of
  -- the log's key, whatever the JSON decoder made of the bytes.
  pub unmarshal-HasOwnId :
      (json : Bytes → Option LogList) (bytes : Bytes) (list : LogList)
      → unmarshal sha256 json bytes ≡ ok list
      → All HasOwnId (all_logs list.operators)
  unfolding unmarshal validate
  unmarshal-HasOwnId json bytes list h = from_json (json bytes) h
    where
      from_json :
          (o : Option LogList)
          → after_json sha256 o ≡ ok list
          → All HasOwnId (all_logs list.operators)
      from_json none h = cc
      from_json (some found) h =
          let (_, valid, returned) =
            >>=-eq-ok (wrapped invalid_log_list (validate sha256 found)) _ h in
          let same : found ≡ list = cc in
          subst (λ l. All HasOwnId (all_logs l.operators)) same
            (validate_operators-All 0 found.operators (wrapped-eq_ok invalid_log_list _ valid))
