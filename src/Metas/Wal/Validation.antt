-- ===== src/Metas/Wal/Validation.antt =====
-- What `validate_operation` accepts, and what the integrity report says.
use mathlib.Core.Path.{subst}
use mathlib.Core.List.{Memᴰ}
use mathlib.Core.List.Memᴰ.{head, tail}
use rtain.Base.{
  zero, ℕ, suc, ◌+◌, List, [], ◌∷◌, some, true, ◌≡◌, ◌≢◌, ◌↔◌, refl, All, length, Outcome, ok, err,
  panic, arith, eq_iff, >>-ok_iff, ◌>>◌, get_elem?, ap, ◌∙◌,
}
use rtain.Metas.Types.{
  StorageOperation, create, delete, update_status, update_state, batch, Operations, nil, cons,
}
use rtain.Metas.Wal.Numbering.{numbered, number, read_all_operations-eq}
use rtain.Metas.Wal.Check.{
  validate_operation, validate_operations, WalError, IntegrityReport, collect_errors, is_valid,
  verify_integrity,
}
use rtain.Base.Bytes.{Codec}
use rtain.Metas.Wal.Read.{Found, read_operations}

-- Every create has an id and a name, and every deletion and every change of a status or a state
-- has an id, inside batches too.
mutual
  pub HasIds : StorageOperation → Type 0
  HasIds (create meta) = (meta.id ≢ "") × (meta.name ≢ "")
  HasIds (update_status id _) = id ≢ ""
  HasIds (update_state id _) = id ≢ ""
  HasIds (delete id) = id ≢ ""
  HasIds (batch ops) = AllHave ops
  HasIds _ = Unit

  pub AllHave : Operations → Type 0
  AllHave nil = Unit
  AllHave (cons op ops) = HasIds op × AllHave ops

mutual
  unfolding validate_operation HasIds

  accepts : (op : StorageOperation) → (validate_operation op ≡ ok tt) ↔ HasIds op
  accepts (create meta) = ground (arith, eq_iff meta.id "", eq_iff meta.name "")
  accepts (update_status id _) = ground (arith, eq_iff id "")
  accepts (update_state id _) = ground (arith, eq_iff id "")
  accepts (delete id) = ground (arith, eq_iff id "")
  accepts (batch ops) = accepts_all ops
  accepts _ = (λ h. tt, λ h. refl)

  accepts_all : (ops : Operations) → (validate_operations ops ≡ ok tt) ↔ AllHave ops
  accepts_all nil = (λ h. tt, λ h. refl)
  accepts_all (cons op ops) =
      let both = >>-ok_iff (validate_operation op) (validate_operations ops) in
      (
        λ h. ((accepts op).0 (both.0 h).0, (accepts_all ops).0 (both.0 h).1),
        λ h. both.1 ((accepts op).1 h.0, (accepts_all ops).1 h.1),
      )

-- An operation is accepted exactly when it has the ids and names that it needs.
pub validate_operation_iff : (op : StorageOperation) → (validate_operation op ≡ ok tt) ↔ HasIds op
validate_operation_iff = accepts

>>-ne-panic : (m n : Outcome (Unit {0})) → m ≢ panic → n ≢ panic → (m >> n) ≢ panic
>>-ne-panic (ok tt) n hm hn = hn
>>-ne-panic (err e) n hm hn = λ h. cc
>>-ne-panic panic n hm hn = absurd (hm refl)

mutual
  unfolding validate_operation

  no_panic : (op : StorageOperation) → validate_operation op ≢ panic
  no_panic (create meta) = ground arith
  no_panic (update_status id _) = ground arith
  no_panic (update_state id _) = ground arith
  no_panic (delete id) = ground arith
  no_panic (batch ops) = none_panics ops
  no_panic _ = ground arith

  none_panics : (ops : Operations) → validate_operations ops ≢ panic
  none_panics nil = λ h. cc
  none_panics (cons op ops) = >>-ne-panic _ _ (no_panic op) (none_panics ops)

-- What a report of `ops` says: it is valid exactly when each operation has what it needs.
errors-nil_iff :
    (i : ℕ) (ops : List StorageOperation) → (collect_errors (numbered i ops) ≡ []) ↔ All HasIds ops
unfolding collect_errors
errors-nil_iff i [] = (λ h. tt, λ h. refl)
errors-nil_iff i (op ∷ ops) = split (validate_operation op) refl (errors-nil_iff (i + 1) ops)
  where
    split :
        (r : Outcome (Unit {0}))
        → validate_operation op ≡ r
        → ((collect_errors (numbered (i + 1) ops) ≡ []) ↔ All HasIds ops)
        → (collect_errors (numbered i (op ∷ ops)) ≡ []) ↔ All HasIds (op ∷ ops)
    split (ok tt) e ih = rw (e, collect_errors) (λ h. ((accepts op).0 e, ih.0 h), λ h. ih.1 h.1)
    split (err m) e ih =
        rw (e, collect_errors) (λ h. absurd (cc), λ h. absurd (cc (e, (accepts op).1 h.0)))
    split panic e ih = absurd (no_panic op e)

-- An error that names the operation at place `index` of the log, counted from `i`, and the reason
-- for which it is refused.
abbrev pub Names : ℕ → List StorageOperation → WalError → Type 0
Names i ops e =
    (j : ℕ) × (e.index ≡ i + j)
    × (get_elem? ops j ≡ some e.operation)
    × (validate_operation e.operation ≡ err e.error)

Names-cons :
    (i : ℕ) (op : StorageOperation) (ops : List StorageOperation) (errors : List WalError)
    → All (Names (i + 1) ops) errors
    → All (Names i (op ∷ ops)) errors
Names-cons i op ops [] h = tt
Names-cons i op ops (e ∷ errors) ((j, place, found, refused), rest) =
    ((suc j, omega arith, found, refused), Names-cons i op ops errors rest)

errors-Names :
    (i : ℕ) (ops : List StorageOperation) → All (Names i ops) (collect_errors (numbered i ops))
unfolding collect_errors
errors-Names i [] = tt
errors-Names i (op ∷ ops) = split (validate_operation op) refl (errors-Names (i + 1) ops)
  where
    split :
        (r : Outcome (Unit {0}))
        → validate_operation op ≡ r
        → All (Names (i + 1) ops) (collect_errors (numbered (i + 1) ops))
        → All (Names i (op ∷ ops)) (collect_errors (numbered i (op ∷ ops)))
    split (ok tt) e ih = rw (e, collect_errors) (Names-cons i op ops _ ih)
    split (err m) e ih =
        rw (e, collect_errors) ((0, omega arith, refl, e), Names-cons i op ops _ ih)
    split panic e ih = absurd (no_panic op e)

-- The error that names place `j` of the log.
abbrev pub Named : ℕ → StorageOperation → List WalError → Type 0
Named index op errors = (e : WalError) × Memᴰ e errors × (e.index ≡ index) × (e.operation ≡ op)

Named-cons :
    (index : ℕ) (op : StorageOperation) (e : WalError) (errors : List WalError)
    → Named index op errors
    → Named index op (e ∷ errors)
Named-cons index op e errors (found, here, place, same) = (found, tail here, place, same)

refused-Named :
    (i j : ℕ) (ops : List StorageOperation) (op : StorageOperation)
    → get_elem? ops j ≡ some op
    → ¬ HasIds op
    → Named (i + j) op (collect_errors (numbered i ops))
unfolding collect_errors
refused-Named i j [] op h bad = absurd (cc)
refused-Named i zero (first ∷ ops) op h bad = split (validate_operation first) refl
  where
    same : first ≡ op
    same = cc

    split :
        (r : Outcome (Unit {0}))
        → validate_operation first ≡ r
        → Named (i + 0) op (collect_errors (numbered i (first ∷ ops)))
    split (ok tt) e = absurd (bad (subst HasIds same ((accepts first).0 e)))
    split (err m) e =
        rw (e, collect_errors)
          (record { index = i; operation = first; error = m }, head refl, omega arith, same)
    split panic e = absurd (no_panic first e)
refused-Named i (suc j) (first ∷ ops) op h bad = split (validate_operation first) refl (
    subst (λ k. Named k op (collect_errors (numbered (i + 1) ops))) (omega arith)
      (refused-Named (i + 1) j ops op h bad))
  where
    split :
        (r : Outcome (Unit {0}))
        → validate_operation first ≡ r
        → Named (i + suc j) op (collect_errors (numbered (i + 1) ops))
        → Named (i + suc j) op (collect_errors (numbered i (first ∷ ops)))
    split (ok tt) e ih = rw (e, collect_errors) ih
    split (err m) e ih = rw (e, collect_errors) (Named-cons _ op _ _ ih)
    split panic e ih = absurd (no_panic first e)

length-numbered : (i : ℕ) (ops : List StorageOperation) → length (numbered i ops) ≡ length ops
length-numbered i [] = refl
length-numbered i (op ∷ ops) = ap suc (length-numbered (i + 1) ops)

-- What a report says of the operations that it is about.
pub record Reports (ops : List StorageOperation) (report : IntegrityReport) : Type 0 where
  pub counted : report.total_operations ≡ length ops
  pub valid_iff : (is_valid report ≡ true) ↔ All HasIds ops
  pub errors_named : All (Names 0 ops) report.errors
  pub all_named :
      (j : ℕ) (op : StorageOperation)
      → get_elem? ops j ≡ some op
      → ¬ HasIds op
      → Named j op report.errors

abbrev report_of : List StorageOperation → IntegrityReport
report_of ops = record {
  errors = collect_errors (numbered 0 ops);
  total_operations = length (numbered 0 ops);
}

is_valid_iff : (report : IntegrityReport) → (is_valid report ≡ true) ↔ (report.errors ≡ [])
unfolding is_valid
is_valid_iff report = ground arith

Reports-report_of : (ops : List StorageOperation) → Reports ops (report_of ops)
Reports-report_of ops = record {
  counted = length-numbered 0 ops;
  valid_iff = (
    λ h. (errors-nil_iff 0 ops).0 ((is_valid_iff (report_of ops)).0 h),
    λ h. (is_valid_iff (report_of ops)).1 ((errors-nil_iff 0 ops).1 h),
  );
  errors_named = errors-Names 0 ops;
  all_named = λ j op found bad.
      subst (λ k. Named k op (collect_errors (numbered 0 ops))) (omega arith)
        (refused-Named 0 j ops op found bad);
}

-- The check of a log that can be read ends with a report: it counts the operations, is valid
-- exactly when every operation has its ids, each error names a refused operation, its place in the
-- log and the reason, and every refused operation is named by an error at its place.
pub verify_integrity-Reports :
    (codec : Codec StorageOperation) (found : Found) (ops : List StorageOperation)
    → read_operations codec found ≡ some (ok ops)
    → (report : IntegrityReport) × (verify_integrity codec found ≡ some (ok report))
      × Reports ops report
unfolding verify_integrity
verify_integrity-Reports codec found ops h =
    let entries = read_all_operations-eq codec found ∙ ap (number 0) h in
    (report_of ops, rw (entries, verify_integrity), Reports-report_of ops)
