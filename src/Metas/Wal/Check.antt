-- ===== src/Metas/Wal/Check.antt =====
-- `validate_operation`, `verify_integrity` and `IntegrityReport` of src/core/metas/wal.rs.
use rtain.Base.{
  ℕ, String, List, [], ◌∷◌, Option, none, some, Bool, true, false, ◌||◌, str_eq, length, Outcome,
  ok, err, panic, ◌>>=◌, ◌>>◌, fail_if,
}
use rtain.Base.Bytes.{Codec}
use rtain.Metas.Types.{
  StorageOperation, create, delete, update_status, update_state, batch, Operations, nil, cons,
}
use rtain.Metas.Wal.Read.{Found, read_all_operations}

abbrev is_empty : String → Bool
is_empty s = str_eq s ""

unfoldable mutual
  pub validate_operation : StorageOperation → Outcome (Unit {0})
  validate_operation (create meta) =
      fail_if (is_empty meta.id || is_empty meta.name) "Container ID or name cannot be empty"
  validate_operation (update_status id _) = fail_if (is_empty id) "Container ID cannot be empty"
  validate_operation (update_state id _) = fail_if (is_empty id) "Container ID cannot be empty"
  validate_operation (delete id) = fail_if (is_empty id) "Container ID cannot be empty"
  validate_operation (batch ops) = validate_operations ops
  -- Other operations don't need special validation.
  validate_operation _ = ok tt

  -- The loop over a batch.
  pub validate_operations : Operations → Outcome (Unit {0})
  validate_operations nil = ok tt
  validate_operations (cons op ops) = validate_operation op >> validate_operations ops

pub record WalError : Type 0 where
  pub index : ℕ
  pub operation : StorageOperation
  pub error : String

pub record IntegrityReport : Type 0 where
  pub errors : List WalError
  pub total_operations : ℕ

-- `report.errors.push(…)` where the operation is refused. (The check itself never panics.)
unfoldable pub collect_errors : List (ℕ × StorageOperation) → List WalError
unfolding validate_operation
collect_errors [] = []
collect_errors ((index, op) ∷ rest) =
    let more = collect_errors rest in
    elim (validate_operation op) [
      | ok _ ↦ more
      | err e ↦ record { index = index; operation = op; error = e } ∷ more
      | panic ↦ more
    ]

unfoldable pub verify_integrity : Codec StorageOperation → Found → Option (Outcome IntegrityReport)
unfolding collect_errors
verify_integrity codec found = elim (read_all_operations codec found) [
  | none ↦ none
  | some r ↦ some (
      r >>= λ operations.
      ok (record { errors = collect_errors operations; total_operations = length operations }))
]

unfoldable pub is_valid : IntegrityReport → Bool
is_valid report = elim report.errors [ [] ↦ true | _ ∷ _ ↦ false ]

unfoldable pub error_count : IntegrityReport → ℕ
error_count report = length report.errors
