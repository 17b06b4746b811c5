-- ===== src/Operations/Cancel.antt =====
-- What packages/db/src/rotation-termination.ts does to an operation of a terminated incident. The
-- deletion of a cloud account and the reset of cloud state write the same status under the same guard.
use master_dns.Common.{ℕ, Option, none, some, if◌then◌else◌}
use master_dns.Operations.Types.{superseded, skipped, Step, Operation, Database}
use master_dns.Operations.Tables.{update_steps}
use master_dns.Incidents.Terminating.{is_cancellable, is_skippable}

abbrev pub cancel_row : Option Operation → Option Operation
cancel_row none = none
cancel_row (some o) =
    if is_cancellable o.status then some (record o { status = superseded }) else some o

abbrev pub skip_waiting : ℕ → Step → Step
skip_waiting now s = record s { status = skipped; finished_at = some now }

abbrev pub cancel_operation : (now : ℕ) → Database → Database
cancel_operation now db = record db {
  operation = cancel_row db.operation;
  steps = update_steps (λ s. is_skippable s.status) (skip_waiting now) db.steps;
}
