-- ===== src/Schedules/History.antt =====
-- Sequences of the three operations on a slot's schedule, each with the incidents that it finds.
use master_dns.Common.{ℕ, Option, none, some, String, List, [], ◌∷◌, Result, err, ok, All}
use master_dns.Schedules.Types.{Incident, RotationSchedule}
use master_dns.Schedules.Operations.{
  ScheduleError, RotationScheduleUpdateInput, update_rotation_schedule_configuration,
  resume_rotation_schedule, reconcile_rotation_schedule, handle, handle_incident,
}

pub data Operation : Type 0 where
  update : List Incident → RotationScheduleUpdateInput → (now : ℕ) → Operation
  resuming : List Incident → (revision now : ℕ) → Operation
  reconcile : List Incident → (now : ℕ) → Operation

-- A transaction that throws changes nothing.
abbrev pub kept_or :
    Option RotationSchedule
    → Result ScheduleError (Option RotationSchedule)
    → Option RotationSchedule
kept_or row (err thrown) = row
kept_or row (ok written) = written

unfoldable pub perform : String → Option RotationSchedule → Operation → Option RotationSchedule
perform slot row (update incidents input now) =
    kept_or row (update_rotation_schedule_configuration incidents slot input now row)
perform slot row (resuming incidents revision now) =
    kept_or row (resume_rotation_schedule incidents slot revision now row)
perform slot row (reconcile incidents now) = reconcile_rotation_schedule incidents slot now row

unfoldable pub perform_all :
    String → Option RotationSchedule → List Operation → Option RotationSchedule
perform_all slot row [] = row
perform_all slot row (o ∷ os) = perform_all slot (perform slot row o) os

-- A property that each operation of a kind keeps is kept by a sequence of them.
pub perform_all-keeps {ℓ} :
    (P : Option RotationSchedule → Type ℓ) (Q : Operation → Type 0) (slot : String)
    → ((row : Option RotationSchedule) (o : Operation) → Q o → P row → P (perform slot row o))
    → (row : Option RotationSchedule) (os : List Operation) → All Q os
    → P row
    → P (perform_all slot row os)
unfolding perform_all
perform_all-keeps P Q slot keeps row [] qs p = p
perform_all-keeps P Q slot keeps row (o ∷ os) (q, qs) p =
    perform_all-keeps P Q slot keeps (perform slot row o) os qs (keeps row o q p)

-- What each way to handle an incident keeps, handling it keeps.
pub handle-keeps {ℓ} :
    (P : RotationSchedule → Type ℓ) (s : RotationSchedule) (found : Option Incident)
    (incidents : List Incident) (now : ℕ)
    → P s
    → ((i : Incident) → P (handle_incident s i incidents now))
    → P (handle s found incidents now)
handle-keeps P s none incidents now p q = p
handle-keeps P s (some i) incidents now p q = q i

-- No restriction on an operation.
abbrev pub IsAny : Operation → Type 0
IsAny o = Unit {0}

pub All-IsAny : (os : List Operation) → All IsAny os
All-IsAny [] = tt
All-IsAny (o ∷ os) = (tt, All-IsAny os)
