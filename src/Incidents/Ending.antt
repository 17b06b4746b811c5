-- ===== src/Incidents/Ending.antt =====
-- A terminated incident stays terminated, and what it had set going is stopped.
use master_dns.Common.{◌≡◌, ◌+◌, true, none, some, List, String}
use master_dns.Schedules.Types.{is_complete}
use master_dns.Incidents.Types.{RotationIncident, RotationLease}
use master_dns.Incidents.Additions.{find_id}

-- The incident of an id is complete.
abbrev pub HasEnded : String → List RotationIncident → Type 0
HasEnded id incidents =
    (i : RotationIncident) × (find_id id incidents ≡ some i) × (is_complete i.status ≡ true)

-- A lease of the same key without a holder, of the next revision, so that whoever held it is refused. A
-- step whose effect is open stays with it.
abbrev pub IsFenced : RotationLease → RotationLease → Type 0
IsFenced lease fenced =
    (fenced.physical_key ≡ lease.physical_key)
    × (fenced.holder ≡ none)
    × (fenced.revision ≡ lease.revision + 1)
    × (fenced.unresolved_step_id ≡ lease.unresolved_step_id)
