-- ===== src/Incidents/Examples.antt =====
-- A slot of an instance of EC2 whose open incident is terminated before a user starts another.
use master_dns.Common.{
  ℕ, ◌≡◌, refl, ◌≤◌, true, false, none, some, [], ◌∷◌, String, count_if, ok, arith,
}
use master_dns.Strategy.Types.{v4}
use master_dns.Cloud.Types.{ec2}
use master_dns.Operations.Types.{OperationStatus, StepStatus}
use master_dns.Incidents.Types.{
  CloudProvider, manual, RotationContext, RotationIncident, RotationLease, RotationPolicy, Tables,
  Surroundings,
}
use master_dns.Incidents.Policy.{rotation_authorization_error, manual_rotation_capability_error}
use master_dns.Incidents.Evidence.{HealthTables}
use master_dns.Incidents.Opening.{
  Opened, is_open_in, new_incident, insert_opened, create_manual_rotation_incident,
}
use master_dns.Incidents.Terminating.{
  RotationPublication, OperationStepRow, PublicationChild, OperationRow, Effects, cancel_effects,
  end_rotation, end_incident, terminate_rotation_incident,
}
use master_dns.Incidents.Additions.{ids}
use master_dns.Incidents.Changes.{Step, open_manually, terminate}
use master_dns.Incidents.Single.{AreDistinct, Reach, here, then_, Reach-single}

abbrev pub family_four : String → ℕ
family_four address = 4

abbrev pub event_text : ℕ → ℕ → String
event_text revision at = "scheduled"

abbrev key_text : PublicationChild → String
key_text child = child.event_id

abbrev policy : RotationPolicy
policy = record {
  slot_id = "slot-1";
  enabled = true;
  max_attempts = 3;
  revision = 4;
  linode_ipv4_strategy = "additional_ipv4";
  linode_allow_temporary_instance = false;
  updated_at = 1;
}

abbrev pub context : RotationContext
context = record {
  account = record {
    owner_user_id = "u1";
    provider = CloudProvider.aws;
    external_account_id = some "1234";
    enabled = true;
    regions = none;
  };
  instance_ = record {
    service = ec2;
    region = "us-west-2";
    scan_generation = 7;
    present = none;
    ipv6_only = none;
  };
  iface = some (record {
    scan_generation = 7;
    primary_addresses = "203.0.113.5" ∷ [];
    device_index = some 0;
  });
  slot = record {
    id = "slot-1";
    family = v4;
    current_address_id = some "a1";
    candidate_address_id = none;
    current_version = 2;
    candidate_version = 2;
    reset_recovery_retries = 0;
  };
  address = some (record {
    id = "a1";
    address = "203.0.113.5";
    inventory_present = true;
    remote_allocation_id = some "eipalloc-1";
    private_address = none;
    aws_address_scope = none;
  });
  authorization = some (record {
    managed = true;
    allow_ipv4_rotation = true;
    allow_ipv6_rotation = false;
    allow_stop_start = false;
    revision = 5;
  });
  policy = some policy;
  scope = true;
  physical_key = "key-1";
  lifecycle_blocked = false;
  conflicting_manager = false;
}

abbrev pub at : ℕ → String → String → Surroundings
at now incident segment = record {
  started = now;
  now = now;
  incident_id = incident;
  segment_id = segment;
  actor_user_id = some "u1";
}

abbrev first : RotationIncident
first = new_incident context manual "manual-1" (at 10 "i1" "g1") 4 none

abbrev lease : RotationLease
lease = record {
  physical_key = "key-1";
  revision = 3;
  holder = some "worker";
  expires_at = 90;
  incident_id = some "i1";
  unresolved_step_id = none;
}

abbrev pub tables : Tables
tables = record {
  incidents = first ∷ [];
  segments = [];
  attempts = [];
  steps = [];
  leases = lease ∷ [];
  policies = policy ∷ [];
  resources = [];
  schedules = [];
}

abbrev operation : OperationRow
operation = record {
  id = "o1";
  idempotency_key = "k1";
  status = OperationStatus.running;
  updated_at = 20;
}

abbrev waiting_step : OperationStepRow
waiting_step = record {
  operation_id = "o1";
  status = StepStatus.pending;
  finished_at = none;
  updated_at = 20;
}

abbrev child : PublicationChild
child = record { pool_id = "p1"; event_id = "k1"; policy_revision = 2; operation_id = none }

abbrev publication : RotationPublication
publication = record {
  incident_id = some "i1";
  operation_id = none;
  children = child ∷ [];
  error_code = none;
  updated_at = 20;
}

abbrev effects : Effects
effects = record {
  publications = publication ∷ [];
  intents = [];
  operations = operation ∷ [];
  operation_steps = waiting_step ∷ [];
  reservations = [];
}

abbrev ended : Tables
ended = end_rotation (at 50 "" "") first tables

abbrev stopped : Effects
stopped = cancel_effects key_text "i1" 50 tables effects

abbrev again : Opened
again =
    insert_opened (new_incident context manual "manual-2" (at 60 "i2" "g2") 4 none) 1
      (at 60 "i2" "g2") ended

terminates :
    terminate_rotation_incident key_text "i1" (at 50 "" "") tables effects
    ≡ ok (ended, stopped, end_incident (at 50 "" "") first)
unfolding terminate_rotation_incident
terminates = refl

opens_again :
    create_manual_rotation_incident family_four context "manual-2" (at 60 "i2" "g2") ended
    ≡ ok again
unfolding create_manual_rotation_incident rotation_authorization_error
    manual_rotation_capability_error end_rotation
opens_again = refl

is_new : Step family_four event_text key_text ended stopped again.0 stopped
unfolding end_rotation
is_new = open_manually context "manual-2" (at 60 "i2" "g2") ended stopped again refl opens_again

reached : Reach family_four event_text key_text ended stopped again.0 stopped
reached = then_ ended again.0 again.0 stopped stopped stopped is_new (here again.0 stopped)

Reach-single_example :
    (count_if (is_open_in "slot-1") again.0.incidents ≤ 1) × AreDistinct (ids again.0.incidents)
Reach-single_example =
    Reach-single family_four event_text key_text "slot-1" tables again.0 effects stopped
      (then_ tables ended again.0 effects stopped stopped
        (terminate "i1" (at 50 "" "") tables effects
          (ended, stopped, end_incident (at 50 "" "") first) terminates)
        reached)
      (refl, tt) (omega arith)

abbrev pub no_health : HealthTables
no_health = record { policies = []; configs = []; groups = []; states = [] }

abbrev stopped_operation : OperationRow
stopped_operation = record operation { status = OperationStatus.superseded; updated_at = 50 }

abbrev skipped_step : OperationStepRow
skipped_step = record waiting_step {
  status = StepStatus.skipped;
  finished_at = some 50;
  updated_at = 50;
}
