-- ===== src/Limits/Examples.antt =====
-- Starts of EC2 instances at 80 percent of the official limits, and a throttle.
use master_dns.Common.{
  ℕ, ◌+◌, ◌*◌, ◌/◌, ◌≤◌, ◌<◌, ◌≡◌, refl, true, false, none, some, List, [], ◌∷◌, ok, arith,
}
use master_dns.Limits.Rules.{
  ec2, Rule, ec2_rule, write_units, cloud_rotation_operation, cloud_rotation_limit_rules,
  cloud_rotation_rules_for_action,
}
use master_dns.Limits.Buckets.{find_row, live_state}
use master_dns.Limits.Admission.{WriteInput, Circumstances, Store, denied}
use master_dns.Limits.Reserve.{reserve_cloud_rotation_write, find_cooldown}
use master_dns.Limits.Throttle.{throttle_until, backoff, throttle_count_at, record_throttle}
use master_dns.Incidents.Types.{aws}
use master_dns.Limits.Rules.{rules_of}
use master_dns.Limits.Settings.{LimitSettings, LimitContext, reprice, put_settings}
use master_dns.Limits.Status.{RotationLimitStatus, status_of}
use master_dns.Limits.Rate.{run, level, IsPast, run_bound}
use master_dns.Limits.Cooldown.{reserve-throttle}

abbrev share : ℕ → ℕ → ℕ
share capacity percent = capacity * percent / 100

abbrev settings : Circumstances
settings = record {
  enabled = true;
  effective_percent = 80;
  idle_ip_release = false;
  plan = [];
  is_running = λ id. false;
}

abbrev instance_start : WriteInput
instance_start = record {
  service = ec2;
  region = "eu-west-1";
  step_id = "s1";
  action = "ec2.instance.start";
  remaining_steps = [];
}

abbrev empty_store : Store
empty_store = record { rows = []; reservations = [] }

abbrev starts : Rule
starts = ec2_rule share 80 "StartInstances"

abbrev gaps : List ℕ
gaps = 0 ∷ 0 ∷ 0 ∷ 0 ∷ 0 ∷ 625 ∷ 0 ∷ []

starts_alone : cloud_rotation_rules_for_action share ec2 "ec2.instance.start" 80 ≡ ok (starts ∷ [])
unfolding cloud_rotation_rules_for_action cloud_rotation_operation cloud_rotation_limit_rules
starts_alone = refl

empty-IsPast : IsPast instance_start starts empty_store 0
unfolding find_row
empty-IsPast = omega arith

empty_room : level instance_start starts empty_store 0 ≤ 4 * write_units
unfolding find_row live_state
empty_room = omega arith

run_bound_example :
    run share settings instance_start gaps empty_store 0 * write_units
      + level instance_start starts empty_store 0
    ≤ 4 * write_units + 625 * 160
run_bound_example =
    run_bound share settings instance_start starts 160 refl starts_alone refl gaps empty_store 0
      empty-IsPast empty_room

early : 59999 < throttle_until none none 0
unfolding throttle_until backoff throttle_count_at
early = omega arith

reserve-throttle_example :
    (0 + 60000 ≤ 60000)
    × (reserve_cloud_rotation_write share settings instance_start
          (record_throttle none 0 empty_store)
          59999
        ≡ ok (record_throttle none 0 empty_store, denied "cooldown" 60000))
unfolding find_cooldown throttle_until backoff throttle_count_at
reserve-throttle_example =
    reserve-throttle share settings instance_start empty_store none 0 59999 (starts ∷ []) tt
      starts_alone refl early

abbrev accounts : LimitSettings
accounts = record {
  accounts = record { id = "c1"; provider = aws; external_account_id = some "1234" } ∷ [];
  policies = [];
  switch_ = none;
}

-- Four starts are owed at one second.
abbrev owing : Store
owing = record {
  rows =
      record {
        rule_id = "ec2.StartInstances";
        region = some "eu-west-1";
        debt = 400000;
        events = [];
        updated_at = 1000;
        cooldown_until = none;
        throttle_count = 0;
      }
      ∷ [];
  reservations = [];
}

abbrev settled : Store
settled = record owing { rows = reprice (rules_of share ec2 80) 1500 owing.rows }

abbrev at_full : LimitContext
at_full = record { enabled = false; utilization_percent = 100; effective_percent = 100 }

abbrev changed : LimitSettings × Store × RotationLimitStatus
changed = (
  put_settings "c1" ec2 100 (some false) accounts,
  settled,
  status_of share at_full 0 1600 settled.rows (rules_of share ec2 100),
)

abbrev at_eighty : LimitContext
at_eighty = record { enabled = true; utilization_percent = 80; effective_percent = 80 }

owes_less :
    (live_state starts (find_row "ec2.StartInstances" (some "eu-west-1") owing.rows) 1500).debt
    ≡ 320000
unfolding live_state find_row
owes_less = refl
