-- ===== src/Lock/Client.antt =====
-- One call of `withRedisLease`: where it stands, and what each event does to it and to the key.
-- Commands travel: a command is issued, runs at the server, and its reply arrives, each at a time
-- of its own. `executed` is the time at which the last granted command ran.
use master_dns.Common.{ℕ, ◌+◌, Bool, true, false, Option, leb, if◌then◌else◌}
use master_dns.Lock.Options.{Timings}
use master_dns.Lock.Redis.{Entry, set_nx, refresh_script, release_script}

pub data Phase : Type 0 where
  waiting : Phase  -- in the loop of `acquire`, before a command
  setting : (issued : ℕ) → Phase
  set_done : (granted : Bool) (executed issued : ℕ) → Phase
  owning : (executed replied : ℕ) → Phase  -- the action runs, `renew` sleeps
  renewing : (executed issued : ℕ) → Phase
  renewed : (granted : Bool) (executed issued : ℕ) → Phase
  lost : Phase  -- `markLost` was called
  failed : Phase  -- `acquire` threw
  closing : Phase  -- the action is over, the release is on its way
  closed : Phase

-- The action runs and `assertOwned` does not throw.
abbrev pub is_owner : Phase → Bool
is_owner (owning executed replied) = true
is_owner (renewing executed issued) = true
is_owner (renewed granted executed issued) = true
is_owner _ = false

-- The last four are commands of a call that is over, which run late.
pub data Event : Type 0 where
  issue run reply time_out finish late_set late_refresh late_release : Event

pub record Outcome : Type 0 where
  pub phase : Phase
  pub entry : Option Entry

abbrev pub issue_next : Timings → (now : ℕ) → Phase → Phase
issue_next t now waiting = setting now
issue_next t now (owning executed replied) =
    if leb (replied + t.refresh_interval) now
    then renewing executed now
    else owning executed replied
issue_next t now phase = phase

abbrev pub run_command : Timings → (now token : ℕ) → Option Entry → Phase → Outcome
run_command t now token entry (setting issued) =
    let r = set_nx entry token t.lease now in
    record { phase = set_done r.granted now issued; entry = r.entry }
run_command t now token entry (renewing executed issued) =
    let r = refresh_script entry token t.lease now in
    record {
      phase = renewed r.granted (if r.granted then now else executed) issued;
      entry = r.entry;
    }
run_command t now token entry closing = record {
  phase = closed;
  entry = (release_script entry token now).entry;
}
run_command t now token entry phase = record { phase = phase; entry = entry }

abbrev pub take_reply : (now : ℕ) → Phase → Phase
take_reply now (set_done true executed issued) = owning executed now
take_reply now (set_done false executed issued) = waiting
take_reply now (renewed true executed issued) = owning executed now
take_reply now (renewed false executed issued) = lost
take_reply now phase = phase

-- `commandWithin` rejects, a command rejects, or the sleep of `renew` does.
abbrev pub fail : Phase → Phase
fail (setting issued) = failed
fail (set_done granted executed issued) = failed
fail (owning executed replied) = lost
fail (renewing executed issued) = lost
fail (renewed granted executed issued) = lost
fail phase = phase

abbrev pub end_action : Phase → Phase
end_action (owning executed replied) = closing
end_action (renewing executed issued) = closing
end_action (renewed granted executed issued) = closing
end_action lost = closing
end_action phase = phase

abbrev pub is_over : Phase → Bool
is_over lost = true
is_over failed = true
is_over closing = true
is_over closed = true
is_over _ = false

abbrev pub late : Phase → (before after : Option Entry) → Outcome
late phase before after = record { phase = phase; entry = if is_over phase then after else before }

unfoldable pub react : Timings → (now token : ℕ) → Option Entry → Phase → Event → Outcome
unfolding set_nx refresh_script release_script
react t now token entry phase issue = record { phase = issue_next t now phase; entry = entry }
react t now token entry phase run = run_command t now token entry phase
react t now token entry phase reply = record { phase = take_reply now phase; entry = entry }
react t now token entry phase time_out = record { phase = fail phase; entry = entry }
react t now token entry phase finish = record { phase = end_action phase; entry = entry }
react t now token entry phase late_set = late phase entry (set_nx entry token t.lease now).entry
react t now token entry phase late_refresh =
    late phase entry (refresh_script entry token t.lease now).entry
react t now token entry phase late_release = late phase entry (release_script entry token now).entry
