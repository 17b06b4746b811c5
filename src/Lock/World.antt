-- ===== src/Lock/World.antt =====
-- All calls on one key, each with a token of its own, and the passing of time.
use master_dns.Common.{ℕ, ◌+◌, ◌<◌, Option, none, ◌==◌, if◌then◌else◌}
use master_dns.Lock.Options.{Timings}
use master_dns.Lock.Redis.{Entry}
use master_dns.Lock.Client.{
  Phase, waiting, setting, set_done, owning, renewing, renewed, Event, Outcome, react,
}

pub record World : Type 0 where
  pub now : ℕ
  pub entry : Option Entry
  pub phase : ℕ → Phase

abbrev pub start : World
start = record { now = 0; entry = none; phase = λ c. waiting }

abbrev pub update : (ℕ → Phase) → ℕ → Phase → ℕ → Phase
update phase c p d = if d == c then p else phase d

abbrev pub put_outcome : World → ℕ → Outcome → World
put_outcome w c o = record { now = w.now; entry = o.entry; phase = update w.phase c o.phase }

unfoldable pub happen : Timings → World → ℕ → Event → World
happen t w c e = put_outcome w c (react t w.now c w.entry (w.phase c) e)

-- A timer that is due fires before time passes: the timeout of a command, and the sleep of `renew`.
abbrev pub IsPrompt : Timings → (now : ℕ) → Phase → Type 0
IsPrompt t now (setting issued) = now < issued + t.command_timeout
IsPrompt t now (set_done granted executed issued) = now < issued + t.command_timeout
IsPrompt t now (owning executed replied) = now < replied + t.refresh_interval
IsPrompt t now (renewing executed issued) = now < issued + t.command_timeout
IsPrompt t now (renewed granted executed issued) = now < issued + t.command_timeout
IsPrompt t now phase = Unit {0}

pub data Step (t : Timings) (w : World) : World → Type 0 where
  tick : ((c : ℕ) → IsPrompt t w.now (w.phase c)) → Step t w (record w { now = w.now + 1 })
  act : (c : ℕ) (e : Event) → Step t w (happen t w c e)

pub data Reach (t : Timings) : World → Type 0 where
  here : Reach t start
  next : {w v : World} → Reach t w → Step t w v → Reach t v
