-- ===== src/Lock/Exclusion.antt =====
-- At no time do two calls own the key.
use master_dns.Common.{
  ℕ, ◌+◌, ◌≤◌, ◌<◌, ◌≡◌, true, false, Option, none, some, ◌==◌, ==_iff, arith, Bool-cases, inl, inr,
}
use master_dns.Lock.Options.{Timings}
use master_dns.Lock.Redis.{Entry, fresh_entry, is_owned, set_nx, refresh_script, release_script}
use master_dns.Lock.Client.{
  Phase, waiting, setting, set_done, owning, renewing, renewed, is_owner, Event, react,
}
use master_dns.Lock.World.{World, happen, IsPrompt, tick, act, Reach, here, next}

-- The renewal, sent late and answered late, still runs before the lease ends.
abbrev pub HasSlack : Timings → Type 0
HasSlack t = t.refresh_interval + t.command_timeout + t.command_timeout < t.lease

-- The times of a phase are in order and within their timers, and the key is the call's since
-- `executed`.
abbrev pub Holds : Timings → (now : ℕ) → Option Entry → (token : ℕ) → Phase → Type 0
Holds t now entry token (setting issued) = (issued ≤ now) × (now ≤ issued + t.command_timeout)
Holds t now entry token (set_done true executed issued) =
    (issued ≤ executed)
    × (executed ≤ now)
    × (now ≤ issued + t.command_timeout)
    × (entry ≡ fresh_entry token t.lease executed)
Holds t now entry token (set_done false executed issued) = Unit {0}
Holds t now entry token (owning executed replied) =
    (replied ≤ now)
    × (now ≤ replied + t.refresh_interval)
    × (replied ≤ executed + t.command_timeout)
    × (entry ≡ fresh_entry token t.lease executed)
Holds t now entry token (renewing executed issued) =
    (issued ≤ now)
    × (now ≤ issued + t.command_timeout)
    × (issued ≤ executed + t.command_timeout + t.refresh_interval)
    × (entry ≡ fresh_entry token t.lease executed)
Holds t now entry token (renewed true executed issued) =
    (issued ≤ executed)
    × (executed ≤ now)
    × (now ≤ issued + t.command_timeout)
    × (entry ≡ fresh_entry token t.lease executed)
Holds t now entry token (renewed false executed issued) = ⊥
Holds t now entry token phase = Unit {0}

module _ (t : Timings) (slack : HasSlack t) where
  -- Time passes.
  Holds-tick :
      (now : ℕ) (entry : Option Entry) (token : ℕ) (p : Phase)
      → IsPrompt t now p
      → Holds t now entry token p
      → Holds t (now + 1) entry token p
  Holds-tick now entry token (setting issued) prompt h = ground arith
  Holds-tick now entry token (set_done true executed issued) prompt h = ground arith
  Holds-tick now entry token (owning executed replied) prompt h = ground arith
  Holds-tick now entry token (renewing executed issued) prompt h = ground arith
  Holds-tick now entry token (renewed true executed issued) prompt h = ground arith
  Holds-tick now entry token p prompt h = h

  -- The call's own event.
  Holds-react :
      (now : ℕ) (entry : Option Entry) (token : ℕ) (p : Phase) (e : Event)
      → Holds t now entry token p
      → Holds t now (react t now token entry p e).entry token (react t now token entry p e).phase
  unfolding react set_nx refresh_script release_script
  Holds-react now entry token (setting issued) e h = ground arith
  Holds-react now entry token (set_done true executed issued) e h = ground arith
  Holds-react now entry token (set_done false executed issued) e h = ground arith
  Holds-react now entry token (owning executed replied) e h = ground arith
  Holds-react now entry token (renewing executed issued) e h = ground arith
  Holds-react now entry token (renewed true executed issued) e h = ground arith
  Holds-react now entry token (renewed false executed issued) e h = absurd h
  Holds-react now entry token p e h = ground arith

  -- While an entry is live, events of a call with another token leave it as it is.
  react-foreign :
      (now token other expires : ℕ) (p : Phase) (e : Event)
      → (token == other) ≡ false
      → now < expires
      → (react t now other (some (record { token = token; expires_at = expires })) p e).entry
        ≡ some (record { token = token; expires_at = expires })
  unfolding react set_nx refresh_script release_script
  react-foreign now token other expires p e differ live = ground arith

  -- So each event of another call keeps what a call holds.
  Holds-foreign :
      (now : ℕ) (entry : Option Entry) (token other : ℕ) (p q : Phase) (e : Event)
      → (token == other) ≡ false
      → Holds t now entry token p
      → Holds t now (react t now other entry q e).entry token p
  Holds-foreign now entry token other (set_done true executed issued) q e differ (a, b, c, k) =
      (a, b, c, rw k (react-foreign now token other (executed + t.lease) q e differ (omega arith)))
  Holds-foreign now entry token other (owning executed replied) q e differ (a, b, c, k) =
      (a, b, c, rw k (react-foreign now token other (executed + t.lease) q e differ (omega arith)))
  Holds-foreign now entry token other (renewing executed issued) q e differ (a, b, c, k) =
      (a, b, c, rw k (react-foreign now token other (executed + t.lease) q e differ (omega arith)))
  Holds-foreign now entry token other (renewed true executed issued) q e differ (a, b, c, k) =
      (a, b, c, rw k (react-foreign now token other (executed + t.lease) q e differ (omega arith)))
  Holds-foreign now entry token other p q e differ h = h

  abbrev AllHold : World → Type 0
  AllHold w = (c : ℕ) → Holds t w.now w.entry c (w.phase c)

  happen-AllHold : (w : World) (c : ℕ) (e : Event) → AllHold w → AllHold (happen t w c e)
  unfolding happen
  happen-AllHold w c e h d = elim (Bool-cases (d == c)) [
    | inl same ↦ rw (same, (==_iff d c).0 same) (Holds-react w.now w.entry c (w.phase c) e (h c))
    | inr other ↦ rw other (Holds-foreign w.now w.entry d c (w.phase d) (w.phase c) e other (h d))
  ]

  Reach-AllHold : {w : World} → Reach t w → AllHold w
  Reach-AllHold here c = tt
  Reach-AllHold (next {w} r (tick prompt)) c =
      Holds-tick w.now w.entry c (w.phase c) (prompt c) (Reach-AllHold r c)
  Reach-AllHold (next {w} r (act d e)) c = happen-AllHold w d e (Reach-AllHold r) c

  -- An owner has the live entry.
  owner_lem :
      (now : ℕ) (entry : Option Entry) (token : ℕ) (p : Phase)
      → is_owner p ≡ true
      → Holds t now entry token p
      → is_owned entry token now ≡ true
  owner_lem now entry token (owning executed replied) o (a, b, c, k) = rw k (ground arith)
  owner_lem now entry token (renewing executed issued) o (a, b, c, k) = rw k (ground arith)
  owner_lem now entry token (renewed true executed issued) o (a, b, c, k) = rw k (ground arith)
  owner_lem now entry token (renewed false executed issued) o h = absurd h
  owner_lem now entry token waiting o h = cc
  owner_lem now entry token p o h = cc

is_owned_unique :
    (entry : Option Entry) (c d now : ℕ)
    → is_owned entry c now ≡ true
    → is_owned entry d now ≡ true
    → c ≡ d
is_owned_unique none c d now p q = cc
is_owned_unique (some e) c d now p q = ground arith

-- In every state that can be reached while timers fire when they are due, a call whose action
-- runs without a lost lease has the live entry of the key, and no two calls do so at once. This
-- needs the lease to be longer than the refresh interval and two command timeouts.
pub Reach-exclusive :
    (t : Timings) (w : World) (c d : ℕ)
    → HasSlack t
    → Reach t w
    → is_owner (w.phase c) ≡ true
    → is_owner (w.phase d) ≡ true
    → (is_owned w.entry c w.now ≡ true) × (c ≡ d)
Reach-exclusive t w c d slack r p q =
    let has = λ (k : ℕ) (o : is_owner (w.phase k) ≡ true).
      owner_lem t slack w.now w.entry k (w.phase k) o (Reach-AllHold t slack r k) in
    (has c p, is_owned_unique w.entry c d w.now (has c p) (has d q))
