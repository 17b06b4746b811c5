-- ===== src/Strategy/Copies.antt =====
-- The working copies of the endpoints and the cursors, which the loop of `evaluateStrategy` changes.

use master_dns.Common.{
  ℕ, suc, Option, none, some, List, [], ◌∷◌, String, ◌==◌, is_some, if◌then◌else◌,
}
use master_dns.Common.Text.{str_eq}
use master_dns.Strategy.Types.{StrategyEndpoint, Cursors}

-- A copy of an endpoint with its position, which stands for the identity of the copied object.
pub record Working : Type 0 where
  pub slot : ℕ
  pub endpoint : StrategyEndpoint

unfoldable pub number_from : ℕ → List StrategyEndpoint → List Working
number_from n [] = []
number_from n (e ∷ es) = record { slot = n; endpoint = e } ∷ number_from (suc n) es

-- `workingById.get(id)`: of several copies with one id the last was entered.
unfoldable pub working_by_id : String → List Working → Option Working
working_by_id id [] = none
working_by_id id (w ∷ ws) =
    let later = working_by_id id ws in
    if is_some later then later else if str_eq w.endpoint.id id then some w else none

abbrev pub with_count : StrategyEndpoint → ℕ → StrategyEndpoint
with_count e n = record e { active_binding_count = n }

-- `object.activeBindingCount = change(object.activeBindingCount)` on the object at a position.
unfoldable pub update_count : (ℕ → ℕ) → ℕ → List Working → List Working
update_count change slot [] = []
update_count change slot (w ∷ ws) =
    (if w.slot == slot
      then record w { endpoint = with_count w.endpoint (change w.endpoint.active_binding_count) }
      else w)
    ∷ update_count change slot ws

abbrev pub update_found : (ℕ → ℕ) → Option Working → List Working → List Working
update_found change none ws = ws
update_found change (some w) ws = update_count change w.slot ws

-- The loop over `binding.currentEndpointIds` that changes the count of each that is known.
unfoldable pub update_ids : (ℕ → ℕ) → List String → List Working → List Working
update_ids change [] ws = ws
update_ids change (id ∷ ids) ws =
    update_ids change ids (update_found change (working_by_id id ws) ws)

-- `cursors[key]` and its assignment.
unfoldable pub lookup : String → Cursors → Option String
lookup key [] = none
lookup key ((k, v) ∷ rest) = if str_eq k key then some v else lookup key rest

unfoldable pub assign : String → String → Cursors → Cursors
assign key value [] = (key, value) ∷ []
assign key value ((k, v) ∷ rest) =
    if str_eq k key then (key, value) ∷ rest else (k, v) ∷ assign key value rest

abbrev pub or_else : Option String → Option String → Option String
or_else none other = other
or_else (some value) other = some value
