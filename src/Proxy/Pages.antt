-- ===== src/Proxy/Pages.antt =====
-- internal/proxy/handler.go: the pages that report on the router, and errors.go. A page is its status
-- and what its JSON body says; a text in a query that is missing is empty.
pub mod Models
pub mod Audited
use prompt_response.Common.{
  ℕ, suc, ◌+◌, Bool, true, false, ◌||◌, String, List, [], ◌∷◌, Option, none, some, if◌then◌else◌,
  ◌>>=◌, str_eq, ltb, length, Float, ◌==◌, ℤ, pos, negsuc, Table, lookup, lookup_or, string_eq,
}
use prompt_response.Types.{ModelTier, Replica}
use prompt_response.Poller
use prompt_response.Circuit.Breaker.{state_string}
use prompt_response.Circuit.Registry
use prompt_response.Audit.{Trail, recent}
use prompt_response.Usage.{Usage, Tracker, get}
use prompt_response.Proxy.Retry.{member}

-- errors.go, `writeError`: the type that goes with a status.
unfoldable pub error_type : ℕ → String
error_type status =
    if status == 429
    then "rate_limit_error"
    else if status == 503
    then "service_unavailable"
    else if ltb status 500
    then "invalid_request_error"
    else "server_error"

module _ {N : Type 0} where
  -- A replica is healthy in the snapshot.
  unfoldable pub any_healthy : Table String (Poller.State N) → Bool
  any_healthy [] = false
  any_healthy ((id, s) ∷ states) = if s.healthy then true else any_healthy states

  -- `handleReadiness`: the status, and what it says of it; the states are listed as they are.
  unfoldable pub handle_readiness : Table String (Poller.State N) → ℕ × String
  handle_readiness states = if any_healthy states then (200, "ready") else (503, "not_ready")

  -- The loop of `handleModels`, after the models that were seen.
  unfoldable pub models_after : List String → List (Replica N) → List String
  models_after seen [] = []
  models_after seen (r ∷ rs) =
      let skip = models_after seen rs in
      let rest = models_after (r.model ∷ seen) rs in
      if member seen r.model then skip else r.model ∷ rest

  -- `handleModels`: the ids of the listed models.
  unfoldable pub handle_models : List (Replica N) → List String
  handle_models replicas = models_after [] replicas

-- `replicaStatus`.
pub record ReplicaStatus (N : Type 0) : Type 0 where
  pub id : String
  pub model : String
  pub tier : ModelTier
  pub healthy : Bool
  pub queue_depth : ℤ
  pub kv_cache_util : N
  pub running : ℤ
  pub circuit : String
  pub error_rate : N

module _ {N : Type 0} ⦃F : Float N⦄ where
  -- The loop of `handleRouterStatus` over the replicas, with a circuit registry; a panic is `none`.
  unfoldable pub status_rows :
      ℕ
      → Table String (Poller.State N)
      → List (Replica N)
      → Registry.Registry N
      → Option (List (ReplicaStatus N) × Registry.Registry N)
  status_rows now states [] reg = some ([], reg)
  status_rows now states (r ∷ rs) reg =
      let state = lookup_or Poller.zero_state r.id states in
      let (circuit, reg₁) = Registry.state_of reg r.id now in
      Registry.error_rate reg₁ r.id now >>= λ (rate, reg₂).
      status_rows now states rs reg₂ >>= λ (rows, reg₃). some (
        record {
          id = r.id;
          model = r.model;
          tier = r.tier;
          healthy = state.healthy;
          queue_depth = state.queue_depth;
          kv_cache_util = state.kv_cache_util;
          running = state.running;
          circuit = state_string circuit;
          error_rate = rate;
        }
            ∷ rows,
        reg₃,
      )

  unfoldable pub healthy_count : Table String (Poller.State N) → List (Replica N) → ℕ
  healthy_count states [] = 0
  healthy_count states (r ∷ rs) =
      if (lookup_or Poller.zero_state r.id states).healthy
      then suc (healthy_count states rs)
      else healthy_count states rs

-- The limit of `handleAudit`. `strconv.Atoi` is an argument, `none` its error.
given_limit : Option ℤ → ℕ
given_limit none = 50
given_limit (some (negsuc n)) = 50
given_limit (some (pos n)) = if ltb 0 n then n else 50

unfoldable pub audit_limit : (String → Option ℤ) → String → ℕ
unfolding given_limit
audit_limit atoi limit =
    let n = if str_eq limit "" then 50 else given_limit (atoi limit) in if ltb 200 n then 200 else n

-- `handleAudit`: the records, and whether the trail is enabled.
unfoldable pub handle_audit :
    {R : Type 0} → R → (String → Option ℤ) → Option (Trail R) → String → List R × Bool
handle_audit blank atoi none limit = ([], false)
handle_audit blank atoi (some t) limit = (recent blank t (audit_limit atoi limit), true)

-- What `handleUsage` answers.
pub data UsagePage : Type 0 where
  disabled : UsagePage
  not_found : String → UsagePage
  one_tenant : String → Usage → UsagePage
  all_tenants : Tracker → UsagePage

tenant_page : String → Option Usage → UsagePage
tenant_page tenant none = not_found tenant
tenant_page tenant (some u) = one_tenant tenant u

unfoldable pub handle_usage : Option Tracker → String → UsagePage
unfolding tenant_page
handle_usage none tenant = disabled
handle_usage (some t) tenant =
    if str_eq tenant "" then all_tenants t else tenant_page tenant (get t tenant)
