-- ===== src/Workflow/Escalation.antt =====
-- src/workflows/escalation-policy.ts: what follows the failure of a worker.
pub mod Attempts
use omp_lazy.Prelude.{
  ℕ, ◌+◌, Bool, true, false, List, [], ◌∷◌, Option, none, some, head?, ◌==◌, nat_eq, if◌then◌else◌,
}
use omp_lazy.Contracts.TaskPacket.{TaskTier, fast, standard, deep}

pub data ModelRole : Type 0 where
  smol task slow : ModelRole

pub data FailureFingerprint : Type 0 where
  transport_transient semantic_mismatch test_failure new_boundary : FailureFingerprint
  provider_unavailable authorization containment stale_state : FailureFingerprint
  cleanup_failure unknown : FailureFingerprint

abbrev pub tier_roles : TaskTier → List ModelRole
tier_roles fast = smol ∷ []
tier_roles standard = smol ∷ task ∷ []
tier_roles deep = smol ∷ task ∷ slow ∷ []

pub data RouteStatus : Type 0 where
  pass blocked : RouteStatus

pub data RouteAction : Type 0 where
  dispatch resend escalated block fail : RouteAction

pub data RouteCode : Type 0 where
  failure : FailureFingerprint → RouteCode
  budget_exhausted : RouteCode

pub record WorkerRoute : Type 0 where
  pub status : RouteStatus
  pub action : RouteAction
  pub tier : TaskTier
  pub previous_tier : Option TaskTier
  pub role : ModelRole
  pub semantic_attempt : ℕ
  pub transport_request : ℕ
  pub allowed_roles : List ModelRole
  pub code : Option RouteCode

unfoldable pub initial_worker_route : TaskTier → WorkerRoute
initial_worker_route tier = record {
  status = pass;
  action = dispatch;
  tier = tier;
  previous_tier = none;
  role = smol;
  semantic_attempt = 1;
  transport_request = 1;
  allowed_roles = tier_roles tier;
  code = none;
}

abbrev pub same_role : ModelRole → ModelRole → Bool
same_role smol smol = true
same_role task task = true
same_role slow slow = true
same_role _ _ = false

-- What follows the first occurrence of a role, or nothing if it does not occur.
abbrev behind : ModelRole → List ModelRole → Option (List ModelRole)
behind role [] = none
behind role (r ∷ rs) = let rest = behind role rs in if same_role r role then some rs else rest

abbrev at_next : List ModelRole → Option (List ModelRole) → Option ModelRole
at_next roles none = head? roles
at_next roles (some rest) = head? rest

-- `roles[roles.indexOf(role) + 1]`; `indexOf` is -1 for a role that does not occur.
abbrev pub role_behind : List ModelRole → ModelRole → Option ModelRole
role_behind roles role = at_next roles (behind role roles)

abbrev exhaust : WorkerRoute → WorkerRoute
exhaust route = record route { status = blocked; action = fail; code = some budget_exhausted }

abbrev escalate_to :
    WorkerRoute → FailureFingerprint → TaskTier → Option TaskTier → Option ModelRole → WorkerRoute
escalate_to route code tier previous_tier none = exhaust route
escalate_to route code tier previous_tier (some role) = record {
  status = pass;
  action = escalated;
  tier = tier;
  previous_tier = previous_tier;
  role = role;
  semantic_attempt = route.semantic_attempt + 1;
  transport_request = 1;
  allowed_roles = tier_roles tier;
  code = some (failure code);
}

abbrev pub escalate : WorkerRoute → FailureFingerprint → TaskTier → Option TaskTier → WorkerRoute
escalate route code tier previous_tier =
    escalate_to route code tier previous_tier (role_behind (tier_roles tier) route.role)

abbrev pub block_route : WorkerRoute → FailureFingerprint → WorkerRoute
block_route route code = record route {
  status = blocked;
  action = block;
  code = some (failure code);
}

abbrev pub resend_route : WorkerRoute → FailureFingerprint → WorkerRoute
resend_route route code = record route {
  action = resend;
  transport_request = 2;
  code = some (failure code);
}

abbrev cross_boundary : WorkerRoute → TaskTier → WorkerRoute
cross_boundary route fast = escalate route new_boundary standard (some fast)
cross_boundary route _ = escalate route new_boundary route.tier none

abbrev retry_semantic : WorkerRoute → FailureFingerprint → Option ModelRole → WorkerRoute
retry_semantic route code none = exhaust route
retry_semantic route code (some next) = escalate route code route.tier none

-- The `switch` on the failure.
abbrev reduce_failure : WorkerRoute → FailureFingerprint → WorkerRoute
reduce_failure route transport_transient =
    if route.transport_request == 1
    then resend_route route transport_transient
    else escalate route transport_transient route.tier none
reduce_failure route provider_unavailable =
    if route.transport_request == 1
    then resend_route route provider_unavailable
    else block_route route provider_unavailable
reduce_failure route new_boundary = cross_boundary route route.tier
reduce_failure route semantic_mismatch =
    retry_semantic route semantic_mismatch (role_behind route.allowed_roles route.role)
reduce_failure route test_failure =
    retry_semantic route test_failure (role_behind route.allowed_roles route.role)
reduce_failure route authorization = block_route route authorization
reduce_failure route containment = block_route route containment
reduce_failure route stale_state = block_route route stale_state
reduce_failure route cleanup_failure = block_route route cleanup_failure
reduce_failure route unknown = block_route route unknown

abbrev reduce_open : RouteStatus → WorkerRoute → FailureFingerprint → WorkerRoute
reduce_open blocked route code = route
reduce_open pass route code = reduce_failure route code

unfoldable pub reduce_worker_failure : WorkerRoute → FailureFingerprint → WorkerRoute
reduce_worker_failure route code = reduce_open route.status route code
