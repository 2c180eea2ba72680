-- ===== src/Workflow/Escalation/Attempts.antt =====
-- escalation-policy.ts: a worker's route ends.
use omp_lazy.Prelude.{
  ℕ, ◌+◌, ◌≤◌, ◌<◌, ◌≡◌, ◌⊎◌, refl, Bool, true, false, List, [], ◌∷◌, arith, length, inl, inr,
  Bool-cases, any,
}
use omp_lazy.Contracts.TaskPacket.{TaskTier}
use omp_lazy.Workflow.Escalation.{
  ModelRole, smol, task, slow, FailureFingerprint, tier_roles, RouteStatus, pass, blocked,
  WorkerRoute, initial_worker_route, reduce_worker_failure, same_role,
}

-- The place of a role among those of the tiers, from 1.
abbrev pub rank : ModelRole → ℕ
rank smol = 1
rank task = 2
rank slow = 3

abbrev pub is_blocked : RouteStatus → Bool
is_blocked blocked = true
is_blocked pass = false

-- A route keeps to its tier: the roles are the tier's, its role is one of them, and the attempt
-- counts the roles up to it.
pub record IsRouted (route : WorkerRoute) : Type 0 where
  pub roles : route.allowed_roles ≡ tier_roles route.tier
  pub attempt : route.semantic_attempt ≡ rank route.role
  pub within : rank route.role ≤ length (tier_roles route.tier)
  pub least_request : 1 ≤ route.transport_request
  pub most_requests : route.transport_request ≤ 2

-- The requests that a route has behind it.
abbrev pub spent : WorkerRoute → ℕ
spent route = rank route.role + rank route.role + route.transport_request

-- What a failure makes of a route.
abbrev IsAdvance : WorkerRoute → WorkerRoute → Type 0
IsAdvance route next =
    IsRouted next
    × (is_blocked next.status ≡ false → spent route < spent next)
    × (is_blocked route.status ≡ true → next ≡ route)

-- A failure keeps the route to its tier, and blocks it or spends one of its requests.
reduce_worker_failure-IsRouted :
    (route : WorkerRoute) (failure : FailureFingerprint)
    → IsRouted route
    → IsAdvance route (reduce_worker_failure route failure)
unfolding reduce_worker_failure
reduce_worker_failure-IsRouted route failure h = (
  record {
    roles = ground (arith, h.roles);
    attempt = ground (arith, h.roles, h.attempt);
    within = ground (arith, h.roles, h.within);
    least_request = ground (arith, h.least_request);
    most_requests = ground (arith, h.most_requests);
  },
  λ b. ground (arith, h.roles),
  λ b. ground arith,
)

-- A series of failures.
abbrev pub route_all : WorkerRoute → List FailureFingerprint → WorkerRoute
route_all route [] = route
route_all route (f ∷ fs) = route_all (reduce_worker_failure route f) fs

route_all-blocked :
    (route : WorkerRoute) (fs : List FailureFingerprint)
    → IsRouted route
    → is_blocked route.status ≡ true
    → route_all route fs ≡ route
route_all-blocked route [] h b = refl
route_all-blocked route (f ∷ fs) h b =
    let (routed, more, stays) = reduce_worker_failure-IsRouted route f h in
    rw (stays b) (route_all-blocked route fs h b)

route_all-IsRouted :
    (route : WorkerRoute) (fs : List FailureFingerprint)
    → IsRouted route
    → IsRouted (route_all route fs)
      × (is_blocked (route_all route fs).status ≡ false
          → spent route + length fs ≤ spent (route_all route fs))
route_all-IsRouted route [] h = (h, λ b. omega arith)
route_all-IsRouted route (f ∷ fs) h =
    let (routed, more, stays) = reduce_worker_failure-IsRouted route f h in
    let (last, rest) = route_all-IsRouted (reduce_worker_failure route f) fs routed in
    (
      last,
      λ b. elim (Bool-cases (is_blocked (reduce_worker_failure route f).status)) [
        | inl on ↦
            absurd (ground (arith, route_all-blocked (reduce_worker_failure route f) fs routed on))
        | inr off ↦ omega (arith, rest b, more off)
      ],
    )

initial-IsRouted : (tier : TaskTier) → IsRouted (initial_worker_route tier)
unfolding initial_worker_route
initial-IsRouted tier = record {
  roles = refl;
  attempt = refl;
  within = ground arith;
  least_request = omega arith;
  most_requests = omega arith;
}

-- Whatever fails and in whatever order, a worker's route has at most three semantic attempts, its
-- role is one that the tier it has come to allows, and after six failures or
-- more it is blocked.
pub route_all-ends :
    (tier : TaskTier) (fs : List FailureFingerprint)
    → ((route_all (initial_worker_route tier) fs).semantic_attempt ≤ 3)
      × (any
            (same_role (route_all (initial_worker_route tier) fs).role)
            (tier_roles (route_all (initial_worker_route tier) fs).tier)
          ≡ true)
      × ((length fs ≤ 5) ⊎ (is_blocked (route_all (initial_worker_route tier) fs).status ≡ true))
route_all-ends tier fs =
    let (h, costs) = route_all-IsRouted (initial_worker_route tier) fs (initial-IsRouted tier) in
    (
      ground (arith, h.attempt),
      ground (arith, h.within),
      elim (Bool-cases (is_blocked (route_all (initial_worker_route tier) fs).status)) [
        | inl on ↦ inr on
        | inr off ↦
            let start : spent (initial_worker_route tier) ≡ 3 =
              unfold initial_worker_route in refl in
            inl (ground (arith, costs off, h.most_requests, start))
      ],
    )
