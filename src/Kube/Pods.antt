-- ===== src/Kube/Pods.antt =====
-- What the reader makes of pods (internal/kube/objects.go). The JSON decoder and strings.ToLower are
-- arguments.
use Prim.Native.String.{◌++◌ as append}
use sy_mon.Base.{
  ℕ, String, Char, Bool, true, false, ◌&&◌, not, Option, none, some, List, [], ◌∷◌, map,
  if◌then◌else◌, ◌==◌, string_eq, find, contains, lookup, ℤ, concat, is_empty,
}
use sy_mon.Kube.Types.{PodContainer, Pod}
use sy_mon.Kube.Evaluate.{cut_prefix}
use sy_mon.Kube.Objects.{
  OwnerReference, ObjectMeta, Condition, find_condition, cut_suffix, unix, value_of, is_ready,
}
pub mod Deployments

-- A reason, and when the container finished.
pub record Terminated : Type 0 where
  pub reason : String
  pub finished_at : ℕ

pub record ContainerState : Type 0 where
  -- the reason of the wait
  pub waiting : Option String
  pub running : Bool
  pub terminated : Option Terminated

pub record ContainerStatus : Type 0 where
  pub name : String
  pub image : String
  pub container_id : String
  pub ready : Bool
  pub restart_count : ℤ
  pub state : ContainerState
  pub last_state : ContainerState

pub record ApiPod : Type 0 where
  pub metadata : ObjectMeta
  pub node_name : String
  pub phase : String
  pub reason : String
  pub conditions : List Condition
  pub init_container_statuses : List ContainerStatus
  pub container_statuses : List ContainerStatus

-- What follows the first separator: strings.Cut.
unfoldable pub after_first : String → String → Option String
unfolding cut_prefix
after_first String.[] sep = cut_prefix sep ""
after_first (String.◌∷◌ c s) sep =
    let rest = after_first s sep in
    elim (cut_prefix sep (String.◌∷◌ c s)) [ none ↦ rest | some t ↦ some t ]

abbrev pub bare_id : Option String → String
bare_id none = ""
bare_id (some id) = id

-- The state and its reason.
abbrev pub state_of : ContainerState → String × String
state_of s = if s.running then ("running", "") else elim s.waiting [
  | some reason ↦ ("waiting", reason)
  | none ↦ elim s.terminated [ none ↦ ("", "") | some t ↦ ("terminated", t.reason) ]
]

abbrev pub last_reason_of : Option Terminated → String
last_reason_of none = ""
last_reason_of (some t) = t.reason

abbrev pub last_finished_of : Option Terminated → ℕ
last_finished_of none = 0
last_finished_of (some t) = unix t.finished_at

unfoldable pub container_of : ContainerStatus → PodContainer
unfolding after_first
container_of s = record {
  name = s.name;
  id = bare_id (after_first s.container_id "://");
  image = s.image;
  ready = s.ready;
  restarts = s.restart_count;
  state = (state_of s.state).0;
  reason = (state_of s.state).1;
  last_reason = last_reason_of s.last_state.terminated;
  last_finished = last_finished_of s.last_state.terminated;
}

-- Waits that are part of starting normally.
abbrev pub starting_reasons : List String
starting_reasons = "ContainerCreating" ∷ "PodInitializing" ∷ []

abbrev pub stuck_reason : Option String → Option String
stuck_reason none = none
stuck_reason (some reason) =
    if not (is_empty reason) && not (contains starting_reasons reason) then some reason else none

abbrev pub ended_reason : Option Terminated → Option String
ended_reason none = none
ended_reason (some t) =
    if not (is_empty t.reason) && not (t.reason == "Completed") then some t.reason else none

abbrev pub first_of : List (Option String) → Option String
first_of [] = none
first_of (none ∷ rest) = first_of rest
first_of (some s ∷ rest) = some s

abbrev pub or_else : Option String → Option String → Option String
or_else none other = other
or_else (some s) other = some s

abbrev pub init_prefix : Option String → Option String
init_prefix none = none
init_prefix (some s) = some (append "Init:" s)

abbrev pub unscheduled : Option Condition → Option String
unscheduled none = none
unscheduled (some c) =
    if c.status == "False" && not (is_empty c.reason) then some c.reason else none

-- Why a pod is not running well, like kubectl's STATUS column. Empty when nothing is wrong.
unfoldable pub pod_reason_of : ApiPod → String
unfolding find_condition
pod_reason_of p =
    if p.phase == "Succeeded"
    then ""
    else if p.phase == "Failed" && not (is_empty p.reason)
    then p.reason
    else bare_id (
        or_else (unscheduled (find_condition p.conditions "PodScheduled")) (
          or_else
            (init_prefix (
              first_of (
                map (λ (s : ContainerStatus). stuck_reason s.state.waiting)
                  p.init_container_statuses)))
            (or_else
              (first_of
                (map (λ (s : ContainerStatus). stuck_reason s.state.waiting) p.container_statuses))
              (first_of (
                map (λ (s : ContainerStatus). ended_reason s.state.terminated)
                  p.container_statuses)))))

abbrev pub own_pod : ObjectMeta → String
own_pod meta = append "pod/" meta.name

-- The deployment of a ReplicaSet, when its name ends in the hash.
abbrev pub deployment_of : String → String → Option String
deployment_of name hash = if is_empty hash then none else cut_suffix name (append "-" hash)

abbrev pub owned_by : (String → String) → ObjectMeta → Option OwnerReference → String
owned_by to_lower meta none = own_pod meta
owned_by to_lower meta (some owner) =
    if owner.kind == "ReplicaSet"
    then elim (deployment_of owner.name (value_of "pod-template-hash" meta.labels)) [
      | none ↦ concat (to_lower owner.kind ∷ "/" ∷ owner.name ∷ [])
      | some deployment ↦ append "deployment/" deployment
    ]
    else if owner.kind == "Node"
    then own_pod meta
    else concat (to_lower owner.kind ∷ "/" ∷ owner.name ∷ [])

-- kind/name of what runs a pod.
unfoldable pub pod_workload : (String → String) → ObjectMeta → String
unfolding cut_suffix lookup
pod_workload to_lower meta =
    owned_by to_lower meta (find (λ (o : OwnerReference). o.controller) meta.owner_references)

unfoldable pub pod_of : (String → String) → ApiPod → Pod
unfolding find_condition container_of pod_reason_of pod_workload
pod_of to_lower p = record {
  namespace = p.metadata.namespace;
  name = p.metadata.name;
  uid = p.metadata.uid;
  node = p.node_name;
  workload = pod_workload to_lower p.metadata;
  phase = p.phase;
  ready = is_ready (find_condition p.conditions "Ready");
  reason = pod_reason_of p;
  created = unix p.metadata.creation_timestamp;
  containers = map container_of p.container_statuses;
}
