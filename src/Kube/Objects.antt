-- ===== src/Kube/Objects.antt =====
-- What the reader makes of nodes and workloads (internal/kube/objects.go). The JSON decoder and the
-- float parser with float64's product and quotient are arguments. A time is in nanoseconds since
-- 1970; one that the API left out is 0.
use Prim.Native.String.{compare}
use Prim.Native.Nat.{Ordering}
use sy_mon.Base.{
  ℕ, ◌/◌, String, Bool, true, false, ◌&&◌, Option, none, some, List, [], ◌∷◌, map, if◌then◌else◌,
  ◌==◌, string_eq, find, select, lookup, ℤ, pos, is_empty,
}
use sy_mon.Alerts.Data.{second}
use sy_mon.Kube.Types.{Node, Workload}
use sy_mon.Kube.Evaluate.{cut_prefix}

pub record OwnerReference : Type 0 where
  pub kind : String
  pub name : String
  pub controller : Bool

pub record ObjectMeta : Type 0 where
  pub name : String
  pub namespace : String
  pub uid : String
  pub creation_timestamp : ℕ
  pub labels : List (String × String)
  pub owner_references : List OwnerReference

pub record Condition : Type 0 where
  pub kind : String
  pub status : String
  pub reason : String
  pub last_transition_time : ℕ

unfoldable pub find_condition : List Condition → String → Option Condition
find_condition conditions kind = find (λ (c : Condition). c.kind == kind) conditions

-- strings.CutSuffix
unfoldable pub cut_suffix : String → String → Option String
cut_suffix String.[] suffix = if is_empty suffix then some "" else none
cut_suffix (String.◌∷◌ c s) suffix =
    let rest = cut_suffix s suffix in
    if String.◌∷◌ c s == suffix
    then some ""
    else elim rest [ none ↦ none | some t ↦ some (String.◌∷◌ c t) ]

abbrev pub is_some {κ} : {A : Type κ} → Option A → Bool
is_some none = false
is_some (some a) = true

-- unix: seconds.
abbrev pub unix : ℕ → ℕ
unix t = t / second

-- float64 as `quantity` uses it.
pub record Quantities (V : Type 0) : Type 0 where
  pub parse_float : String → Option V
  pub times : V → V → V
  pub over : V → V → V
  pub of_nat : ℕ → V

module _ {V : Type 0} (q : Quantities V) where
  abbrev pub or_zero : Option V → V
  or_zero none = q.of_nat 0
  or_zero (some v) = v

  abbrev pub scaled : ℕ → Option V → V
  scaled factor none = q.of_nat 0
  scaled factor (some v) = q.times v (q.of_nat factor)

  abbrev pub milli : Option V → V
  milli none = q.of_nat 0
  milli (some v) = q.over v (q.of_nat 1000)

  abbrev pub by_suffix : List (String × ℕ) → String → V
  by_suffix [] text = or_zero (q.parse_float text)
  by_suffix ((suffix, factor) ∷ rest) text = elim (cut_suffix text suffix) [
    | none ↦ by_suffix rest text
    | some number ↦ scaled factor (q.parse_float number)
  ]

  abbrev pub suffixes : List (String × ℕ)
  suffixes =
      ("Ki", 1024)
      ∷ ("Mi", 1048576)
      ∷ ("Gi", 1073741824)
      ∷ ("Ti", 1099511627776)
      ∷ ("k", 1000)
      ∷ ("M", 1000000)
      ∷ ("G", 1000000000)
      ∷ ("T", 1000000000000)
      ∷ []

  -- A resource quantity like 3800m, 4 or 8023488Ki.
  unfoldable pub quantity : String → V
  unfolding cut_suffix
  quantity text = elim (cut_suffix text "m") [
    | none ↦ by_suffix suffixes text
    | some number ↦ milli (q.parse_float number)
  ]

pub record ApiNode : Type 0 where
  pub metadata : ObjectMeta
  pub unschedulable : Bool
  pub conditions : List Condition
  pub allocatable : List (String × String)
  pub kubelet_version : String

abbrev pub role_label : String
role_label = "node-role.kubernetes.io/"

abbrev pub value_of : String → List (String × String) → String
value_of key entries = elim (lookup key entries) [ none ↦ "" | some v ↦ v ]

abbrev pub is_ready : Option Condition → Bool
is_ready none = false
is_ready (some c) = c.status == "True"

abbrev pub changed_at : Option Condition → ℕ
changed_at none = 0
changed_at (some c) = unix c.last_transition_time

abbrev pub is_pressure : Condition → Bool
is_pressure c = is_some (cut_suffix c.kind "Pressure") && c.status == "True"

abbrev pub role_of : Option String → List String → List String
role_of none roles = roles
role_of (some role) roles = if is_empty role then roles else role ∷ roles

abbrev pub roles_of : List (String × String) → List String
roles_of [] = []
roles_of ((label, val) ∷ rest) = role_of (cut_prefix role_label label) (roles_of rest)

abbrev pub is_before : Ordering → Bool
is_before Ordering.lt = true
is_before Ordering.eq = false
is_before Ordering.gt = false

-- slices.Sort
abbrev pub insert_sorted : String → List String → List String
insert_sorted s [] = s ∷ []
insert_sorted s (t ∷ ts) = if is_before (compare t s) then t ∷ insert_sorted s ts else s ∷ t ∷ ts

abbrev pub sorted : List String → List String
sorted [] = []
sorted (s ∷ ss) = insert_sorted s (sorted ss)

unfoldable pub node_of : {V : Type 0} → Quantities V → ApiNode → Node V
unfolding find_condition quantity cut_suffix cut_prefix lookup
node_of q n = record {
  name = n.metadata.name;
  ready = is_ready (find_condition n.conditions "Ready");
  ready_changed = changed_at (find_condition n.conditions "Ready");
  roles = sorted (roles_of n.metadata.labels);
  kubelet_version = n.kubelet_version;
  unschedulable = n.unschedulable;
  pressure = map (λ (c : Condition). c.kind) (select is_pressure n.conditions);
  cpu_cores = quantity q (value_of "cpu" n.allocatable);
  memory_bytes = quantity q (value_of "memory" n.allocatable);
}

-- A deployment or a statefulset.
pub record ApiReplicated : Type 0 where
  pub metadata : ObjectMeta
  -- none is 1
  pub replicas : Option ℤ
  pub ready_replicas : ℤ
  pub available_replicas : ℤ

abbrev pub desired_of : Option ℤ → ℤ
desired_of none = pos 1
desired_of (some n) = n

unfoldable pub replicated_workload : ApiReplicated → String → Workload
replicated_workload r kind = record {
  namespace = r.metadata.namespace;
  kind = kind;
  name = r.metadata.name;
  desired = desired_of r.replicas;
  ready = r.ready_replicas;
  available = r.available_replicas;
}

pub record ApiDaemonSet : Type 0 where
  pub metadata : ObjectMeta
  pub desired_number_scheduled : ℤ
  pub number_ready : ℤ
  pub number_available : ℤ

unfoldable pub daemon_workload : ApiDaemonSet → Workload
daemon_workload d = record {
  namespace = d.metadata.namespace;
  kind = "daemonset";
  name = d.metadata.name;
  desired = d.desired_number_scheduled;
  ready = d.number_ready;
  available = d.number_available;
}
