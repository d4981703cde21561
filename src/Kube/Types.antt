-- ===== src/Kube/Types.antt =====
-- What the reader sees of a cluster at one time (internal/kube/types.go). `V` is float64.
use sy_mon.Base.{
  ℕ, ◌+◌, String, Bool, List, [], ◌∷◌, if◌then◌else◌, ltb_ℤ, sub_ℕ, pos_part, neg_part, ℤ, pos,
  concat,
}

module _ {κ} (V : Type κ) where
  pub record Node : Type κ where
    pub name : String
    pub ready : Bool
    -- unix seconds, as all times here
    pub ready_changed : ℕ
    pub roles : List String
    pub kubelet_version : String
    pub unschedulable : Bool
    -- the pressure conditions that are on
    pub pressure : List String
    pub cpu_cores : V
    pub memory_bytes : V

pub record Workload : Type 0 where
  pub namespace : String
  pub kind : String
  pub name : String
  pub desired : ℤ
  pub ready : ℤ
  pub available : ℤ

pub record PodContainer : Type 0 where
  pub name : String
  pub id : String
  pub image : String
  pub ready : Bool
  pub restarts : ℤ
  pub state : String
  pub reason : String
  pub last_reason : String
  pub last_finished : ℕ

pub record Pod : Type 0 where
  pub namespace : String
  pub name : String
  pub uid : String
  pub node : String
  pub workload : String
  pub phase : String
  pub ready : Bool
  pub reason : String
  pub created : ℕ
  pub containers : List PodContainer

pub record Event : Type 0 where
  pub namespace : String
  pub kind : String
  pub name : String
  pub reason : String
  pub message : String
  pub count : ℤ
  pub last_seen : ℕ

pub record ClusterState {κ} (V : Type κ) : Type κ where
  pub cluster : String
  pub time : ℕ
  pub error : String
  pub nodes : List (Node V)
  pub workloads : List Workload
  pub pods : List Pod
  pub events : List Event

-- `Key` of a workload
abbrev pub key_of : Workload → String
key_of w = concat (w.namespace ∷ "/" ∷ w.kind ∷ "/" ∷ w.name ∷ [])

-- `Missing`: max(Desired - Available, 0)
abbrev pub missing : Workload → ℤ
missing w =
    if ltb_ℤ w.available w.desired
    then sub_ℕ (pos_part w.desired + neg_part w.available)
        (pos_part w.available + neg_part w.desired)
    else pos 0

abbrev pub workload_key : Pod → String
workload_key p = concat (p.namespace ∷ "/" ∷ p.workload ∷ [])

-- The sum of two integers.
abbrev pub add_ℤ : ℤ → ℤ → ℤ
add_ℤ a b = sub_ℕ (pos_part a + pos_part b) (neg_part a + neg_part b)

-- `Restarts` of a pod
abbrev pub restarts_of : List PodContainer → ℤ
restarts_of [] = pos 0
restarts_of (c ∷ cs) = add_ℤ c.restarts (restarts_of cs)
