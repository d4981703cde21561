-- ===== src/Kube/Restarts.antt =====
-- The restarts between two states of a cluster (`Restarts` of internal/kube/restarts.go). The map of
-- what was seen before is an association list.
use Prim.Native.String.{◌++◌ as append}
use sy_mon.Base.{
  ℕ, ◌+◌, ◌≤◌, String, Bool, true, false, ◌&&◌, ◌||◌, not, Option, none, some, List, [], ◌∷◌, ◌++◌,
  if◌then◌else◌, ◌==◌, string_eq, nat_eq, ltb, leb, ltb_ℤ, ℤ, pos, negsuc, sub_ℕ, pos_part,
  neg_part, lookup, insert, map, concat, contains, All, ◌≡◌, refl, arith, inl, inr, Bool-cases,
  Option-cases, lookup-insert, Unique, any,
}
pub mod Seen
use sy_mon.Kube.Types.{PodContainer, Pod, ClusterState}

-- A container that restarted between two states.
pub record Restart : Type 0 where
  pub namespace : String
  pub workload : String
  pub pod : String
  pub container : String
  pub count : ℤ
  pub reason : String

abbrev pub container_key : String → String → String
container_key uid name = concat (uid ∷ "/" ∷ name ∷ [])

abbrev pub note_containers : String → List PodContainer → List (String × ℤ) → List (String × ℤ)
note_containers uid [] before = before
note_containers uid (c ∷ cs) before =
    note_containers uid cs (insert (container_key uid c.name) c.restarts before)

abbrev pub note_pods : List Pod → List (String × ℤ) → List (String × ℤ)
note_pods [] before = before
note_pods (p ∷ ps) before = note_pods ps (note_containers p.uid p.containers before)

-- a - b
abbrev pub sub_ℤ : ℤ → ℤ → ℤ
sub_ℤ a b = sub_ℕ (pos_part a + neg_part b) (neg_part a + pos_part b)

-- How often it restarted: a count that went down is counted from zero.
abbrev pub since_before : ℤ → Option ℤ → ℤ
since_before count none = count
since_before count (some old) = if ltb_ℤ count old then count else sub_ℤ count old

abbrev pub is_positive : ℤ → Bool
is_positive n = ltb_ℤ (pos 0) n

abbrev pub restart_of : Pod → PodContainer → ℤ → Restart
restart_of p c count = record {
  namespace = p.namespace;
  workload = p.workload;
  pod = p.name;
  container = c.name;
  count = count;
  reason = c.last_reason;
}

abbrev pub container_restarts : List (String × ℤ) → Pod → List PodContainer → List Restart
container_restarts before p [] = []
container_restarts before p (c ∷ cs) =
    let count = since_before c.restarts (lookup (container_key p.uid c.name) before) in
    let rest = container_restarts before p cs in
    if is_positive count then restart_of p c count ∷ rest else rest

-- A pod first seen now only counts when it was created after the state before.
abbrev pub is_history : List String → ℕ → Pod → Bool
is_history known time p = not (contains known p.uid) && leb p.created time

abbrev pub pod_restarts : List String → ℕ → List (String × ℤ) → List Pod → List Restart
pod_restarts known time before [] = []
pod_restarts known time before (p ∷ ps) =
    let rest = pod_restarts known time before ps in
    if is_history known time p then rest else container_restarts before p p.containers ++ rest

abbrev pub uids : List Pod → List String
uids ps = map (λ (p : Pod). p.uid) ps

unfoldable pub restarts {κ} : {V : Type κ} → ClusterState V → ClusterState V → List Restart
unfolding lookup insert
restarts prev next =
    if prev.time == 0
    then []
    else pod_restarts (uids prev.pods) prev.time (note_pods prev.pods []) next.pods
