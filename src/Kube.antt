-- ===== src/Kube.antt =====
-- A Kubernetes cluster's state as its agent reports it (internal/kube/types.go), how the agent makes
-- it from the objects of the cluster's API (internal/kube/objects.go) and counts restarts
-- (internal/kube/restarts.go), and what the cluster's rules check in it (collector/kube.go).
pub mod Types
pub mod Targets
pub mod Counts
pub mod Restarts
pub mod Objects
pub mod Pods
pub mod Events
pub mod EachPodOnce
pub mod Evaluate
