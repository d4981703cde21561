-- ===== src/Metric.antt =====
-- The names of the metrics that rules watch (internal/monitor/monitor.go).
use sy_mon.Base.{String, Bool, ◌||◌, ◌==◌, string_eq}

abbrev pub memory : String
memory = "memory"

abbrev pub swap : String
swap = "swap"

abbrev pub proc_usage : String
proc_usage = "procUsage"

abbrev pub disks : String
disks = "disks"

abbrev pub services : String
services = "services"

abbrev pub ping : String
ping = "ping"

abbrev pub disk_forecast : String
disk_forecast = "disk_forecast"

abbrev pub endpoint : String
endpoint = "endpoint"

abbrev pub certificate : String
certificate = "certificate"

abbrev pub kube_node : String
kube_node = "kube_node"

abbrev pub kube_workload : String
kube_workload = "kube_workload"

abbrev pub kube_pending : String
kube_pending = "kube_pending"

abbrev pub kube_restarts : String
kube_restarts = "kube_restarts"

-- True for the alert metrics of a Kubernetes cluster.
unfoldable pub is_kube : String → Bool
is_kube metric =
    metric == kube_node
    || metric == kube_workload
    || metric == kube_pending
    || metric == kube_restarts
