-- ===== src/Examples/Clusters.antt =====
-- A cluster and a disk that the theorems on reports and forecasts are applied to.
use sy_mon.Base.{
  ◌==◌, nat_eq, true, false, ◌≤◌, ℤ, pos, ltb_ℤ, beq_ℤ, none, some, [], ◌∷◌, if◌then◌else◌, Float64,
  All, any, length, ◌≡◌, ◌⊎◌, refl, inl, inr, Bool-cases, OnOk,
}
use sy_mon.Kube.Types.{Pod, PodContainer, ClusterState}
use sy_mon.Kube.Counts.{counts, CountsFit, counts-fit}
use sy_mon.Kube.Restarts.{restarts}
use sy_mon.Kube.Restarts.Seen.{PodsSeen, restarts_lem}
use sy_mon.Kube.Events.{ApiEvent, warning_events, max_events}
use sy_mon.Kube.Events.Newest.{NewestFirst, EventOk, warning_events_lem}
use sy_mon.Forecast.{Operations, FitRow, soonest_disk_full, days_until_full}
use sy_mon.Forecast.Horizon.{InYear, EntryInYear, is_found, has_history, days_until_full_lem}

-- Integers in place of float64.
instance abbrev whole_numbers : Float64 ℤ
whole_numbers = record { less = ltb_ℤ; same = beq_ℤ; of_int = λ n. n; to_int = λ n. n }

abbrev smaller : ℤ → ℤ → ℤ
smaller a b = if ltb_ℤ b a then b else a

-- A disk that grows as fast as it is full: the quotient is its first argument.
abbrev steady : Operations ℤ
steady = record {
  times = λ a b. b;
  over = λ a b. a;
  minus = λ a b. b;
  least = smaller;
  greatest = λ a b. if ltb_ℤ a b then b else a;
}

smaller_one : (a b : ℤ) → (smaller a b ≡ a) ⊎ (smaller a b ≡ b)
smaller_one a b = elim (Bool-cases (ltb_ℤ b a)) [
  | inl e ↦ inr (rw e refl)
  | inr e ↦ inl (rw e refl)
]

abbrev container : PodContainer
container = record {
  name = "app";
  id = "c1";
  image = "app";
  ready = true;
  restarts = pos 3;
  state = "running";
  reason = "";
  last_reason = "OOMKilled";
  last_finished = 90;
}

abbrev app_pod : Pod
app_pod = record {
  namespace = "shop";
  name = "app-1";
  uid = "u1";
  node = "n1";
  workload = "deployment/app";
  phase = "Running";
  ready = true;
  reason = "";
  created = 50;
  containers = container ∷ [];
}

abbrev shop : ClusterState ℤ
shop = record {
  cluster = "home";
  time = 100;
  error = "";
  nodes = [];
  workloads = [];
  pods = app_pod ∷ [];
  events = [];
}

abbrev shop_before : ClusterState ℤ
shop_before = record shop {
  time = 70;
  pods = record app_pod { containers = record container { restarts = pos 1 } ∷ [] } ∷ [];
}

counts-fit_example : CountsFit shop (counts shop)
counts-fit_example = counts-fit shop

restarts_lem_example :
    ((shop_before.time == 0) ≡ false → PodsSeen shop_before shop.pods (restarts shop_before shop))
    × ((shop_before.time == 0) ≡ true → restarts shop_before shop ≡ [])
    × (restarts shop shop ≡ [])
restarts_lem_example = restarts_lem shop_before shop (refl, tt) (refl, tt)

abbrev failed_mount : ApiEvent
failed_mount = record {
  metadata = record {
    name = "e1";
    namespace = "shop";
    uid = "e1";
    creation_timestamp = 0;
    labels = [];
    owner_references = [];
  };
  involved_object = record { kind = "Pod"; name = "app-1"; namespace = "shop" };
  reason = "FailedMount";
  message = "no volume";
  count = pos 0;
  last_timestamp = 5000000000;
  event_time = 0;
  series = none;
}

warning_events_lem_example :
    (length (warning_events (λ n text. text) (failed_mount ∷ []) 6000000000) ≤ max_events)
    × NewestFirst (warning_events (λ n text. text) (failed_mount ∷ []) 6000000000)
    × All (EventOk 6000000000) (warning_events (λ n text. text) (failed_mount ∷ []) 6000000000)
warning_events_lem_example = warning_events_lem (λ n text. text) (failed_mount ∷ []) 6000000000

abbrev disk_row : FitRow ℤ
disk_row = record {
  host = "web1";
  device = "/dev/sda1";
  mount = "/";
  used_pct = some (pos 60);
  used_bytes = some (pos 600);
  bytes_per_day = some (pos 10);
  r2 = some (pos 1);
  samples = 100;
}

days_until_full_lem_example :
    All (EntryInYear steady (pos 1)) (soonest_disk_full steady (pos 1) (disk_row ∷ []))
    × OnOk (InYear steady (pos 1)) (days_until_full steady (pos 1) (disk_row ∷ []))
    × (is_found steady (pos 1) smaller_one (days_until_full steady (pos 1) (disk_row ∷ []))
        ≡ any (has_history steady (pos 1) smaller_one) (disk_row ∷ []))
days_until_full_lem_example = days_until_full_lem steady (pos 1) smaller_one (disk_row ∷ []) refl
