-- ===== src/Kube/Events.antt =====
-- The warning events of a cluster (`warningEvents` of internal/kube/objects.go). `cut` is Go's
-- `message[:300]`, which counts bytes.
use Prim.Native.String.{◌++◌ as append}
use sy_mon.Base.{
  ℕ, ◌-◌, ◌*◌, ◌/◌, String, Bool, true, false, Option, none, some, List, [], ◌∷◌, if◌then◌else◌,
  ltb, ltb_ℤ, ℤ, pos, is_empty, len, take,
}
use sy_mon.Alerts.Data.{second}
use sy_mon.Kube.Types.{Event}
use sy_mon.Kube.Objects.{ObjectMeta, unix}
pub mod Newest

pub record Series : Type 0 where
  pub count : ℤ
  pub last_observed_time : ℕ

pub record InvolvedObject : Type 0 where
  pub kind : String
  pub name : String
  pub namespace : String

pub record ApiEvent : Type 0 where
  pub metadata : ObjectMeta
  pub involved_object : InvolvedObject
  pub reason : String
  pub message : String
  pub count : ℤ
  pub last_timestamp : ℕ
  pub event_time : ℕ
  pub series : Option Series

abbrev pub event_window : ℕ
event_window = 3600 * second

abbrev pub max_events : ℕ
max_events = 50

abbrev pub later : ℕ → ℕ → ℕ
later a b = if ltb a b then b else a

abbrev pub max_ℤ : ℤ → ℤ → ℤ
max_ℤ a b = if ltb_ℤ a b then b else a

abbrev pub last_of : ℕ → Option Series → ℕ
last_of t none = t
last_of t (some s) = later t s.last_observed_time

abbrev pub count_of : ℤ → Option Series → ℤ
count_of n none = n
count_of n (some s) = max_ℤ n s.count

abbrev pub last_seen_of : ApiEvent → ℕ
last_seen_of e = last_of (later e.last_timestamp e.event_time) e.series

abbrev pub short_message : (ℕ → String → String) → String → String
short_message cut message = if ltb 300 (len message) then append (cut 300 message) "…" else message

abbrev pub event_of : (ℕ → String → String) → ApiEvent → Event
event_of cut e = record {
  namespace =
      if is_empty e.involved_object.namespace
      then e.metadata.namespace
      else e.involved_object.namespace;
  kind = e.involved_object.kind;
  name = e.involved_object.name;
  reason = e.reason;
  message = short_message cut e.message;
  count = max_ℤ (count_of e.count e.series) (pos 1);
  last_seen = unix (last_seen_of e);
}

abbrev pub is_old : ℕ → ApiEvent → Bool
is_old now e = ltb event_window (now - last_seen_of e)

abbrev pub recent : (ℕ → String → String) → ℕ → List ApiEvent → List Event
recent cut now [] = []
recent cut now (e ∷ es) =
    let rest = recent cut now es in if is_old now e then rest else event_of cut e ∷ rest

-- A stable sort, newest first.
abbrev pub place : Event → List Event → List Event
place e [] = e ∷ []
place e (f ∷ fs) = if ltb e.last_seen f.last_seen then f ∷ place e fs else e ∷ f ∷ fs

abbrev pub newest_first : List Event → List Event
newest_first [] = []
newest_first (e ∷ es) = place e (newest_first es)

unfoldable pub warning_events : (ℕ → String → String) → List ApiEvent → ℕ → List Event
warning_events cut events now = take max_events (newest_first (recent cut now events))
