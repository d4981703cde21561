-- ===== src/Alerts/Data.antt =====
-- The data of an alert and of what the channels are told about it: alertstatus.StatusType
-- (internal/alertstatus/status.go), store.Alert (internal/store/alerts.go), the events and
-- severities (internal/notify/notify.go) and the notice (collector/notify.go).
use sy_mon.Base.{ℕ, String, Bool, true, false, Option}
use sy_mon.Rules.{AlertConfig}

pub data StatusType : Type 0 where
  normal warning critical : StatusType

-- int(status), the severity of the alerts table.
abbrev pub severity_of : StatusType → ℕ
severity_of normal = 0
severity_of warning = 1
severity_of critical = 2

abbrev pub is_normal : StatusType → Bool
is_normal normal = true
is_normal warning = false
is_normal critical = false

-- What happened to an alert.
pub data Event : Type 0 where
  opened changed resolved : Event

abbrev pub is_resolved : Event → Bool
is_resolved resolved = true
is_resolved opened = false
is_resolved changed = false

abbrev pub severity_critical : ℕ
severity_critical = 2

pub record Alert (V : Type 0) : Type 0 where
  pub id : ℕ
  pub host : String
  pub rule : String
  pub metric : String
  pub target : String
  pub severity : ℕ
  pub value : V
  pub started_at : ℕ
  pub updated_at : ℕ
  pub resolved_at : Option ℕ

-- An alert event, written for people.
pub record Notice (V : Type 0) : Type 0 where
  pub alert_id : ℕ
  pub rule : AlertConfig
  pub host : String
  pub target : String
  pub event : Event
  pub severity : ℕ
  pub value : V
  pub subject : String
  pub body : String
  pub at : ℕ

abbrev pub second : ℕ
second = 1000000000
