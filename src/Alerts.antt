-- ===== src/Alerts.antt =====
-- Alerts: what the rule evaluator (collector/evaluator.go), the alert texts (collector/alerts.go)
-- and the alerts table (internal/store/alerts.go) share. Times are nanoseconds since 1970, as ℕ; a
-- nil time is `none`. `V` stands for float64.
pub mod Data
pub mod Status
pub mod Text
pub mod Store
pub mod Evaluator
