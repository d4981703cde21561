-- ===== src/Accounts.antt =====
-- Dashboard users, their sessions, and the credentials of agents (internal/store/users.go,
-- internal/store/enrollment.go, internal/api/login.go, client/internal/server/auth.go).
pub mod Users
pub mod Throttle
pub mod Cache
