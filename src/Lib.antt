-- ===== src/Lib.antt =====
-- SyMon: a model of the collector's alerting, notifications, accounts, hosts and host tasks, of the
-- agent's side of host tasks and of what it reports about a Kubernetes cluster, and of the
-- dashboard's memory of logins, with theorems on what they guarantee.
--
-- The program. A host is enrolled with a token and then identified by the credential of its agent.
-- Agents send samples of their host, and the state of their Kubernetes cluster, to a collector, which
-- stores them in a database. The collector checks alert rules, which users edit in a table, against
-- the newest samples and against forecasts of when a disk is full; it keeps alerts, queues
-- notifications about them for channels and delivers these with retries. An admin can ask for one of
-- the commands that a host's tasks file lists to be run, or for an agent to be updated; the host's
-- agent claims the run, runs it and reports. Users log in with a password at the dashboard, which
-- asks the collector whose session a cookie is and remembers the answer for a while.
--
-- The files.
--   Base: the shared helpers: Boolean tests, lists, rows of a table, Go's maps, integers, texts,
--     floats as an interface (Float64), and results with errors.
--   Metric: internal/monitor/monitor.go, the metric names.
--   Rules, Rules/Validate: internal/alerts/alert.go (AlertConfig, CertDays) and
--     internal/alerts/rules.go (Validate, ParseRules). Rules/Valid says what a valid rule is; its
--     children relate it to Validate and ParseRules.
--   Alerts/Data, Status, Text: collector/alerts.go and the pure parts of collector/evaluator.go and
--     collector/kube.go: levels, keys, targets and the texts of messages.
--   Alerts/Store: internal/store/alerts.go, the alerts table; Alerts/Store/Laws its invariant.
--   Alerts/Evaluator: collector/evaluator.go: check, updateOpen, openIfBreached, message, over a
--     state that holds the evaluator's maps, the alerts table and the notices told. A list of faults
--     says which store calls fail. History is the specification: the alarm that a list of samples
--     defines. Tracks, Off, On, Step and Refines relate check to it; Once is about samples checked
--     twice.
--   Stored: how texts are cut and cleaned for the database.
--   Accounts/Users: internal/store/users.go, the users and sessions. Laws and Steps are about its
--     invariant, LogsIn about logins, Own and Ends about changed passwords, Fails about a SetPassword that fails.
--   Accounts/Throttle: internal/api/login.go, the count of wrong passwords; Windows and
--     Guesses bound it.
--   Accounts/Cache: client/internal/server/auth.go, what the dashboard remembers; Trusted says whom
--     it takes for logged in.
--   Hosts: internal/store/hosts.go, Hosts/Enroll: internal/store/enrollment.go and the collector's
--     `Enroll` of internal/api/api.go, Hosts/Agents: internal/store/agents.go. Laws and Steps are about
--     the invariant of their tables, Enroll/Enrolled, Key and Uses about tokens and credentials,
--     Agents/Asked about updates.
--   Hosts/Access: internal/api/auth.go and AuthInterceptor of internal/transport/transport.go;
--     Hosts/Granted says who is let through.
--   RuleTable: internal/store/rules.go. Laws and Steps are about its invariant, Resolved about the
--     alerts of a rule that changes, Setup about the rules added at first.
--   Forecast: internal/store/forecast.go, what is made of the rows of the fit; Horizon bounds it.
--   Notify/Channels, Queue, Deliver: collector/notify.go and internal/store/notifications.go. Order,
--     InOrder, Marks and Batch are about the table's invariant, Told about who hears of a resolution.
--   Tasks/Offer: internal/tasks/tasks.go. Tasks/Runs: internal/store/tasks.go, with its invariant in
--     Laws, Updates and Steps, the changes of a run in Moves and Follows, the claim in Pickup and the
--     sweep in Sweep. Tasks/Server and Saved: calls of internal/api/tasks.go, and `report` of
--     agent/tasks.go. Tasks/Output, Kept and Reported: agent/tasks.go.
--   Kube/Types, Counts: internal/kube/types.go. Kube/Objects, Pods, Events: internal/kube/objects.go.
--     Kube/Restarts: internal/kube/restarts.go; Seen is about what is counted.
--   Kube/Targets, Evaluate: collector/kube.go. EachPodOnce is about the pending rule.
--   Examples: concrete inputs for the theorems.
--
-- How code is modelled. A Go int is an integer without bounds, but the product of a trigger interval
-- in nanoseconds wraps at 64 bits and a duration between two times is cut there, as in Go; a time is a
-- natural number of nanoseconds, float64 is a type with the operations of Float64, a map is an association list whose
-- first entry of a key counts, a table is the list of its rows with the next id. An SQL statement is
-- a function on the table. Loops over lists are structural recursion; the loop of `report` has as many
-- steps as tries are allowed and the loop of wholeCharacters four, the longest UTF-8 encoding, so
-- none of them needs fuel that could run out. `M` is the evaluator's state passing with errors.
--
-- Parameters: how times and floats are printed (Format), url.Parse (UrlParser), the senders of
-- internal/notify and the clock of the delivery loop (World), the state of a cluster that the
-- database returns; PBKDF2 and SHA-256 (Hashes), secrets and salts drawn at random, and the clock;
-- the operations of float64 (Operations, Quantities), strings.ToLower and strings.ToValidUTF8, Go's
-- slice of bytes, the order of the database's collation, and what the collector answers to the
-- dashboard. JSON decoding comes before what is modelled.
--
-- Not modelled: sampling of hosts, the metrics tables and their queries, the fit of a forecast, which
-- is SQL, the store of clusters, endpoint requests, the senders, TLS and JWT, configuration, the
-- installation of updates, the wait of NextTask, the rest of the dashboard, and generated code. That a
-- context ends, that a password waits for its turn to be hashed, and failures of the database other
-- than those of its constraints are left out as well, except for the faults of the evaluator and those
-- in the transaction of SetPassword.
pub mod Base
pub mod Metric
pub mod Rules
pub mod Alerts
pub mod Stored
pub mod Accounts
pub mod Hosts
pub mod RuleTable
pub mod Forecast
pub mod Notify
pub mod Tasks
pub mod Kube
pub mod Examples
