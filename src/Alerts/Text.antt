-- ===== src/Alerts/Text.antt =====
-- What the channels are told (collector/alerts.go, collector/kube.go and `message` of
-- collector/evaluator.go). Printing a time or a float64 is the standard library's, and a parameter.
use sy_mon.Base.{
  ℕ, ℤ, pos, String, Bool, [], ◌∷◌, if◌then◌else◌, ◌==◌, string_eq, int_eq, Float64, less, of_int,
  to_int, concat, is_empty, is_blank, replacer, itoa,
}
use sy_mon.Metric
use sy_mon.Rules.{AlertConfig}
use sy_mon.Alerts.Data.{StatusType, normal, warning, critical, is_normal}
use sy_mon.Alerts.Status.{expected_code}

-- `at.UTC().Format(time.RFC1123)`, `at.UTC().String()`, the day and time at which a certificate
-- with that many days left expires, and `%.2f` and `%.0f` of fmt.Sprintf.
pub record Format (V : Type 0) : Type 0 where
  pub rfc1123 : ℕ → String
  pub utc : ℕ → String
  pub expiry : ℕ → V → String
  pub fixed_2 : V → String
  pub fixed_0 : V → String

-- A template's text, or another one when the template is blank.
abbrev pub or_else : String → String → String
or_else body other = if is_blank body then other else body

module _ {V : Type 0} ⦃f : Float64 V⦄ (fmt : Format V) where
  open fmt use {rfc1123, utc, expiry, fixed_2, fixed_0}

  unfoldable pub endpoint_text : AlertConfig → ℤ → String → Bool → ℕ → String × String
  endpoint_text rule actual err_msg resolved at =
      let subject = concat ("[Critical] endpoint check failed on " ∷ rule.endpoint ∷ []) in
      let body =
        replacer
          (("{subject}", subject)
            ∷ ("{endpoint}", rule.endpoint)
            ∷ ("{metricName}", rule.metric_name)
            ∷ ("{expected}", itoa (expected_code rule))
            ∷ ("{actual}", itoa actual)
            ∷ ("{timestamp}", utc at)
            ∷ ("{error}", err_msg)
            ∷ ("{triggerInterval}", itoa rule.trigger_intveral)
            ∷ [])
          rule.template in
      let plain = concat (
        rule.endpoint
        ∷ " should answer with "
        ∷ itoa (expected_code rule)
        ∷ " and answered with "
        ∷ itoa actual
        ∷ (if is_empty err_msg then "" else concat (": " ∷ err_msg ∷ []))
        ∷ []) in
      if resolved
      then (
        concat ("[Resolved] " ∷ rule.endpoint ∷ " is answering again" ∷ []),
        concat (rule.endpoint ∷ " answered with " ∷ itoa actual ∷ " at " ∷ rfc1123 at ∷ "." ∷ []),
      )
      else (subject, or_else body plain)

  certificate_subject : AlertConfig → StatusType → String
  certificate_subject rule normal =
      concat ("[Resolved] certificate renewed for " ∷ rule.endpoint ∷ [])
  certificate_subject rule warning =
      concat ("[Warning] certificate expiring for " ∷ rule.endpoint ∷ [])
  certificate_subject rule critical =
      concat ("[Critical] certificate expiring for " ∷ rule.endpoint ∷ [])

  unfoldable pub certificate_text : AlertConfig → V → StatusType → ℕ → String × String
  unfolding certificate_subject
  certificate_text rule days status at = (
    certificate_subject rule status,
    if is_normal status
        then concat (
            rule.endpoint
            ∷ " has a certificate valid for "
            ∷ itoa (to_int days)
            ∷ " more days"
            ∷ [])
        else concat (
            rule.endpoint
            ∷ (if less days (of_int (pos 0))
                then " has a certificate that expired on "
                else " has a certificate that expires on ")
            ∷ expiry at days
            ∷ []),
  )

  abbrev alert_subject : AlertConfig → String → StatusType → String
  alert_subject rule host normal = concat ("[Resolved] " ∷ rule.name ∷ " on " ∷ host ∷ [])
  alert_subject rule host warning = concat ("[Warning] " ∷ rule.name ∷ " triggered on " ∷ host ∷ [])
  alert_subject rule host critical =
      concat ("[Critical] " ∷ rule.name ∷ " triggered on " ∷ host ∷ [])

  abbrev alert_expected : AlertConfig → StatusType → String
  alert_expected rule normal = ""
  alert_expected rule warning = itoa rule.warn_threshold
  alert_expected rule critical = itoa rule.critical_threshold

  alert_resolved_body : AlertConfig → String → V → ℕ → String
  alert_resolved_body rule host value at =
      if rule.metric_name == Metric.ping
      then concat (host ∷ " is reporting again at " ∷ rfc1123 at ∷ "." ∷ [])
      else concat (
          rule.name
          ∷ " on "
          ∷ host
          ∷ " is back to normal at "
          ∷ rfc1123 at
          ∷ ", with "
          ∷ fixed_2 value
          ∷ "."
          ∷ [])

  unfoldable pub alert_text : AlertConfig → String → StatusType → V → ℕ → String × String
  unfolding alert_resolved_body
  alert_text rule host status value at =
      let subject = alert_subject rule host status in
      let expected = alert_expected rule status in
      let body =
        replacer
          (("{subject}", subject)
            ∷ ("{serverName}", host)
            ∷ ("{metricName}", rule.metric_name)
            ∷ ("{op}", rule.op)
            ∷ ("{expected}", expected)
            ∷ ("{timestamp}", utc at)
            ∷ ("{desc}", rule.description)
            ∷ ("{value}", fixed_2 value)
            ∷ ("{triggerInterval}", itoa rule.trigger_intveral)
            ∷ [])
          rule.template in
      let plain = concat (
        subject
        ∷ ": "
        ∷ fixed_2 value
        ∷ (if is_empty expected then "" else concat (" " ∷ rule.op ∷ " " ∷ expected ∷ []))
        ∷ []) in
      if is_normal status
      then (subject, alert_resolved_body rule host value at)
      else (subject, or_else body plain)

  abbrev plural : ℤ → String → String
  plural n word =
      if n == pos 1 then concat ("1 " ∷ word ∷ []) else concat (itoa n ∷ " " ∷ word ∷ "s" ∷ [])

  unfoldable pub kube_problem : String → String → V → String
  kube_problem metric target value =
      if metric == Metric.kube_node
      then concat ("node " ∷ target ∷ " is not ready" ∷ [])
      else if metric == Metric.kube_workload
      then concat (target ∷ " is missing " ∷ plural (to_int value) "replica" ∷ [])
      else if metric == Metric.kube_pending
      then concat (plural (to_int value) "pod" ∷ " of " ∷ target ∷ " stuck pending" ∷ [])
      else concat (target ∷ " restarted " ∷ plural (to_int value) "time" ∷ " in the last hour" ∷ [])

  unfoldable pub kube_fine : String → String → String
  kube_fine metric target =
      if metric == Metric.kube_node
      then concat ("node " ∷ target ∷ " is ready again" ∷ [])
      else if metric == Metric.kube_workload
      then concat (target ∷ " has all its replicas again" ∷ [])
      else if metric == Metric.kube_pending
      then concat (target ∷ " has no pods pending" ∷ [])
      else concat (target ∷ " stopped restarting" ∷ [])

  abbrev kube_level : StatusType → String
  kube_level normal = "[Critical] "
  kube_level warning = "[Warning] "
  kube_level critical = "[Critical] "

  -- The body when the template is blank.
  kube_plain : AlertConfig → String → String → String
  kube_plain rule problem reason =
      let start = concat (problem ∷ " in " ∷ rule.cluster ∷ "." ∷ []) in
      if is_empty reason
      then start
      else if rule.metric_name == Metric.kube_node
      then concat (start ∷ " It reports " ∷ reason ∷ "." ∷ [])
      else concat (start ∷ " The pods say " ∷ reason ∷ "." ∷ [])

  unfoldable pub kube_text : AlertConfig → String → String → StatusType → V → ℕ → String × String
  unfolding kube_problem kube_fine kube_plain
  kube_text rule target reason status value at =
      let fine = kube_fine rule.metric_name target in
      let problem = kube_problem rule.metric_name target value in
      let subject =
        concat (kube_level status ∷ rule.name ∷ ": " ∷ problem ∷ " in " ∷ rule.cluster ∷ []) in
      let body =
        replacer
          (("{subject}", subject)
            ∷ ("{cluster}", rule.cluster)
            ∷ ("{target}", target)
            ∷ ("{metricName}", rule.metric_name)
            ∷ ("{value}", fixed_0 value)
            ∷ ("{reason}", reason)
            ∷ ("{timestamp}", utc at)
            ∷ ("{desc}", rule.description)
            ∷ ("{triggerInterval}", itoa rule.trigger_intveral)
            ∷ [])
          rule.template in
      if is_normal status
      then (
        concat ("[Resolved] " ∷ rule.name ∷ ": " ∷ fine ∷ " in " ∷ rule.cluster ∷ []),
        concat (fine ∷ " in " ∷ rule.cluster ∷ " at " ∷ rfc1123 at ∷ "." ∷ []),
      )
      else (subject, or_else body (kube_plain rule problem reason))

  unfoldable pub kube_gone_text : AlertConfig → String → ℕ → String × String
  kube_gone_text rule target at =
      let what =
        if rule.metric_name == Metric.kube_node then concat ("node " ∷ target ∷ []) else target in
      (
        concat ("[Resolved] " ∷ rule.name ∷ ": " ∷ what ∷ " is gone from " ∷ rule.cluster ∷ []),
        concat (what ∷ " was removed from " ∷ rule.cluster ∷ " by " ∷ rfc1123 at ∷ "." ∷ []),
      )
