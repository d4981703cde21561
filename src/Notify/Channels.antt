-- ===== src/Notify/Channels.antt =====
-- Who hears about an alert event (collector/notify.go). A channel's last status and when and by whom
-- it was changed are only shown, and left out.
use sy_mon.Base.{
  ℕ, suc, ◌-◌, ◌*◌, ltb, String, Bool, true, false, ◌&&◌, ◌||◌, not, Option, none, some, List, [],
  ◌∷◌, if◌then◌else◌, ◌==◌, string_eq, nat_eq, contains,
}
use sy_mon.Rules.{AlertConfig}
use sy_mon.Alerts.Data.{Event, is_resolved, severity_critical, second}

pub record Channel : Type 0 where
  pub id : ℕ
  pub name : String
  pub kind : String
  pub settings : String
  pub is_default : Bool
  pub skip_warnings : Bool
  pub enabled : Bool

abbrev pub is_nil : List String → Bool
is_nil [] = true
is_nil (s ∷ ss) = false

-- The Email, Slack and Pagerduty ticks mean every channel of that kind.
unfoldable pub rule_wants : AlertConfig → Channel → Bool
rule_wants rule channel =
    if contains rule.channels channel.name
    then true
    else if (channel.kind == "email" && rule.email)
        || (channel.kind == "slack" && rule.slack)
        || (channel.kind == "pagerduty" && rule.pagerduty)
    then true
    else (is_nil rule.channels && not rule.email && not rule.slack && not rule.pagerduty)
      && channel.is_default

-- Whether the loop of pickChannels takes the channel.
unfoldable pub picks : AlertConfig → Event → ℕ → List ℕ → Channel → Bool
picks rule event severity told channel =
    if not channel.enabled
    then false
    else if is_resolved event
    then contains told channel.id
    else if not (rule_wants rule channel)
    then false
    else not (channel.skip_warnings && ltb severity severity_critical)

unfoldable pub pick_channels : AlertConfig → List Channel → Event → ℕ → List ℕ → List ℕ
unfolding picks
pick_channels rule [] event severity told = []
pick_channels rule (channel ∷ channels) event severity told =
    let rest = pick_channels rule channels event severity told in
    if picks rule event severity told channel then channel.id ∷ rest else rest

-- The waits after each failed try, in nanoseconds.
abbrev pub retry_waits : List ℕ
retry_waits = 30 * second ∷ 120 * second ∷ 600 * second ∷ 1800 * second ∷ 3600 * second ∷ []

abbrev pub nth : List ℕ → ℕ → Option ℕ
nth [] n = none
nth (w ∷ ws) ℕ.zero = some w
nth (w ∷ ws) (suc n) = nth ws n

-- How long to wait after the nth failed try, none once it is time to give up.
unfoldable pub retry_after : ℕ → Option ℕ
retry_after failures =
    if ltb failures 1 || ltb 5 failures then none else nth retry_waits (failures - 1)
