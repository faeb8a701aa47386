-- ===== src/Alerts.antt =====
-- audit/security_alerts.py: alerts with a window in which a repeated condition is held back.
pub mod Window
use omnibioai_security_audit.Prelude.{
  ℕ, ◌+◌, String, ◌==◌, ◌<>◌, ends_with, Bool, true, false, not, ◌&&◌, ◌||◌, List, [], ◌∷◌, Option,
  none, some, Dict, lookup, insert, ltb, if◌then◌else◌,
}
use omnibioai_security_audit.RecordIntegrity.Cells.{Cell}

pub record SecurityAlert : Type 0 where
  pub condition : String
  pub severity : String
  pub component : String
  pub message : String
  pub metadata : Dict Cell
  pub timestamp : String

-- `_LAST_SENT`, in milliseconds of the monotonic clock, and what was handed to the sink, the
-- latest first. The sink's own failure is swallowed by the code.
pub record AlertState : Type 0 where
  pub last_sent : Dict ℕ
  pub sent : List SecurityAlert

abbrev pub no_alerts : AlertState
no_alerts = record { last_sent = []; sent = [] }

-- `severity if severity in VALID_SEVERITIES else "warning"`
unfoldable pub valid_severity : String → String
valid_severity s = if s == "info" || s == "warning" || s == "critical" then s else "warning"

unfoldable pub alert_key : String → String → String
alert_key component condition = component <> (":" <> condition)

unfoldable pub is_recovery : String → Bool
unfolding ends_with
is_recovery condition = ends_with condition "_recovered"

-- `last is not None and (now - last) < window`
unfoldable pub in_window : Option ℕ → ℕ → ℕ → Bool
in_window none now window = false
in_window (some last) now window = ltb now (last + window)

-- 300 seconds
abbrev pub default_window : ℕ
default_window = 300000

-- The alert is made with its normalised severity; `now` and `timestamp` are the clocks' readings.
unfoldable pub emit_security_alert :
    ℕ → ℕ → SecurityAlert → AlertState → Option SecurityAlert × AlertState
unfolding valid_severity in_window
emit_security_alert window now a st =
    let alert = record a { severity = valid_severity a.severity } in
    let key = alert_key a.component a.condition in
    if not (is_recovery a.condition) && in_window (lookup key st.last_sent) now window
    then (none, st)
    else (some alert, record { last_sent = insert key now st.last_sent; sent = alert ∷ st.sent })
