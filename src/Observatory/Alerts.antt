-- ===== src/Observatory/Alerts.antt =====
-- buffer.py: the alerts that are firing, in the process and in the hash of Redis.
use cognitive_rag_system.Prelude.{
  ℕ, Bool, true, false, String, Option, List, [], ◌∷◌, ◌==◌, truthy, get_or, length, if◌then◌else◌,
}
use Prim.Native.String.{◌++◌}
use cognitive_rag_system.Prelude.Dict.{Dict, lookup, insert, remove}

-- An alert as it comes in: keys may be missing.
pub record Alert : Type 0 where
  pub status : Option String
  pub alertname : Option String
  pub severity : Option String
  pub fingerprint : Option String
  pub starts_at : Option String

pub record ActiveAlert : Type 0 where
  pub fingerprint : String
  pub alertname : String
  pub severity : String
  pub starts_at : Option String
  pub recorded_at : ℕ

pub record Alerts : Type 0 where
  pub active : Dict ActiveAlert
  -- The hash `active_alerts`: `none` stands for `{}`.
  pub stored : Dict (Option ActiveAlert)

unfoldable pub status_of : Alert → String
status_of a = get_or "firing" a.status

-- The given fingerprint, or one made of the name and the severity.
unfoldable pub fingerprint_of : Alert → String
fingerprint_of a =
    if truthy a.fingerprint
    then get_or "" a.fingerprint
    else get_or "unknown" a.alertname ++ ("_" ++ get_or "unknown" a.severity)

unfoldable pub firing : (now : ℕ) → Alert → ActiveAlert
firing now a = record {
  fingerprint = fingerprint_of a;
  alertname = get_or "UnknownAlert" a.alertname;
  severity = get_or "warning" a.severity;
  starts_at = a.starts_at;
  recorded_at = now;
}

unfoldable pub register_alert : (now : ℕ) → Alert → Dict ActiveAlert → Dict ActiveAlert
register_alert now a active =
    if status_of a == "firing"
    then insert (fingerprint_of a) (firing now a) active
    else if status_of a == "resolved"
    then remove (fingerprint_of a) active
    else active

unfoldable pub register_alerts : (now : ℕ) → List Alert → Dict ActiveAlert → Dict ActiveAlert
register_alerts now [] active = active
register_alerts now (a ∷ more) active = register_alerts now more (register_alert now a active)

-- One command of the pipeline, after all alerts are registered.
unfoldable pub sync_alert :
    Dict ActiveAlert → Alert → Dict (Option ActiveAlert) → Dict (Option ActiveAlert)
sync_alert active a stored =
    if status_of a == "firing"
    then insert (fingerprint_of a) (lookup (fingerprint_of a) active) stored
    else if status_of a == "resolved"
    then remove (fingerprint_of a) stored
    else stored

unfoldable pub sync_alerts :
    Dict ActiveAlert → List Alert → Dict (Option ActiveAlert) → Dict (Option ActiveAlert)
sync_alerts active [] stored = stored
sync_alerts active (a ∷ more) stored = sync_alerts active more (sync_alert active a stored)

unfoldable pub sync_if :
    (answers : Bool)
    → Dict ActiveAlert
    → List Alert
    → Dict (Option ActiveAlert)
    → Dict (Option ActiveAlert)
sync_if false active alerts stored = stored
sync_if true active alerts stored = sync_alerts active alerts stored

-- `record_alerts`
unfoldable pub record_alerts : (answers : Bool) (now : ℕ) → List Alert → Alerts → ℕ × Alerts
record_alerts answers now alerts s =
    let active = register_alerts now alerts s.active in
    (length active, record { active = active; stored = sync_if answers active alerts s.stored })

unfoldable pub get_active_alerts_count : (answers : Bool) → Alerts → ℕ
get_active_alerts_count true s = length s.stored
get_active_alerts_count false s = length s.active
