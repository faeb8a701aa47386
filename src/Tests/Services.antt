-- ===== src/Tests/Services.antt =====
-- A library, a runtime and a configuration for tests.
use omnibioai_security_audit.Prelude.{ℕ, zero, suc, String, ◌<>◌, true, none, some}
use omnibioai_security_audit.Python.{ok}
use omnibioai_security_audit.Python.Time.{naive}
use omnibioai_security_audit.Python.Json.{obj, end}
use omnibioai_security_audit.Library.{Library}
use omnibioai_security_audit.Config.{AuditConfig}
use omnibioai_security_audit.Event.Raw.{RawEvent, organization}
use omnibioai_security_audit.Worker.World.{Runtime}
use omnibioai_security_audit.Tests.Digest.{plain_crypto}

unfoldable pub tally : ℕ → String
unfolding ◌<>◌
tally zero = ""
tally (suc n) = "1" <> tally n

abbrev pub launch : RawEvent
launch = record {
  event_id = some "e1";
  timestamp = some (naive 3);
  service = "lims";
  event_type = "tool_execution";
  user_id = some "u1";
  organization_id = some "org-a";
  tenant_scope = organization;
  action = "run";
  resource = none;
  decision = some "allow";
  reason = none;
  trace_id = none;
  context = obj end;
}

-- Every payload is the launch event.
abbrev pub lib : Library
lib = record {
  crypto = plain_crypto;
  loads = λ s. ok (obj end);
  dumps = λ v. ok "{}";
  isoformat = λ d. tally d.wall;
  str_int = tally;
  str_time = λ d. tally d.wall;
  str_json = λ v. "{}";
  coerce = λ fields. ok launch;
}

abbrev pub cfg : AuditConfig
cfg = record {
  consumer_group = "audit-group";
  consumer_name = "audit-worker-1";
  pel_min_idle_ms = 60000;
  pel_max_deliveries = 5;
  pel_sweep_batch = 50;
  worker_auto_recreate_stream_on_nogroup = true;
  worker_nogroup_retry_backoff = 5000;
  event_signing_secret = "secret";
  record_integrity_key = some "0123456789abcdef0123456789abcdef";
  record_integrity_key_id = some "k1";
}

abbrev pub runtime : Runtime
runtime = record { uuid4 = tally; utcnow = naive; monotonic = λ n. n }
