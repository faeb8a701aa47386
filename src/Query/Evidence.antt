-- ===== src/Query/Evidence.antt =====
-- audit/source_semantics.py: what an answer says of its source.
use omnibioai_security_audit.Prelude.{ℕ, String, List, [], ◌∷◌, Option, none}
use omnibioai_security_audit.Python.Time.{DateTime}

pub data SourceAvailability : Type 0 where
  available unavailable partial unknown : SourceAvailability

pub data FreshnessStatus : Type 0 where
  current stale unknown : FreshnessStatus

pub data RetentionStatus : Type 0 where
  known unknown : RetentionStatus

pub record RetentionEvidence : Type 0 where
  pub status : RetentionStatus
  pub retention_days : Option ℕ
  pub oldest_available_event_at : Option DateTime

-- The lag is in milliseconds.
pub record FreshnessEvidence : Type 0 where
  pub status : FreshnessStatus
  pub last_persisted_event_at : Option DateTime
  pub ingestion_lag : Option ℕ

pub record SourceEvidence : Type 0 where
  pub availability : SourceAvailability
  pub generated_at : DateTime
  pub source_checked_at : DateTime
  pub freshness : FreshnessEvidence
  pub retention : RetentionEvidence
  pub warnings : List String

-- `datetime.now(timezone.utc)` is an argument of the three.
unfoldable pub evidence : SourceAvailability → List String → DateTime → SourceEvidence
evidence availability warnings now = record {
  availability = availability;
  generated_at = now;
  source_checked_at = now;
  freshness = record {
    status = FreshnessStatus.unknown;
    last_persisted_event_at = none;
    ingestion_lag = none;
  };
  retention = record {
    status = RetentionStatus.unknown;
    retention_days = none;
    oldest_available_event_at = none;
  };
  warnings = warnings;
}

unfoldable pub available_query_evidence : DateTime → SourceEvidence
unfolding evidence
available_query_evidence =
    evidence available ("freshness_unknown" ∷ "retention_unknown" ∷ "ingestion_lag_unknown" ∷ [])

unfoldable pub unavailable_query_evidence : DateTime → SourceEvidence
unfolding evidence
unavailable_query_evidence =
    evidence SourceAvailability.unavailable ("durable_query_unavailable" ∷ [])

unfoldable pub availability_value : SourceAvailability → String
availability_value available = "AVAILABLE"
availability_value unavailable = "UNAVAILABLE"
availability_value partial = "PARTIAL"
availability_value unknown = "UNKNOWN"
