-- ===== src/Query.antt =====
-- services/audit_query_service.py: the query for the events that a caller may read.
pub mod Access
pub mod Route
pub mod Isolated
pub mod Evidence
pub mod Answer
pub mod Projected
pub mod Admin
use omnibioai_security_audit.Prelude.{
  ℕ, ◌+◌, ◌-◌, ◌*◌, ◌/◌, String, ◌==◌, ◌==ℕ◌, Bool, true, false, not, List, [], ◌∷◌, ◌++◌, Option,
  none, some, if◌then◌else◌,
}
use omnibioai_security_audit.Python.{Exn, Result, ok, err}
use omnibioai_security_audit.Python.Exec.{Exec, pure, ◌>>=◌}
use omnibioai_security_audit.Python.Time.{DateTime}
use omnibioai_security_audit.Storage.Rows.{AuditEventRecord}

pub data Column : Type 0 where
  user_id organization_id tenant_scope service event_type decision integrity_status : Column

-- One `query.filter(...)`; an equality with None is `IS NULL`.
pub data Condition : Type 0 where
  equals : Column → Option String → Condition
  at_least at_most : DateTime → Condition

-- The optional filters of a request.
pub record Filters : Type 0 where
  pub user_id : Option String
  pub service : Option String
  pub event_type : Option String
  pub decision : Option String
  pub integrity_status : Option String
  pub from_timestamp : Option DateTime
  pub to_timestamp : Option DateTime

-- What the query runs on: the rows that meet every condition are counted, or sorted by timestamp
-- and identifier, both descending, skipped and taken.
pub record Select (D : Type 0) : Type 0 where
  pub is_sqlalchemy_error : Exn → Bool
  pub count : List Condition → Exec D ℕ
  pub fetch : List Condition → ℕ → ℕ → Exec D (List AuditEventRecord)

-- `if value is not None: query = query.filter(column == value)`
unfoldable pub filter_by : Column → Option String → List Condition
filter_by column none = []
filter_by column (some value) = equals column (some value) ∷ []

unfoldable pub from_time : Option DateTime → List Condition
from_time none = []
from_time (some t) = at_least t ∷ []

unfoldable pub to_time : Option DateTime → List Condition
to_time none = []
to_time (some t) = at_most t ∷ []

unfoldable pub scope_conditions : Bool → Option String → List Condition
unfolding filter_by
scope_conditions false org =
    equals organization_id org ∷ equals tenant_scope (some "organization") ∷ []
scope_conditions true org = filter_by organization_id org

unfoldable pub safe_conditions : Bool → Option String → Filters → List Condition
safe_conditions platform_wide org f =
    scope_conditions platform_wide org
    ++ filter_by user_id f.user_id
    ++ filter_by service f.service
    ++ filter_by event_type f.event_type
    ++ filter_by decision f.decision
    ++ filter_by integrity_status f.integrity_status
    ++ from_time f.from_timestamp
    ++ to_time f.to_timestamp

-- The same in the order of the administrators' query.
unfoldable pub conditions : Option String → Filters → List Condition
conditions org f =
    filter_by user_id f.user_id
    ++ filter_by organization_id org
    ++ filter_by service f.service
    ++ filter_by event_type f.event_type
    ++ filter_by decision f.decision
    ++ from_time f.from_timestamp
    ++ to_time f.to_timestamp
    ++ filter_by integrity_status f.integrity_status

module _ {D : Type 0} (select : Select D) where
  -- `query.count()`, then `.offset((page - 1) * page_size).limit(page_size).all()`; the routes
  -- admit pages from 1 only.
  unfoldable pub page_of : List Condition → ℕ → ℕ → Exec D (List AuditEventRecord × ℕ)
  page_of cs page page_size = do
    total ← select.count cs
    rows ← select.fetch cs ((page - 1) * page_size) page_size
    pure (rows, total)

  unfoldable pub list_audit_events :
      ℕ → ℕ → Option String → Filters → Exec D (List AuditEventRecord × ℕ)
  list_audit_events page page_size org f = page_of (conditions org f) page page_size

  unfoldable pub list_safe_audit_events :
      ℕ → ℕ → Option String → Bool → Filters → Exec D (List AuditEventRecord × ℕ)
  list_safe_audit_events page page_size org platform_wide f =
      page_of (safe_conditions platform_wide org f) page page_size
