-- ===== src/Token/Administered.antt =====
-- What the administrators' route shows of an event, and to whom.
use omnibioai_security_audit.Prelude.{ℕ, ◌≡◌, if◌then◌else◌, String, List, [], ◌∷◌, Option, none}
use omnibioai_security_audit.Python.{Exn}
use omnibioai_security_audit.Python.Exec.{Exec, lift, ◌>>=◌}
use omnibioai_security_audit.Python.Time.{DateTime}
use omnibioai_security_audit.Python.Json.{Json, get}
use omnibioai_security_audit.Library.{Library}
use omnibioai_security_audit.Storage.Rows.{AuditEventRecord}
use omnibioai_security_audit.Query.{Filters, Select}
use omnibioai_security_audit.Query.Answer.{is_one_of, context_of}
use omnibioai_security_audit.Query.Admin.{AuditEventOut, AdminAnswer, found, admin_answer}
use omnibioai_security_audit.Token.{Jwt}
use omnibioai_security_audit.Token.Header.{require_platform_admin}

-- The keys of a context that anyone is shown.
abbrev pub shown_keys : List String
shown_keys =
    "trace_id" ∷ "request_id" ∷ "workflow_id" ∷ "run_id" ∷ "resource_type" ∷ "resource_id"
    ∷ "backend" ∷ []

-- An item is of the row's event.
abbrev pub HasFieldsOf : AuditEventRecord → AuditEventOut → Type 0
HasFieldsOf row item =
    (item.event_id ≡ row.event_id)
    × (item.organization_id ≡ row.organization_id)
    × (item.user_id ≡ row.user_id)
    × (item.action ≡ row.action)
    × (item.decision ≡ row.decision)
    × (item.integrity_status ≡ row.integrity_status)

-- The items are of the rows, in their order, and give of each row's context the shown keys, with
-- their values, and no other.
abbrev pub AreItemsOf : List AuditEventRecord → List AuditEventOut → Type 0
AreItemsOf [] [] = Unit
AreItemsOf [] (item ∷ items) = ⊥
AreItemsOf (row ∷ rows) [] = ⊥
AreItemsOf (row ∷ rows) (item ∷ items) =
    (HasFieldsOf row item
      × ((key : String)
          → get key item.context
            ≡ (if is_one_of key shown_keys then get key (context_of row.context) else none)))
    × AreItemsOf rows items

module _ (created_at : AuditEventRecord → DateTime)
    (validation_error : AuditEventRecord → Exn) where
  abbrev items_of : AdminAnswer → List AuditEventOut
  items_of (found out) = out.items
  items_of _ = []

  abbrev total_of : AdminAnswer → ℕ
  total_of (found out) = out.total
  total_of _ = 0

  module _ {K D : Type 0} (lib : Library) (jwt : Jwt K) (select : Select D) (now : DateTime) where
    -- The route with `Depends(require_platform_admin)`.
    unfoldable pub admin_route : Option String → ℕ → ℕ → Filters → Exec D AdminAnswer
    admin_route authorization page page_size f =
        lift (require_platform_admin lib jwt authorization) >>= λ _.
        admin_answer created_at validation_error lib select now page page_size f
