-- ===== src/Audit.antt =====
-- services/audit.py: the audit log. The id of a resource, which the source writes as text, is a
-- number, and `none` where it gives none.
use smart_email_manager.Prelude.{ℕ, String, Option, List, [], ◌∷◌, ◌++◌}
use smart_email_manager.Json.{Data}

pub record AuditLog : Type 0 where
  pub action : String
  pub resource_type : String
  pub resource_id : Option ℕ
  pub actor : String
  pub info : Data

unfoldable pub add_audit_log : List AuditLog → String → String → Option ℕ → Data → List AuditLog
add_audit_log log action resource_type resource_id info = log ++ entry ∷ []
  where
    entry : AuditLog
    entry = record {
      action = action;
      resource_type = resource_type;
      resource_id = resource_id;
      actor = "api";
      info = info;
    }
