-- ===== src/Accounts/Fleet.antt =====
-- services/fleet.py: the counts of accounts by their statuses. A status is its text.
use smart_email_manager.Prelude.{
  ℕ, String, Bool, true, false, ◌||◌, List, [], ◌∷◌, ◌==◌, if◌then◌else◌, str_eq, length,
  count_where,
}
use smart_email_manager.Enums.{
  LifecycleStatus, AuthorizationStatus, TokenStatus, MailHealthStatus, ProxyHealthStatus,
}
use smart_email_manager.Accounts.Model.{Account, Db}

pub record FleetSummary : Type 0 where
  pub total_accounts : ℕ
  pub active_accounts : ℕ
  pub needs_attention : ℕ
  pub lifecycle : List (String × ℕ)
  pub authorization : List (String × ℕ)
  pub token : List (String × ℕ)
  pub mail_health : List (String × ℕ)
  pub proxy_health : List (String × ℕ)

abbrev pub lifecycle_text : LifecycleStatus → String
lifecycle_text LifecycleStatus.active = "active"
lifecycle_text LifecycleStatus.inactive = "inactive"
lifecycle_text LifecycleStatus.archived = "archived"

abbrev pub authorization_text : AuthorizationStatus → String
authorization_text AuthorizationStatus.unknown = "unknown"
authorization_text AuthorizationStatus.pending = "pending"
authorization_text AuthorizationStatus.valid = "valid"
authorization_text AuthorizationStatus.invalid = "invalid"
authorization_text AuthorizationStatus.reauthorization_required = "reauthorization_required"

abbrev pub token_text : TokenStatus → String
token_text TokenStatus.never = "never"
token_text TokenStatus.checking = "checking"
token_text TokenStatus.success = "success"
token_text TokenStatus.failed = "failed"
token_text TokenStatus.stale = "stale"

abbrev pub mail_health_text : MailHealthStatus → String
mail_health_text MailHealthStatus.unknown = "unknown"
mail_health_text MailHealthStatus.checking = "checking"
mail_health_text MailHealthStatus.healthy = "healthy"
mail_health_text MailHealthStatus.degraded = "degraded"
mail_health_text MailHealthStatus.failed = "failed"

abbrev pub proxy_health_text : ProxyHealthStatus → String
proxy_health_text ProxyHealthStatus.not_configured = "not_configured"
proxy_health_text ProxyHealthStatus.unknown = "unknown"
proxy_health_text ProxyHealthStatus.healthy = "healthy"
proxy_health_text ProxyHealthStatus.failed = "failed"

-- GROUP BY column ORDER BY column: `statuses` are the values of the column in their order, of which
-- those that occur have a row.
unfoldable pub status_counts : (Account → String) → List String → List Account → List (String × ℕ)
status_counts column [] accounts = []
status_counts column (status ∷ statuses) accounts =
    let rest = status_counts column statuses accounts in
    let count = count_where (λ a. str_eq (column a) status) accounts in
    if count == 0 then rest else (status, count) ∷ rest

abbrev pub lifecycle_of : Account → String
lifecycle_of a = lifecycle_text a.lifecycle_status

abbrev pub authorization_of : Account → String
authorization_of a = authorization_text a.authorization_status

abbrev pub token_of : Account → String
token_of a = token_text a.token_status

abbrev pub mail_health_of : Account → String
mail_health_of a = mail_health_text a.mail_health_status

abbrev pub proxy_health_of : Account → String
proxy_health_of a = proxy_health_text a.proxy_health_status

abbrev pub authorization_wants : AuthorizationStatus → Bool
authorization_wants AuthorizationStatus.valid = false
authorization_wants status = true

abbrev pub token_wants : TokenStatus → Bool
token_wants TokenStatus.never = true
token_wants TokenStatus.failed = true
token_wants TokenStatus.stale = true
token_wants status = false

abbrev pub mail_health_wants : MailHealthStatus → Bool
mail_health_wants MailHealthStatus.degraded = true
mail_health_wants MailHealthStatus.failed = true
mail_health_wants status = false

abbrev pub proxy_health_wants : ProxyHealthStatus → Bool
proxy_health_wants ProxyHealthStatus.failed = true
proxy_health_wants status = false

unfoldable pub wants_attention : Account → Bool
wants_attention a =
    authorization_wants a.authorization_status
    || token_wants a.token_status
    || mail_health_wants a.mail_health_status
    || proxy_health_wants a.proxy_health_status

unfoldable pub get_fleet_summary : Db → FleetSummary
get_fleet_summary db = record {
  total_accounts = length db.accounts;
  active_accounts = count_where (λ a. str_eq (lifecycle_of a) "active") db.accounts;
  needs_attention = count_where wants_attention db.accounts;
  lifecycle = status_counts lifecycle_of ("active" ∷ "archived" ∷ "inactive" ∷ []) db.accounts;
  authorization =
      status_counts authorization_of
        ("invalid" ∷ "pending" ∷ "reauthorization_required" ∷ "unknown" ∷ "valid" ∷ []) db.accounts;
  token =
      status_counts token_of ("checking" ∷ "failed" ∷ "never" ∷ "stale" ∷ "success" ∷ [])
        db.accounts;
  mail_health =
      status_counts mail_health_of ("checking" ∷ "degraded" ∷ "failed" ∷ "healthy" ∷ "unknown" ∷ [])
        db.accounts;
  proxy_health =
      status_counts proxy_health_of ("failed" ∷ "healthy" ∷ "not_configured" ∷ "unknown" ∷ [])
        db.accounts;
}
