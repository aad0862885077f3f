-- ===== src/Enums.antt =====
-- domain/enums.py: the statuses of an account. Those of jobs and their items are in Jobs.Model.
use smart_email_manager.Prelude.{ℕ}

pub data LifecycleStatus : Type 0 where
  active inactive archived : LifecycleStatus

pub data AuthorizationStatus : Type 0 where
  unknown pending valid invalid reauthorization_required : AuthorizationStatus

pub data TokenStatus : Type 0 where
  never checking success failed stale : TokenStatus

pub data MailHealthStatus : Type 0 where
  unknown checking healthy degraded failed : MailHealthStatus

pub data ProxyHealthStatus : Type 0 where
  not_configured unknown healthy failed : ProxyHealthStatus

-- Numbers by which statuses are compared.
abbrev pub lifecycle_code : LifecycleStatus → ℕ
lifecycle_code active = 0
lifecycle_code inactive = 1
lifecycle_code archived = 2

abbrev pub authorization_code : AuthorizationStatus → ℕ
authorization_code AuthorizationStatus.unknown = 0
authorization_code pending = 1
authorization_code valid = 2
authorization_code invalid = 3
authorization_code reauthorization_required = 4

abbrev pub token_code : TokenStatus → ℕ
token_code never = 0
token_code TokenStatus.checking = 1
token_code success = 2
token_code TokenStatus.failed = 3
token_code stale = 4

abbrev pub mail_health_code : MailHealthStatus → ℕ
mail_health_code MailHealthStatus.unknown = 0
mail_health_code MailHealthStatus.checking = 1
mail_health_code MailHealthStatus.healthy = 2
mail_health_code degraded = 3
mail_health_code MailHealthStatus.failed = 4

abbrev pub proxy_health_code : ProxyHealthStatus → ℕ
proxy_health_code not_configured = 0
proxy_health_code ProxyHealthStatus.unknown = 1
proxy_health_code ProxyHealthStatus.healthy = 2
proxy_health_code ProxyHealthStatus.failed = 3
