-- ===== src/Policy/Types.antt =====
-- crates/openwire-core/src/error.rs and policy.rs: what the policies read of an error, and their
-- answers. Methods and header names are byte strings; messages are left out.
use openwire.Base.{ℕ, Bool, true, false, not, ◌&&◌, Option, none, some}

pub data WireErrorKind : Type 0 where
  invalid_request timeout canceled dns connect tls protocol redirect body interceptor capacity
        internal :
      WireErrorKind

pub data FailurePhase : Type 0 where
  request_validation admission dns tcp proxy_tunnel tls protocol_binding request_exchange
        response_headers response_body policy interceptor internal :
      FailurePhase

pub data EstablishmentStage : Type 0 where
  dns tcp tls protocol_binding proxy_tunnel route_exhausted : EstablishmentStage

pub record EstablishmentContext : Type 0 where
  pub stage : EstablishmentStage
  pub retryable : Bool
  pub connect_timeout : Bool

pub record WireError : Type 0 where
  pub kind : WireErrorKind
  pub phase : FailurePhase
  pub response_status : Option ℕ
  pub request_committed : Bool
  pub establishment : Option EstablishmentContext

unfoldable pub default_phase : WireErrorKind → FailurePhase
default_phase WireErrorKind.invalid_request = FailurePhase.request_validation
default_phase WireErrorKind.timeout = FailurePhase.request_exchange
default_phase WireErrorKind.canceled = FailurePhase.request_exchange
default_phase WireErrorKind.dns = FailurePhase.dns
default_phase WireErrorKind.connect = FailurePhase.tcp
default_phase WireErrorKind.tls = FailurePhase.tls
default_phase WireErrorKind.protocol = FailurePhase.request_exchange
default_phase WireErrorKind.redirect = FailurePhase.policy
default_phase WireErrorKind.body = FailurePhase.response_body
default_phase WireErrorKind.interceptor = FailurePhase.interceptor
default_phase WireErrorKind.capacity = FailurePhase.admission
default_phase WireErrorKind.internal = FailurePhase.internal

-- `WireError::new`.
unfoldable pub wire_error : WireErrorKind → WireError
unfolding default_phase
wire_error kind = record {
  kind = kind;
  phase = default_phase kind;
  response_status = none;
  request_committed = false;
  establishment = none;
}

unfoldable pub with_response_status : ℕ → WireError → WireError
with_response_status status error = record error { response_status = some status }

abbrev pub establishment_stage : WireError → Option EstablishmentStage
establishment_stage error = elim error.establishment [ none ↦ none | some c ↦ some c.stage ]

abbrev pub is_retryable_establishment : WireError → Bool
is_retryable_establishment error = elim error.establishment [ none ↦ false | some c ↦ c.retryable ]

abbrev pub is_connect_timeout : WireError → Bool
is_connect_timeout error = elim error.establishment [ none ↦ false | some c ↦ c.connect_timeout ]

abbrev pub is_tcp : EstablishmentStage → Bool
is_tcp EstablishmentStage.tcp = true
is_tcp _ = false

abbrev pub is_non_retryable_connect : WireError → Bool
is_non_retryable_connect error = elim error.establishment [
  | none ↦ false
  | some c ↦ is_tcp c.stage && not c.retryable
]

-- The static strings that the policies give as reasons.
pub data RetryReason : Type 0 where
  dns connect tls connect_timeout canceled http_408 http_503 misdirected_request : RetryReason

pub data RetryAfter : Type 0 where
  immediate delayed invalid : RetryAfter

-- The method is read through `Method::is_idempotent`.
pub record RetryContext : Type 0 where
  pub error : WireError
  pub attempt : ℕ
  pub body_replayable : Bool
  pub is_idempotent : Bool

pub record ResponseRetryContext : Type 0 where
  pub response_status : ℕ
  pub retry_count : ℕ
  pub body_replayable : Bool
  pub is_idempotent : Bool
  pub retry_after : Option RetryAfter

pub data RedirectDecision : Type 0 where
  follow stop : RedirectDecision
  fails : WireError → RedirectDecision
