-- ===== src/Policy/Retry.antt =====
-- crates/openwire/src/policy/defaults.rs: the default retry policy.
use openwire.Base.{
  ℕ, Bool, true, false, not, ◌&&◌, ◌||◌, Option, none, some, leb, ◌==◌, if◌then◌else◌,
}
use openwire.Policy.Types.{
  WireErrorKind, FailurePhase, EstablishmentStage, WireError, establishment_stage,
  is_retryable_establishment, is_connect_timeout, is_non_retryable_connect, RetryReason, RetryAfter,
  RetryContext, ResponseRetryContext,
}

pub record DefaultRetryPolicy : Type 0 where
  pub retry_on_connection_failure : Bool
  pub max_retries : ℕ
  pub retry_canceled_requests : Bool
  pub retry_non_idempotent : Bool

abbrev pub default_retry_policy : DefaultRetryPolicy
default_retry_policy = record {
  retry_on_connection_failure = true;
  max_retries = 1;
  retry_canceled_requests = false;
  retry_non_idempotent = false;
}

abbrev pub then_some : {A : Type 0} → Bool → A → Option A
then_some b a = if b then some a else none

-- The first match, on the kind and the phase: `none` is the arm `_ => {}`.
unfoldable pub reason_by_phase :
    DefaultRetryPolicy → WireError → WireErrorKind → FailurePhase → Option RetryReason
reason_by_phase p e WireErrorKind.dns FailurePhase.dns =
    then_some p.retry_on_connection_failure RetryReason.dns
reason_by_phase p e WireErrorKind.connect FailurePhase.tcp =
    then_some (p.retry_on_connection_failure && not (is_non_retryable_connect e))
      RetryReason.connect
reason_by_phase p e WireErrorKind.connect FailurePhase.proxy_tunnel =
    then_some (p.retry_on_connection_failure && is_retryable_establishment e) RetryReason.connect
reason_by_phase p e WireErrorKind.tls FailurePhase.tls =
    then_some (p.retry_on_connection_failure && is_retryable_establishment e) RetryReason.tls
reason_by_phase p e WireErrorKind.protocol FailurePhase.protocol_binding =
    then_some (p.retry_on_connection_failure && is_retryable_establishment e) RetryReason.connect
reason_by_phase p e WireErrorKind.timeout FailurePhase.tcp =
    then_some p.retry_on_connection_failure RetryReason.connect_timeout
reason_by_phase p e WireErrorKind.timeout FailurePhase.proxy_tunnel =
    then_some p.retry_on_connection_failure RetryReason.connect_timeout
reason_by_phase p e kind phase = none

-- The second match, on the stage of an establishment.
unfoldable pub reason_by_stage :
    DefaultRetryPolicy → WireError → EstablishmentStage → Option RetryReason
reason_by_stage p e EstablishmentStage.dns =
    then_some (is_retryable_establishment e && p.retry_on_connection_failure) RetryReason.dns
reason_by_stage p e EstablishmentStage.tcp =
    if is_connect_timeout e
    then then_some p.retry_on_connection_failure RetryReason.connect_timeout
    else then_some (is_retryable_establishment e && p.retry_on_connection_failure)
        RetryReason.connect
reason_by_stage p e EstablishmentStage.protocol_binding =
    then_some (is_retryable_establishment e && p.retry_on_connection_failure) RetryReason.connect
reason_by_stage p e EstablishmentStage.tls =
    then_some (is_retryable_establishment e && p.retry_on_connection_failure) RetryReason.tls
reason_by_stage p e EstablishmentStage.route_exhausted =
    then_some (is_retryable_establishment e && p.retry_on_connection_failure) RetryReason.connect
reason_by_stage p e EstablishmentStage.proxy_tunnel =
    then_some (is_retryable_establishment e && p.retry_on_connection_failure) RetryReason.connect

-- The third match, on the kind.
unfoldable pub reason_by_kind : DefaultRetryPolicy → WireError → WireErrorKind → Option RetryReason
reason_by_kind p e WireErrorKind.canceled = then_some p.retry_canceled_requests RetryReason.canceled
reason_by_kind p e WireErrorKind.dns = then_some p.retry_on_connection_failure RetryReason.dns
reason_by_kind p e WireErrorKind.connect =
    then_some (p.retry_on_connection_failure && not (is_non_retryable_connect e))
      RetryReason.connect
reason_by_kind p e WireErrorKind.tls = then_some p.retry_on_connection_failure RetryReason.tls
reason_by_kind p e WireErrorKind.timeout =
    then_some (p.retry_on_connection_failure && is_connect_timeout e) RetryReason.connect_timeout
reason_by_kind p e kind = none

unfoldable pub retry_reason : DefaultRetryPolicy → WireError → Option RetryReason
unfolding reason_by_phase reason_by_stage reason_by_kind
retry_reason p e = elim (reason_by_phase p e e.kind e.phase) [
  | some reason ↦ some reason
  | none ↦ elim (establishment_stage e) [
    | some stage ↦ reason_by_stage p e stage
    | none ↦ reason_by_kind p e e.kind
  ]
]

unfoldable pub should_retry : DefaultRetryPolicy → RetryContext → Option RetryReason
unfolding retry_reason
should_retry p ctx =
    if not ctx.body_replayable || leb p.max_retries ctx.attempt
    then none
    else if ctx.error.request_committed && not ctx.is_idempotent
    then none
    else retry_reason p ctx.error

abbrev waits : Option RetryAfter → Bool
waits (some RetryAfter.delayed) = true
waits (some RetryAfter.invalid) = true
waits _ = false

abbrev is_immediate : Option RetryAfter → Bool
is_immediate (some RetryAfter.immediate) = true
is_immediate _ = false

unfoldable pub should_retry_response :
    DefaultRetryPolicy → ResponseRetryContext → Option RetryReason
should_retry_response p ctx =
    if not ctx.body_replayable || leb p.max_retries ctx.retry_count
    then none
    else if not ctx.is_idempotent && not p.retry_non_idempotent
    then none
    else if ctx.response_status == 408
    then then_some (p.retry_on_connection_failure && not (waits ctx.retry_after))
        RetryReason.http_408
    else if ctx.response_status == 503
    then then_some (is_immediate ctx.retry_after) RetryReason.http_503
    else none
