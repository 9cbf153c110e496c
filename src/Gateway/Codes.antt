-- ===== src/Gateway/Codes.antt =====
-- libs/gateway/src/errors/error-codes.ts: the error codes and their HTTP statuses.
use madinaty_ai_core_mesh.Base.{ℕ}

pub data ErrorCode : Type 0 where
  validation_error bad_request unauthorized forbidden not_found method_not_allowed : ErrorCode
  conflict unprocessable_entity rate_limit_exceeded internal_error bad_gateway : ErrorCode
  service_unavailable insufficient_trust insufficient_tokens tenant_not_resolved : ErrorCode
  idempotency_key_reused hmac_invalid key_revoked workflow_violation : ErrorCode

unfoldable pub error_code_http_status : ErrorCode → ℕ
error_code_http_status validation_error = 400
error_code_http_status bad_request = 400
error_code_http_status unauthorized = 401
error_code_http_status forbidden = 403
error_code_http_status not_found = 404
error_code_http_status method_not_allowed = 405
error_code_http_status conflict = 409
error_code_http_status unprocessable_entity = 422
error_code_http_status rate_limit_exceeded = 429
error_code_http_status internal_error = 500
error_code_http_status bad_gateway = 502
error_code_http_status service_unavailable = 503
error_code_http_status insufficient_trust = 403
error_code_http_status insufficient_tokens = 402
error_code_http_status tenant_not_resolved = 400
error_code_http_status idempotency_key_reused = 409
error_code_http_status hmac_invalid = 401
error_code_http_status key_revoked = 401
error_code_http_status workflow_violation = 422
