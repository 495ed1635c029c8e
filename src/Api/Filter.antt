-- ===== src/Api/Filter.antt =====
-- server/src/filters.ts: the answer to each error.
use foreseer.Base.{ℕ, String}
use foreseer.Base.Exec.{Error, api, http, parse_failed, too_large, thrown}

pub record ErrorResponse : Type 0 where
  pub status : ℕ
  pub error : String

-- ApiExceptionFilter.catch.
unfoldable pub error_response : Error → ErrorResponse
error_response (api status message) = record { status = status; error = message }
error_response (http status message) = record { status = status; error = message }
error_response parse_failed = record { status = 400; error = "body must be JSON" }
error_response too_large = record { status = 413; error = "body too large" }
error_response thrown = record { status = 500; error = "internal error" }
