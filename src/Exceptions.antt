-- ===== src/Exceptions.antt =====
-- The exceptions that the services throw (common/exceptions/app.exception.ts and the HTTP
-- exceptions of @nestjs/common). A message keeps its fixed text and drops what it interpolates.
use common_api.Base.{ℕ, String}

pub data Exception : Type 0 where
  bad_request not_found conflict unauthorized plain_error : String → Exception

-- The status code of the response to it.
unfoldable pub http_status : Exception → ℕ
http_status (bad_request _) = 400
http_status (unauthorized _) = 401
http_status (not_found _) = 404
http_status (conflict _) = 409
http_status (plain_error _) = 500
