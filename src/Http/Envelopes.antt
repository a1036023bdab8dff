-- ===== src/Http/Envelopes.antt =====
-- The response that HttpExceptionFilter.catch sends and the level at which it logs
-- (common/filters/http-exception.filter.ts).
use common_api.Base.{
  ℕ, ◌≡◌, refl, String, Bool, false, Option, some, none, leb, if◌then◌else◌, then_map,
}
use common_api.Http.Filter.{
  Json, object, JsonFields, Thrown, app_exception, NormalizedError, normalize_exception,
}

-- `responseBody`, without its time, with the status that is sent beside it.
pub record ErrorEnvelope : Type 0 where
  pub success : Bool
  pub code : String
  pub message : String
  pub details : Option Json
  pub request_id : Option String
  pub status : ℕ

-- catch
unfoldable pub catch_exception : Thrown → Option String → ErrorEnvelope
catch_exception thrown request_id =
    let n = normalize_exception thrown in
    record {
      success = false;
      code = n.code;
      message = n.message;
      details = n.details;
      request_id = request_id;
      status = n.status;
    }

pub data LogLevel : Type 0 where
  at_error at_warning unlogged : LogLevel

-- The branches of logError
unfoldable pub log_level : NormalizedError → LogLevel
log_level n =
    if leb 500 n.status then at_error else if leb 400 n.status then at_warning else unlogged

-- An AppException reaches the client whole: with its code, its message, its status and its
-- details where it has some, whatever name and message of their own the framework gives it.
catch_exception-app_exception :
    (name own_message code message : String) (status : ℕ) (details : Option JsonFields)
    (request_id : Option String)
    → catch_exception (app_exception name own_message code message status details) request_id
      ≡ record {
        success = false;
        code = code;
        message = message;
        details = then_map object details;
        request_id = request_id;
        status = status;
      }
unfolding catch_exception app_exception normalize_exception
catch_exception-app_exception name own_message code message status none request_id = refl
catch_exception-app_exception name own_message code message status (some d) request_id = refl
