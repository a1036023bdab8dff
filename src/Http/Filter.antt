-- ===== src/Http/Filter.antt =====
-- HttpExceptionFilter (common/filters/http-exception.filter.ts) and AppException
-- (common/exceptions/app.exception.ts): what the client is told of an exception.
use common_api.Base.{
  ℕ, String, Bool, Option, some, none, str_eq, if◌then◌else◌, truthy, or_default, or_else,
}

-- A value of JSON; a number is its text.
mutual
  pub data Json : Type 0 where
    null : Json
    boolean : Bool → Json
    number : String → Json
    text : String → Json
    array : JsonItems → Json
    object : JsonFields → Json

  pub data JsonItems : Type 0 where
    no_items : JsonItems
    and_item : Json → JsonItems → JsonItems

  pub data JsonFields : Type 0 where
    no_fields : JsonFields
    and_field : String → Json → JsonFields → JsonFields

-- `payload.key`
abbrev pub field : String → JsonFields → Option Json
field key no_fields = none
field key (and_field k v rest) = if str_eq k key then some v else field key rest

-- `delete extra.key`
abbrev pub delete_field : String → JsonFields → JsonFields
delete_field key no_fields = no_fields
delete_field key (and_field k v rest) =
    let left = delete_field key rest in if str_eq k key then left else and_field k v left

-- `extra.key = value`
abbrev pub set_field : String → Json → JsonFields → JsonFields
set_field key value no_fields = and_field key value no_fields
set_field key value (and_field k v rest) =
    let changed = set_field key value rest in
    if str_eq k key then and_field k value rest else and_field k v changed

-- The `response` of an HttpException: a text or an object.
pub data ErrorResponse : Type 0 where
  text_response : String → ErrorResponse
  object_response : JsonFields → ErrorResponse

-- What is thrown: an HttpException, another Error with its message, or something else.
pub data Thrown : Type 0 where
  http_exception : String → String → ℕ → ErrorResponse → Thrown
  plain_exception : String → Thrown
  other_value : Thrown

-- `new AppException(code, message, status, details)`; the name and the message are those that
-- @nestjs/common gives it.
unfoldable pub app_exception : String → String → String → String → ℕ → Option JsonFields → Thrown
app_exception name own_message code message status none =
    http_exception name own_message status (
      object_response (and_field "code" (text code) (and_field "message" (text message) no_fields)))
app_exception name own_message code message status (some details) =
    http_exception name own_message status (
      object_response (
        and_field "code" (text code)
          (and_field "message" (text message) (and_field "details" (object details) no_fields))))

-- `NormalizedError`
pub record NormalizedError : Type 0 where
  pub status : ℕ
  pub code : String
  pub message : String
  pub details : Option Json

-- toObject
unfoldable pub to_object : ErrorResponse → JsonFields
to_object (object_response fields) = fields
to_object (text_response t) = and_field "message" (text t) no_fields

-- formatMessage
unfoldable pub format_message : Option Json → String → String
format_message (some (text t)) fallback = t
format_message (some (array (and_item (text t) _))) fallback = t
format_message _ fallback = fallback

-- `a ?? b`, where `null` counts as absent
abbrev pub or_nullish : Option Json → Option Json → Option Json
or_nullish none b = b
or_nullish (some null) b = b
or_nullish (some v) b = some v

abbrev pub with_messages : Option Json → JsonFields → JsonFields
with_messages (some (array items)) extra = set_field "messages" (array items) extra
with_messages _ extra = extra

abbrev pub some_fields : JsonFields → Option Json
some_fields no_fields = none
some_fields (and_field k v rest) = some (object (and_field k v rest))

-- The end of extractDetails, without a field `details` that is an object.
unfoldable pub extra_details : JsonFields → Option Json
extra_details payload = some_fields (
    delete_field "details" (
      delete_field "code" (
        delete_field "statusCode" (
          delete_field "error"
            (delete_field "message" (with_messages (field "message" payload) payload))))))

abbrev pub object_or_array : Option Json → Option Json
object_or_array (some (object fields)) = some (object fields)
object_or_array (some (array items)) = some (array items)
object_or_array _ = none

-- extractDetails
unfoldable pub extract_details : JsonFields → Option Json
unfolding extra_details
extract_details payload =
    or_else (object_or_array (field "details" payload)) (extra_details payload)

abbrev pub text_of : Option Json → Option String
text_of (some (text t)) = some t
text_of _ = none

-- normalizeException
unfoldable pub normalize_exception : Thrown → NormalizedError
unfolding to_object format_message extract_details
normalize_exception (http_exception name own_message status response) =
    let payload = to_object response in
    record {
      status = status;
      code =
          or_default (or_else (text_of (field "code" payload)) (text_of (field "error" payload)))
            name;
      message =
          format_message (or_nullish (field "message" payload) (field "error" payload)) own_message;
      details = extract_details payload;
    }
normalize_exception (plain_exception message) = record {
  status = 500;
  code = "INTERNAL_ERROR";
  message = or_default (truthy (some message)) "Internal server error";
  details = none;
}
normalize_exception other_value = record {
  status = 500;
  code = "INTERNAL_ERROR";
  message = "Internal server error";
  details = none;
}
