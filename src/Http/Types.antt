-- ===== src/Http/Types.antt =====
-- src/http/types.h and types.cc: status codes, methods, requests and the status of an exception.
use gabby.Base.{ℕ, Option, none, some, List, Bytes, codes}
use gabby.Outcome.{Exception, internal_error, bad_request, timeout, not_found}
use gabby.Json.Source.{File}

pub data StatusCode : Type 0 where
  ok_status bad_request_status not_found_status request_timeout internal_server_error : StatusCode

pub data Method : Type 0 where
  get post : Method

-- `int(status)`
unfoldable pub status_number : StatusCode → ℕ
status_number ok_status = 200
status_number bad_request_status = 400
status_number not_found_status = 404
status_number request_timeout = 408
status_number internal_server_error = 500

-- `to_string(StatusCode)`
unfoldable pub status_text : StatusCode → Bytes
status_text ok_status = codes "OK"
status_text not_found_status = codes "Not Found"
status_text bad_request_status = codes "Bad Request"
status_text request_timeout = codes "Request Timeout"
status_text internal_server_error = codes "Internal Server Error"

-- `to_string(Method)`
unfoldable pub method_text : Method → Bytes
method_text get = codes "GET"
method_text post = codes "POST"

-- `status()` of the classes that derive from `HttpException`
unfoldable pub http_status : Exception → Option StatusCode
http_status (internal_error what) = some internal_server_error
http_status (bad_request what) = some bad_request_status
http_status timeout = some request_timeout
http_status not_found = some not_found_status
http_status _ = none

-- `struct Request`; the headers are an association list with no key twice.
pub record Request : Type 0 where
  pub addr : Bytes
  pub method : Method
  pub path : Bytes
  pub headers : List (Bytes × Bytes)
  pub stream : File
