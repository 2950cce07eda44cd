-- ===== src/Http/Types.antt =====
-- cpp/http/HttpTypes.hpp and cpp/http/NetworkConfig.hpp, and the platform's HTTP client, which is
-- not this program's code: an operation on the world `W`.
use react_native_salve_db.Prelude.{List, Option, Bytes, ℤ}

-- `HttpMethod`; the constructor of `Delete` is named like the method
pub data HttpMethod : Type 0 where
  get_method post_method put_method patch_method delete_method : HttpMethod

abbrev pub HttpHeaders : Type 0
HttpHeaders = List (Bytes × Bytes)

pub record HttpRequest (N : Type 0) : Type 0 where
  pub method : HttpMethod
  pub url : Bytes
  pub headers : HttpHeaders
  pub body : Option Bytes
  pub timeout_ms : N

pub record HttpResponse : Type 0 where
  pub status_code : ℤ
  pub headers : HttpHeaders
  pub body : Bytes

pub data HttpNetworkErrorKind : Type 0 where
  timeout no_connection cancelled other : HttpNetworkErrorKind

pub record HttpNetworkError : Type 0 where
  pub kind : HttpNetworkErrorKind
  pub message : Bytes

-- `std::variant<HttpResponse, HttpNetworkError>`
pub data HttpOutcome : Type 0 where
  response : HttpResponse → HttpOutcome
  network_error : HttpNetworkError → HttpOutcome

pub record NetworkConfig (N : Type 0) : Type 0 where
  pub base_url : Bytes
  pub timeout_ms : N

-- `platform::httpExecute`
pub record HttpPlatform (W N : Type 0) : Type 0 where
  pub http_execute : HttpRequest N → W → HttpOutcome × W
