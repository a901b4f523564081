-- ===== src/Request.antt =====
-- interface/asio_http/http_request.h, implementation/http_request.cpp, the settings of
-- interface/asio_http/http_client_settings.h, and `http_result_data` of http_content.h.
use asio_http.Base.{ℕ, [], Bytes, Option}
use asio_http.Headers.{HeaderList}
use asio_http.Url.{Url}

pub record SslSettings : Type 0 where
  pub client_private_key_file : Bytes
  pub client_certificate_file : Bytes
  pub certificate_authority_bundle_file : Bytes

pub data HttpMethod : Type 0 where
  get post put head : HttpMethod

pub data CompressionPolicy : Type 0 where
  never when_better always : CompressionPolicy

pub record HttpRequest : Type 0 where
  pub http_method : HttpMethod
  pub url : Url
  pub timeout_msec : ℕ
  pub certificates : SslSettings
  pub http_headers : HeaderList
  pub post_data : Bytes
  pub compression_policy : CompressionPolicy

abbrev pub default_timeout_msec : ℕ
default_timeout_msec = 120000

abbrev pub no_ssl : SslSettings
no_ssl = record {
  client_private_key_file = [];
  client_certificate_file = [];
  certificate_authority_bundle_file = [];
}

pub record HttpClientSettings : Type 0 where
  pub max_parallel_requests : ℕ
  pub max_attempts : ℕ

abbrev pub default_settings : HttpClientSettings
default_settings = record { max_parallel_requests = 25; max_attempts = 5 }

-- What a connection hands over when a request ends. The request is the one it was started with.
pub record HttpResultData : Type 0 where
  pub request : Option HttpRequest
  pub headers : HeaderList
  pub status_code : ℕ
  pub content : Bytes
