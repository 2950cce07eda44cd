-- ===== src/Http.antt =====
-- cpp/http: URLs, requests, the platform's HTTP client and the calls of the REST contract.
pub mod UrlBuilder
pub mod UrlTemplate
pub mod Types
pub mod CredentialHttpCaller
pub mod SyncHttpCaller
pub mod Requester
pub mod BatchSend
