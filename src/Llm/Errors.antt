-- ===== src/Llm/Errors.antt =====
-- crates/localpilot-llm/src/error.rs: the taxonomy of provider errors. A duration is its number of
-- nanoseconds.
use unshackled.Prelude.{
  ℕ, ◌≡◌, Bool, true, false, Option, none, some, [], ◌++◌, ◌==◌, leb, ◌&&◌, ◌||◌, if◌then◌else◌,
  arith,
}
use unshackled.Text.{Text, codes, text_eq}
use unshackled.Text.Decimal.{decimal}

pub record QuotaInfo : Type 0 where
  pub retry_after : Option ℕ
  pub reset_at : Option ℕ
  pub limit_kind : Option Text
  pub retryable : Bool
  pub raw_provider_code : Option Text

pub data ProviderError : Type 0 where
  auth : Option Text → ProviderError
  rate_limit quota_exhausted : QuotaInfo → ProviderError
  invalid_request model_not_found : Text → ProviderError
  server : ℕ → Option Text → ProviderError
  network stream_decode unsupported_feature : Text → ProviderError

unfoldable pub quota : ProviderError → Option QuotaInfo
quota (rate_limit q) = some q
quota (quota_exhausted q) = some q
quota _ = none

unfoldable pub is_retryable : ProviderError → Bool
is_retryable (rate_limit q) = q.retryable
is_retryable (quota_exhausted q) = q.retryable
is_retryable (server status id) = true
is_retryable (network m) = true
is_retryable _ = false

abbrev pub is_code : Option Text → Text → Bool
is_code none t = false
is_code (some c) t = text_eq c t

abbrev pub code_or : Option Text → Text → Text
code_or none t = t
code_or (some c) t = c

unfoldable pub from_http : ℕ → Option Text → Option Text → QuotaInfo → ProviderError
from_http status code request_id info =
    if (status == 401) || (status == 403)
    then auth request_id
    else if status == 404
    then model_not_found []
    else if status == 429
    then (if is_code code (codes "insufficient_quota")
        then quota_exhausted info
        else rate_limit info)
    else if (status == 400) || (status == 422)
    then invalid_request (code_or code (codes "bad request"))
    else server status request_id

-- Which HTTP errors are retried: a 429 as its metadata say, a request that the provider refuses on
-- its merits never, and every other status always.
pub from_http-is_retryable :
    (status : ℕ) (code request_id : Option Text) (info : QuotaInfo)
    → is_retryable (from_http status code request_id info) ≡ (
        if status == 429
        then info.retryable
        else if (leb 400 status && leb status 401)
            || (leb 403 status && leb status 404)
            || (status == 422)
        then false
        else true)
unfolding from_http is_retryable
from_http-is_retryable status code request_id info = ground arith

-- The `Display` text.
unfoldable pub display : ProviderError → Text
unfolding decimal
display (auth id) = codes "authentication failed"
display (rate_limit q) = codes "rate limited by provider"
display (quota_exhausted q) = codes "provider quota exhausted"
display (invalid_request message) = codes "invalid request: " ++ message
display (model_not_found model) = codes "model not found: " ++ model
display (server status id) = codes "provider server error (status " ++ (decimal status ++ codes ")")
display (network m) = codes "network error: " ++ m
display (stream_decode m) = codes "stream decode error: " ++ m
display (unsupported_feature m) = codes "unsupported feature: " ++ m
