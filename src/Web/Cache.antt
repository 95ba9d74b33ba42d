-- ===== src/Web/Cache.antt =====
-- internal/presentation/webhandlers/cache.go: the `Cache` handler. `W` is the world, in which the
-- body is read and the response is written.
pub mod Checked
pub mod Counted
use paste_thek4n_ru.Prelude.{
  ℕ, Bool, true, false, not, ◌&&◌, ◌||◌, ◌++◌, Option, none, some, length, if◌then◌else◌,
}
use paste_thek4n_ru.Prelude.Int.{ℤ, pos, ltb_ℤ, pos_part}
use paste_thek4n_ru.Prelude.Bytes.{Bytes, codes, is_empty}
use paste_thek4n_ru.Errors.{GoError, cache_error, cache_error_of}
use paste_thek4n_ru.Exec.{Result, ok, err, Exec, raise, pure, lift, outcome, fail_if, ◌>>=◌, ◌>>◌}
use paste_thek4n_ru.Config.{CacheValidationConfig}
use paste_thek4n_ru.Domain.Params.{CacheRequestParams}
use paste_thek4n_ru.Application.Cache.Serve.{CacheService, serve}
use paste_thek4n_ru.Web.Params.{CacheRequestQuery, Values, parse_and_validate_request_params}
use paste_thek4n_ru.Web.Request.{Request, get_client_ip, detect_proto}
use paste_thek4n_ru.Web.Answers.{ResponseWriter, handle_cache_error}

-- What url.Parse reads of a URL.
pub record Url : Type 0 where
  pub scheme : Bytes
  pub host : Bytes

-- `parse` is url.Parse.
unfoldable pub validate_url : (Bytes → Result Url) → Bytes → Bool
validate_url parse text = elim (parse text) [
  | ok u ↦ not (is_empty u.scheme) && not (is_empty u.host)
  | err e ↦ false
]

-- int(n) < 0 or > math.MaxUint8
abbrev pub is_no_uint8 : ℤ → Bool
is_no_uint8 n = ltb_ℤ n (pos 0) || ltb_ℤ (pos 255) n

abbrev pub failed_with : {W A : Type 0} → Bytes → Exec W A → Exec W A
failed_with message m w =
    outcome (m w) (λ a w'. (ok a, w')) (λ e w'. (err (cache_error_of message 500 e), w'))

unfoldable pub read_request_body : {W : Type 0} → Request W → Exec W Bytes
read_request_body r = failed_with (codes "Failed to read body") r.read_all

-- `objectvalue.CacheRequestParams` of a request.
unfoldable pub params_of : Bytes → CacheRequestQuery → Bytes → CacheRequestParams
params_of source_ip q body = record {
  apikey = q.apikey;
  requested_key = q.requested_key;
  source_ip = source_ip;
  body = body;
  ttl = q.ttl;
  body_len = pos (length body);
  requested_key_length = pos_part q.length;
  disposable = pos_part q.disposable;
  is_url = q.is_url;
}

-- `url_ok` is `validateURL`, over url.Parse.
module _ {W : Type 0} (cfg : CacheValidationConfig) (parse_duration : Bytes → Result ℤ)
    (url_ok : Bytes → Bool) (service : CacheService W) (response : ResponseWriter W) where
  unfoldable pub send_success_response : Request W → Bytes → Exec W (Unit {0})
  unfolding detect_proto
  send_success_response r key w =
      let w1 = response.set_header (codes "Access-Control-Allow-Origin") (codes "*") w in
      let w2 = response.set_header (codes "Content-Type") (codes "text/plain; charset=utf-8") w1 in
      let w3 = response.write_header 201 w2 in
      let link = detect_proto r ++ codes "://" ++ r.host ++ codes "/" ++ key ++ codes "/" in
      failed_with (codes "Failed to send response") (response.write link) w3

  -- The handler up to the call of the service.
  unfoldable pub read_params : Request W → Exec W CacheRequestParams
  unfolding params_of read_request_body
  read_params r = do
    q ← lift (parse_and_validate_request_params cfg parse_duration r.query)
    body ← read_request_body r
    fail_if (q.is_url && not (url_ok body)) (cache_error (codes "Invalid 'url'") 400)
    fail_if (is_no_uint8 q.disposable)
        (cache_error (codes "disposable counter more then 255 or less then 0") 400)
    fail_if (is_no_uint8 q.length)
        (cache_error (codes "requested key length more then 255 or less then 0") 400)
    pure (params_of (get_client_ip r) q body)

  unfoldable pub cache_key : Request W → Exec W (Unit {0})
  cache_key r = do params ← read_params r; key ← serve service params; send_success_response r key

  -- `Cache`: every error is answered by `handleCacheError`.
  unfoldable pub cache : Request W → W → W
  cache r w = outcome (cache_key r w) (λ _ w'. w') (λ e w'. handle_cache_error response e w')
