-- ===== src/Web/Cache/Checked.antt =====
-- How the checks of the `Cache` handler and those of the service fit together:
-- internal/presentation/webhandlers/cache.go and internal/application/service/cache.go.
use paste_thek4n_ru.Prelude.{String, ◌≡◌, ◌⊎◌, inl, inr, Bool, arith}
use paste_thek4n_ru.Prelude.Int.{ℤ}
use paste_thek4n_ru.Prelude.Bytes.{Bytes, codes}
use paste_thek4n_ru.Errors.{GoError, plain, cache_error, sentinel, body_too_large}
use paste_thek4n_ru.Exec.{Result, ok, err, Result-cases, run-cases}
use paste_thek4n_ru.Config.{CacheValidationConfig}
use paste_thek4n_ru.Domain.Params.{CacheRequestParams}
use paste_thek4n_ru.Application.Cache.Serve.{CacheService}
use paste_thek4n_ru.Application.Cache.Validate.{
  validate_requested_key, validate_privileged_request_params,
}
use paste_thek4n_ru.Web.Params.{
  CacheRequestQuery, Values, check_key, get_requested_key, get_ttl, get_length, get_disposable,
  get_url, parse_and_validate_request_params,
}
use paste_thek4n_ru.Web.Params.Accepted.{IsSane, IsAccepted, parse-IsAccepted}
use paste_thek4n_ru.Web.Answers.{ResponseWriter, handle_cache_error}
use paste_thek4n_ru.Web.Request.{Request, get_client_ip}
use paste_thek4n_ru.Web.Cache.{params_of, read_request_body, read_params, cache_key, cache}

abbrev text_of : GoError → String
text_of (plain m) = m
text_of _ = ""

module _ (cfg : CacheValidationConfig) (parse_duration : Bytes → Result ℤ) where
  get_requested_key-err :
      (v : Values) {e : GoError} → get_requested_key cfg v ≡ err e → (m : String) × (e ≡ plain m)
  unfolding get_requested_key check_key
  get_requested_key-err v {e} h = (text_of e, ground arith)

  parse-err :
      (v : Values) {e : GoError}
      → parse_and_validate_request_params cfg parse_duration v ≡ err e
      → (m : Bytes) × (e ≡ cache_error m 400)
  unfolding parse_and_validate_request_params
  parse-err v h = elim (Result-cases (get_ttl cfg parse_duration v)) [
    | inr (e, ht) ↦ (codes "Invalid 'ttl' parameter", ground arith)
    | inl (t, ht) ↦ elim (Result-cases (get_length cfg v)) [
      | inr (e, hl) ↦ (codes "Invalid 'len' parameter", ground arith)
      | inl (l, hl) ↦ elim (Result-cases (get_disposable v)) [
        | inr (e, hd) ↦ (codes "Invalid 'disposable' parameter", ground arith)
        | inl (d, hd) ↦ elim (Result-cases (get_url v)) [
          | inr (e, hu) ↦ (codes "Invalid 'url' parameter", ground arith)
          | inl (u, hu) ↦ elim (Result-cases (get_requested_key cfg v)) [
            | inr (e, hk) ↦
                (let (m, same) = get_requested_key-err v hk in (codes m, ground (arith, same)))
            | inl (k, hk) ↦ absurd (ground arith)
          ]
        ]
      ]
    ]
  ]

  IsAccepted-privileged :
      (ip : Bytes) (q : CacheRequestQuery) (body : Bytes)
      → IsAccepted cfg q
      → (validate_privileged_request_params cfg (params_of ip q body) ≡ ok tt)
        ⊎ (validate_privileged_request_params cfg (params_of ip q body)
            ≡ err (sentinel body_too_large))
  unfolding validate_privileged_request_params params_of validate_requested_key
  IsAccepted-privileged ip q body a = ground (arith, a.key, a.not_long, a.min_length, a.max_length)

  module _ {W : Type 0} (url_ok : Bytes → Bool) (service : CacheService W)
      (response : ResponseWriter W) where
    -- The parameters that the handler passes to the service pass the privileged check, unless the
    -- body is too large. The defaults of the configuration lie within its limits.
    pub read_params-valid :
        IsSane cfg
        → (r : Request W) (w : W) {p : CacheRequestParams} {w' : W}
        → read_params cfg parse_duration url_ok service response r w ≡ (ok p, w')
        → (validate_privileged_request_params cfg p ≡ ok tt)
          ⊎ (validate_privileged_request_params cfg p ≡ err (sentinel body_too_large))
    unfolding read_params
    read_params-valid sane r w {p} {w'} h =
        elim (Result-cases (parse_and_validate_request_params cfg parse_duration r.query)) [
          | inr (e, hq) ↦ absurd (ground arith)
          | inl (q, hq) ↦ elim (run-cases (read_request_body r w)) [
            | inr (e, w1, hb) ↦ absurd (ground arith)
            | inl (body, w1, hb) ↦
                let same : params_of (get_client_ip r) q body ≡ p = ground arith in
                rw (← same) (
                  IsAccepted-privileged (get_client_ip r) q body
                    (parse-IsAccepted cfg sane parse_duration r.query hq))
          ]
        ]

    -- A query that does not parse is answered with status 400, and neither the body is read nor the
    -- service called.
    pub cache_bad_query :
        (r : Request W) (w : W) {e : GoError}
        → parse_and_validate_request_params cfg parse_duration r.query ≡ err e
        → (m : Bytes) × (cache cfg parse_duration url_ok service response r w
            ≡ handle_cache_error response (cache_error m 400) w)
    unfolding cache cache_key read_params
    cache_bad_query r w {e} h = let (m, same) = parse-err r.query h in (m, rw (h, same))
