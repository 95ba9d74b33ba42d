-- ===== src/Web/Params/Accepted.antt =====
-- What the checks of internal/presentation/webhandlers/cache.go let through.
use paste_thek4n_ru.Prelude.{◌≤◌, ◌≡◌, ◌⊎◌, [], arith}
use paste_thek4n_ru.Prelude.Int.{ℤ, pos, ◌≤ℤ◌}
use paste_thek4n_ru.Prelude.Bytes.{Bytes}
use paste_thek4n_ru.Exec.{Result, ok}
use paste_thek4n_ru.Config.{CacheValidationConfig}
use paste_thek4n_ru.Application.Cache.Validate.Accepts.{IsKey}
use paste_thek4n_ru.Web.Params.{
  CacheRequestQuery, Values, check_disposable, get_disposable, check_length, get_length, check_key,
  get_requested_key, check_ttl, get_ttl, parse_and_validate_request_params,
}

get_disposable-ok : (v : Values) {n : ℤ} → get_disposable v ≡ ok n → (pos 0 ≤ℤ n) × (n ≤ℤ pos 255)
unfolding get_disposable check_disposable
get_disposable-ok v h = ground arith

module _ (cfg : CacheValidationConfig) where
  -- The defaults of a configuration lie within its limits, and its key lengths fit a byte.
  pub record IsSane : Type 0 where
    pub default_not_long : cfg.default_ttl ≤ℤ cfg.privileged_max_ttl
    pub default_not_short : cfg.min_ttl ≤ℤ cfg.default_ttl
    pub min_length : cfg.privileged_min_key_length ≤ cfg.default_key_length
    pub max_length : cfg.default_key_length ≤ cfg.max_key_length
    pub fits : cfg.max_key_length ≤ 255

  pub record IsAccepted (q : CacheRequestQuery) : Type 0 where
    pub key : (q.requested_key ≡ []) ⊎ IsKey cfg q.requested_key
    pub not_short : (q.ttl ≡ pos 0) ⊎ (cfg.min_ttl ≤ℤ q.ttl)
    pub not_long : q.ttl ≤ℤ cfg.privileged_max_ttl
    pub min_length : pos cfg.privileged_min_key_length ≤ℤ q.length
    pub max_length : q.length ≤ℤ pos cfg.max_key_length
    pub disposable_min : pos 0 ≤ℤ q.disposable
    pub disposable_max : q.disposable ≤ℤ pos 255

  module _ (sane : IsSane) where
    get_length-ok :
        (v : Values) {n : ℤ}
        → get_length cfg v ≡ ok n
        → (pos cfg.privileged_min_key_length ≤ℤ n) × (n ≤ℤ pos cfg.max_key_length)
    unfolding get_length check_length
    get_length-ok v h = ground (arith, sane.min_length, sane.max_length)

    get_requested_key-ok :
        (v : Values) {k : Bytes} → get_requested_key cfg v ≡ ok k → (k ≡ []) ⊎ IsKey cfg k
    unfolding get_requested_key check_key
    get_requested_key-ok v h = ground arith

    module _ (parse_duration : Bytes → Result ℤ) where
      get_ttl-ok :
          (v : Values) {t : ℤ}
          → get_ttl cfg parse_duration v ≡ ok t
          → ((t ≡ pos 0) ⊎ (cfg.min_ttl ≤ℤ t)) × (t ≤ℤ cfg.privileged_max_ttl)
      unfolding get_ttl check_ttl
      get_ttl-ok v h = ground (arith, sane.default_not_long, sane.default_not_short)

      -- The parameters that the query parser lets through lie within the privileged limits: the
      -- key is absent or well formed, the time to live is 0 or in its range, the length is in its
      -- range, and the counter fits a byte. The defaults of the configuration lie within its limits.
      pub parse-IsAccepted :
          (v : Values) {q : CacheRequestQuery}
          → parse_and_validate_request_params cfg parse_duration v ≡ ok q
          → IsAccepted q
      unfolding parse_and_validate_request_params
      parse-IsAccepted v {q} h =
          let ttl : get_ttl cfg parse_duration v ≡ ok q.ttl = ground arith in
          let length : get_length cfg v ≡ ok q.length = ground arith in
          let disposable : get_disposable v ≡ ok q.disposable = ground arith in
          let key : get_requested_key cfg v ≡ ok q.requested_key = ground arith in
          record {
            key = get_requested_key-ok v key;
            not_short = (get_ttl-ok v ttl).0;
            not_long = (get_ttl-ok v ttl).1;
            min_length = (get_length-ok v length).0;
            max_length = (get_length-ok v length).1;
            disposable_min = (get_disposable-ok v disposable).0;
            disposable_max = (get_disposable-ok v disposable).1;
          }
