-- ===== src/Application/Cache/Validate/Accepts.antt =====
-- Which requests the `validate*` methods of internal/application/service/cache.go accept.
use paste_thek4n_ru.Prelude.{◌≤◌, ◌≡◌, refl, ◌↔◌, ◌⊎◌, true, [], ◌∷◌, arith, length}
use paste_thek4n_ru.Prelude.Int.{◌≤ℤ◌}
use paste_thek4n_ru.Prelude.Bytes.{Bytes, is_empty}
use paste_thek4n_ru.Exec.{ok}
use paste_thek4n_ru.Std.Runes.{all_runes_in}
use paste_thek4n_ru.Config.{CacheValidationConfig}
use paste_thek4n_ru.Domain.Params.{CacheRequestParams}
use paste_thek4n_ru.Application.Cache.Validate.{
  validate_privileged_request_params, validate_unprivileged_request_params,
}

module _ (cfg : CacheValidationConfig) where
  pub record IsUnprivileged (p : CacheRequestParams) : Type 0 where
    pub no_key : p.requested_key ≡ []
    pub small : p.body_len ≤ℤ cfg.unprivileged_max_body_size
    pub not_short : cfg.min_ttl ≤ℤ p.ttl
    pub not_long : p.ttl ≤ℤ cfg.unprivileged_max_ttl
    pub min_length : cfg.unprivileged_min_key_length ≤ p.requested_key_length
    pub max_length : p.requested_key_length ≤ cfg.max_key_length

  pub record IsKey (key : Bytes) : Type 0 where
    pub not_short : cfg.privileged_min_key_length ≤ length key
    pub not_long : length key ≤ cfg.max_key_length
    pub allowed : all_runes_in cfg.allowed_key_chars key ≡ true

  pub record IsPrivileged (p : CacheRequestParams) : Type 0 where
    pub key : (p.requested_key ≡ []) ⊎ IsKey p.requested_key
    pub small : p.body_len ≤ℤ cfg.privileged_max_body_size
    pub not_long : p.ttl ≤ℤ cfg.privileged_max_ttl
    pub min_length : cfg.privileged_min_key_length ≤ p.requested_key_length
    pub max_length : p.requested_key_length ≤ cfg.max_key_length

  is_empty_iff : (s : Bytes) → (is_empty s ≡ true) ↔ (s ≡ [])
  is_empty_iff [] = ((λ h. refl), λ h. refl)
  is_empty_iff (b ∷ s) = ground arith

  -- A request without privileges passes exactly when it asks for no key and its body, its time
  -- to live and its key length lie in the unprivileged limits.
  pub validate-IsUnprivileged_iff :
      (p : CacheRequestParams)
      → (validate_unprivileged_request_params cfg p ≡ ok tt) ↔ IsUnprivileged p
  unfolding validate_unprivileged_request_params
  validate-IsUnprivileged_iff p = ground (arith, is_empty_iff p.requested_key)

  -- A privileged request passes exactly when the key that it asks for, if any, is well formed and
  -- the rest lies in the privileged limits; its time to live has no lower bound.
  pub validate-IsPrivileged_iff :
      (p : CacheRequestParams) → (validate_privileged_request_params cfg p ≡ ok tt) ↔ IsPrivileged p
  unfolding validate_privileged_request_params
  validate-IsPrivileged_iff p = ground (arith, is_empty_iff p.requested_key)
