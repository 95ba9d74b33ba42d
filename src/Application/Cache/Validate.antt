-- ===== src/Application/Cache/Validate.antt =====
-- internal/application/service/cache.go: the `validate*` methods.
pub mod Accepts
use paste_thek4n_ru.Prelude.{
  ℕ, ◌≡◌, refl, Bool, true, false, not, arith, ltb, length, if◌then◌else◌,
}
use paste_thek4n_ru.Prelude.Int.{ℤ, pos, ltb_ℤ}
use paste_thek4n_ru.Prelude.Bytes.{Bytes, is_empty}
use paste_thek4n_ru.Errors.{
  GoError, sentinel, annotated, body_too_large, invalid_ttl, invalid_requested_key,
  invalid_requested_key_length, non_authorized,
}
use paste_thek4n_ru.Exec.{Result, ok, err}
use paste_thek4n_ru.Std.Runes.{all_runes_in}
use paste_thek4n_ru.Config.{CacheValidationConfig}
use paste_thek4n_ru.Domain.Params.{CacheRequestParams}

-- `nil` or an error.
abbrev pub Check : Type 0
Check = Result (Unit {0})

infixl 5 ◌andthen◌
abbrev pub ◌andthen◌ : Check → Check → Check
ok _ andthen k = k
err e andthen k = err e

-- `if test { return e }`
abbrev pub refuse_if : Bool → GoError → Check
refuse_if true e = err e
refuse_if false e = ok tt

module _ (cfg : CacheValidationConfig) where
  unfoldable pub validate_common_request_params : CacheRequestParams → Check
  validate_common_request_params params =
      refuse_if (ltb cfg.max_key_length params.requested_key_length)
        (sentinel invalid_requested_key_length)

  -- The tests that are made only of a key that is asked for.
  unfoldable pub validate_requested_key : Bytes → Check
  validate_requested_key key =
      refuse_if (ltb cfg.max_key_length (length key)) (sentinel invalid_requested_key)
      andthen refuse_if (ltb (length key) cfg.privileged_min_key_length)
          (sentinel invalid_requested_key)
      andthen refuse_if (not (all_runes_in cfg.allowed_key_chars key))
          (annotated (sentinel invalid_requested_key) "requested key contains illegal char")

  unfoldable pub validate_privileged_request_params : CacheRequestParams → Check
  unfolding validate_requested_key validate_common_request_params
  validate_privileged_request_params params =
      (if is_empty params.requested_key then ok tt else validate_requested_key params.requested_key)
      andthen refuse_if (ltb_ℤ cfg.privileged_max_body_size params.body_len)
          (sentinel body_too_large)
      andthen refuse_if (ltb_ℤ cfg.privileged_max_ttl params.ttl) (sentinel invalid_ttl)
      andthen refuse_if (ltb params.requested_key_length cfg.privileged_min_key_length)
          (sentinel invalid_requested_key_length)
      andthen validate_common_request_params params

  unfoldable pub validate_unprivileged_request_params : CacheRequestParams → Check
  unfolding validate_common_request_params
  validate_unprivileged_request_params params =
      refuse_if (not (is_empty params.requested_key)) (sentinel non_authorized)
      andthen refuse_if (ltb_ℤ cfg.unprivileged_max_body_size params.body_len)
          (sentinel body_too_large)
      andthen refuse_if (ltb_ℤ params.ttl cfg.min_ttl) (sentinel invalid_ttl)
      andthen refuse_if (ltb_ℤ cfg.unprivileged_max_ttl params.ttl) (sentinel invalid_ttl)
      andthen refuse_if (ltb params.requested_key_length cfg.unprivileged_min_key_length)
          (sentinel invalid_requested_key_length)
      andthen validate_common_request_params params
