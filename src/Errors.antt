-- ===== src/Errors.antt =====
-- internal/domain/domainerrors/errors.go, and Go's `error` values as this program builds them.
use paste_thek4n_ru.Prelude.{ℕ, String, Bool, false, ◌==◌}
use paste_thek4n_ru.Prelude.Bytes.{Bytes}

-- The sentinel errors of the domain.
pub data DomainError : Type 0 where
  quota_exhausted body_too_large requested_key_exists invalid_ttl : DomainError
  invalid_requested_key_length invalid_requested_key non_authorized : DomainError
  record_not_found record_counter_exhausted record_expired : DomainError
  apikey_not_found quota_not_found apikey_invalid : DomainError

-- `wrapped m e` is `fmt.Errorf("m: %w", e)` and `annotated e m` is `fmt.Errorf("%w: m", e)`; a key
-- that a text quotes is left out of it. `plain` is an error with nothing inside, `external` one of
-- a library. `cache_error message status` is `&cacheError{Message, StatusCode}`, and
-- `cache_error_of` the same with an `Err`.
pub data GoError : Type 0 where
  sentinel : DomainError → GoError
  wrapped : String → GoError → GoError
  annotated : GoError → String → GoError
  plain : String → GoError
  external : String → GoError
  cache_error : Bytes → ℕ → GoError
  cache_error_of : Bytes → ℕ → GoError → GoError

-- Sentinels are compared by address, and no two share one.
abbrev pub address : DomainError → ℕ
address quota_exhausted = 0
address body_too_large = 1
address requested_key_exists = 2
address invalid_ttl = 3
address invalid_requested_key_length = 4
address invalid_requested_key = 5
address non_authorized = 6
address record_not_found = 7
address record_counter_exhausted = 8
address record_expired = 9
address apikey_not_found = 10
address quota_not_found = 11
address apikey_invalid = 12

abbrev pub same : DomainError → DomainError → Bool
same d e = address d == address e

-- `errors.Is(e, d)` for a sentinel `d`; `cacheError` has no `Unwrap`.
unfoldable pub is : GoError → DomainError → Bool
is (sentinel e) d = same e d
is (wrapped m e) d = is e d
is (annotated e m) d = is e d
is _ d = false
