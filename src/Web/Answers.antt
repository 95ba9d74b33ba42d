-- ===== src/Web/Answers.antt =====
-- internal/presentation/webhandlers/cache.go: `handleCacheError`. `W` is the world, in which the
-- response is written.
use paste_thek4n_ru.Prelude.{ℕ, if◌then◌else◌}
use paste_thek4n_ru.Prelude.Bytes.{Bytes, codes, is_empty}
use paste_thek4n_ru.Errors.{
  DomainError, quota_exhausted, body_too_large, requested_key_exists, invalid_ttl,
  invalid_requested_key_length, invalid_requested_key, non_authorized, record_not_found,
  record_counter_exhausted, record_expired, apikey_not_found, quota_not_found, apikey_invalid,
  GoError, sentinel, cache_error, cache_error_of,
}
use paste_thek4n_ru.Exec.{Exec}

-- net/http.ResponseWriter, as the handlers use it.
pub record ResponseWriter (W : Type 0) : Type 0 where
  -- w.Header().Set(name, value)
  pub set_header : Bytes → Bytes → W → W
  pub write_header : ℕ → W → W
  -- w.Write and fmt.Fprint
  pub write : Bytes → Exec W (Unit {0})

-- The status and the text of an answer.
abbrev pub Answer : Type 0
Answer = ℕ × Bytes

-- The cases of the switch, on errors that are a sentinel itself.
unfoldable pub answer_of_sentinel : DomainError → Answer
answer_of_sentinel quota_exhausted = (403, codes "Quota exhausted")
answer_of_sentinel body_too_large = (413, codes "Body too large")
answer_of_sentinel requested_key_exists = (409, codes "Requested key exists")
answer_of_sentinel invalid_ttl = (400, codes "Invalid TTL")
answer_of_sentinel invalid_requested_key_length = (400, codes "Invalid key length")
answer_of_sentinel invalid_requested_key = (400, codes "Invalid requested key")
answer_of_sentinel non_authorized = (401, codes "Unauthorized")
answer_of_sentinel record_not_found = (404, codes "Not found")
answer_of_sentinel record_counter_exhausted = (404, codes "Not found")
answer_of_sentinel record_expired = (404, codes "Not found")
answer_of_sentinel apikey_not_found = (401, codes "Forbidden")
answer_of_sentinel quota_not_found = (500, codes "Internal server error")
answer_of_sentinel apikey_invalid = (401, codes "Unauthorized")

-- The switch compares by `==`, so that an error around a sentinel is none of its cases.
unfoldable pub answer_of : GoError → Answer
unfolding answer_of_sentinel
answer_of (sentinel e) = answer_of_sentinel e
answer_of (cache_error message status) = (status, message)
answer_of (cache_error_of message status e) = (status, message)
answer_of _ = (500, codes "Internal server error")

module _ {W : Type 0} (response : ResponseWriter W) where
  unfoldable pub send : Answer → W → W
  send (status, message) w =
      let w' = response.write_header status w in
      if is_empty message then w' else (response.write message w').1

  unfoldable pub handle_cache_error : GoError → W → W
  unfolding send
  handle_cache_error e = send (answer_of e)
