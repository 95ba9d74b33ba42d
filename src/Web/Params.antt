-- ===== src/Web/Params.antt =====
-- internal/presentation/webhandlers/cache.go: the parameters in the query of a cache request.
pub mod Accepted
use paste_thek4n_ru.Prelude.{
  ℕ, String, Bool, true, false, not, ◌&&◌, List, [], ◌∷◌, Option, none, some, ltb, ◌==◌, length,
  if◌then◌else◌,
}
use paste_thek4n_ru.Prelude.Int.{ℤ, pos, ltb_ℤ, is_zero}
use paste_thek4n_ru.Prelude.Bytes.{Bytes, bytes_eq, is_empty, codes}
use paste_thek4n_ru.Errors.{GoError, plain, external, cache_error}
use paste_thek4n_ru.Exec.{Result, ok, err}
use paste_thek4n_ru.Std.Runes.{all_runes_in}
use paste_thek4n_ru.Std.Atoi.{atoi}
use paste_thek4n_ru.Config.{CacheValidationConfig}

-- `cacheRequestParams`; the two integers are `int`s.
pub record CacheRequestQuery : Type 0 where
  pub apikey : Bytes
  pub requested_key : Bytes
  pub ttl : ℤ
  pub length : ℤ
  pub disposable : ℤ
  pub is_url : Bool

-- net/url.Values: the values of each parameter.
abbrev pub Values : Type 0
Values = List (Bytes × List Bytes)

abbrev first : List Bytes → Bytes
first [] = []
first (v ∷ _) = v

-- v.Get(name): the first value, or the empty string.
unfoldable pub get : Values → Bytes → Bytes
get [] name = []
get ((k, vs) ∷ rest) name = let later = get rest name in if bytes_eq k name then first vs else later

abbrev atoi_or : String → Option ℤ → Result ℤ
atoi_or m none = err (plain m)
atoi_or m (some n) = ok n

infixl 5 ◌>>=◌
abbrev pub ◌>>=◌ : {A B : Type 0} → Result A → (A → Result B) → Result B
ok a >>= f = f a
err e >>= f = err e

-- The error of a parameter is replaced by an answer with status 400.
abbrev invalid : {A : Type 0} → String → Result A → Result A
invalid m (ok a) = ok a
invalid m (err e) = err (cache_error (codes m) 400)

-- The text of an error of `getRequestedKey`.
abbrev own_text : {A : Type 0} → Result A → Result A
own_text (err (plain m)) = err (cache_error (codes m) 400)
own_text (err e) = err e
own_text (ok a) = ok a

unfoldable pub get_url : Values → Result Bool
unfolding get
get_url v =
    let url = get v (codes "url") in
    if is_empty url
    then ok false
    else if bytes_eq url (codes "true")
    then ok true
    else if bytes_eq url (codes "false")
    then ok false
    else err (plain "URL argument can be only 'true' or 'false'")

-- The tests of `getDisposable` on the number that is read.
unfoldable pub check_disposable : ℤ → Result ℤ
check_disposable n =
    if ltb_ℤ n (pos 0)
    then err (plain "disposable argument can`t be less then zero")
    else if ltb_ℤ (pos 255) n
    then err (plain "disposable argument can`t be more then 255")
    else ok n

unfoldable pub get_disposable : Values → Result ℤ
get_disposable v =
    let disposable = get v (codes "disposable") in
    if is_empty disposable
    then ok (pos 0)
    else atoi_or "fail to parse disposable" (atoi disposable) >>= check_disposable

module _ (cfg : CacheValidationConfig) where
  unfoldable pub check_length : ℤ → Result ℤ
  check_length n =
      if ltb_ℤ n (pos cfg.privileged_min_key_length)
      then err (plain "length can`t be less then")
      else if ltb_ℤ (pos cfg.max_key_length) n
      then err (plain "length can`t be more then")
      else ok n

  unfoldable pub get_length : Values → Result ℤ
  get_length v =
      let length = get v (codes "len") in
      if is_empty length
      then ok (pos cfg.default_key_length)
      else atoi_or "fail to parse length" (atoi length) >>= check_length

  unfoldable pub check_key : Bytes → Result Bytes
  check_key key =
      if is_empty key
      then ok []
      else if ltb cfg.max_key_length (length key)
      then err (plain "requested key length more then max")
      else if ltb (length key) cfg.privileged_min_key_length
      then err (plain "requested key length less then min")
      else if not (all_runes_in cfg.allowed_key_chars key)
      then err (plain "requested key contains illegal char")
      else ok key

  unfoldable pub get_requested_key : Values → Result Bytes
  get_requested_key v = check_key (get v (codes "key"))

  unfoldable pub check_ttl : ℤ → Result ℤ
  check_ttl ttl =
      if not (is_zero ttl) && ltb_ℤ ttl cfg.min_ttl
      then err (plain "TTL can`t be less then")
      else if ltb_ℤ cfg.privileged_max_ttl ttl
      then err (plain "TTL can`t be more then")
      else ok ttl

  -- time.ParseDuration is a parameter.
  module _ (parse_duration : Bytes → Result ℤ) where
    unfoldable pub get_ttl : Values → Result ℤ
    get_ttl v =
        let ttl = get v (codes "ttl") in
        if is_empty ttl then ok cfg.default_ttl else parse_duration ttl >>= check_ttl

    unfoldable pub parse_and_validate_request_params : Values → Result CacheRequestQuery
    parse_and_validate_request_params v = invalid "Invalid 'ttl' parameter" (get_ttl v) >>= λ ttl.
        invalid "Invalid 'len' parameter" (get_length v) >>= λ length.
        invalid "Invalid 'disposable' parameter" (get_disposable v) >>= λ disposable.
        invalid "Invalid 'url' parameter" (get_url v) >>= λ is_url.
        own_text (get_requested_key v) >>= λ requested_key. ok (record {
          apikey = get v (codes "apikey");
          requested_key = requested_key;
          ttl = ttl;
          length = length;
          disposable = disposable;
          is_url = is_url;
        })
