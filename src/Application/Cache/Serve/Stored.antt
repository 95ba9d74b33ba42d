-- ===== src/Application/Cache/Serve/Stored.antt =====
-- What `Serve` of internal/application/service/cache.go leaves in the store of records.
use paste_thek4n_ru.Prelude.{
  ◌≡◌, refl, inl, inr, false, none, arith, ◌==◌, Bool-cases, Option-cases,
}
use paste_thek4n_ru.Prelude.Bytes.{Bytes, is_empty}
use paste_thek4n_ru.Exec.{ok, run-cases}
use paste_thek4n_ru.Exec.Kept.{Kept}
use paste_thek4n_ru.Domain.Params.{CacheRequestParams}
use paste_thek4n_ru.Domain.Expiration.{ExpirationDate, new_expiration_date_from_ttl}
use paste_thek4n_ru.Prelude.Int.{◌+ℤ◌, is_zero}
use paste_thek4n_ru.Domain.Record.{Record, new_record}
use paste_thek4n_ru.Domain.Quota
use paste_thek4n_ru.Domain.Quota.{Quota, new_quota}
use paste_thek4n_ru.Domain.Event.{Event, notify_all, new_apikey_used_event}
use paste_thek4n_ru.Application.Repository.Contract.{Content, content, IsRecordStore}
use paste_thek4n_ru.Application.Cache.Serve.{
  CacheService, usage_reason, key_length, record_of, log_apikey_usage, check_apikey, identify,
  generated_key, requested_key, get_record_key, spend, manage_quota, quota_or_new,
}

-- The record that a request asks for.
abbrev pub new_content : CacheRequestParams → Content
new_content p = record {
  body = p.body;
  clicks = 0;
  countdown = p.disposable;
  eternal = p.disposable == 0;
  url = p.is_url;
}

module _ {W : Type 0} (s : CacheService W) (store : IsRecordStore s.clock s.record_repository) where
  open store use {view, Storable}

  -- The quotas, the API keys and the events live apart from the records.
  pub record Apart : Type 0 where
    pub quota_get : (ip : Bytes) (w : W) → Kept view w (s.quota_repository.get_by_id ip w).1
    pub quota_set :
        (ip : Bytes) (q : Quota) (w : W) → Kept view w (s.quota_repository.set_by_id ip q w).1
    pub key_exists : (k : Bytes) (w : W) → Kept view w (s.apikey_service.exists k w).1
    pub key_valid : (k : Bytes) (w : W) → Kept view w (s.apikey_service.check_valid k w).1
    pub key_id : (k : Bytes) (w : W) → Kept view w (s.apikey_service.get_id k w).1
    pub events : (e : Event) (w : W) → Kept view w (notify_all s.go_statement s.event_publisher e w)

  pub record_of-content :
      (p : CacheRequestParams) (w : W) → content (record_of s p w).0 ≡ new_content p
  unfolding record_of new_expiration_date_from_ttl new_record
  record_of-content p w = refl

  -- When a record for this request expires, if the clock is asked in this world.
  abbrev pub date_from : CacheRequestParams → W → ExpirationDate
  date_from p w = record { date = (s.clock.now w).0 +ℤ p.ttl; eternal = is_zero p.ttl }

  pub record_of-dated :
      (p : CacheRequestParams) (w : W) → (record_of s p w).0.expiration_date ≡ date_from p w
  unfolding record_of new_expiration_date_from_ttl new_record
  record_of-dated p w = refl

  pub record_of-kept : (p : CacheRequestParams) (w : W) → Kept view w (record_of s p w).1
  unfolding record_of new_expiration_date_from_ttl
  record_of-kept p w j = store.now_kept w j

  pub generated_key-free :
      (p : CacheRequestParams) (w : W) {k : Bytes} {w' : W}
      → generated_key s p w ≡ (ok k, w')
      → view w' k ≡ none
  unfolding generated_key
  generated_key-free p w {k} {w'} e =
      let m = key_length s.validation_config p in
      let n = s.validation_config.max_key_length in
      let made : s.record_repository.generate_unique_key m n w ≡ (ok k, w') = ground arith in
      store.generate_ok m n w made

  requested_key-free :
      (p : CacheRequestParams) (w : W) {k : Bytes} {w' : W}
      → requested_key s p w ≡ (ok k, w')
      → view w' k ≡ none
  unfolding requested_key
  requested_key-free p w {k} {w'} e =
      let found : s.record_repository.exists p.requested_key w ≡ (ok false, w') = ground arith in
      let same : k ≡ p.requested_key = ground arith in
      rw same (store.exists_ok p.requested_key w found)

  -- The key of a new record is free.
  pub get_record_key-free :
      (p : CacheRequestParams) (w : W) {k : Bytes} {w' : W}
      → get_record_key s p w ≡ (ok k, w')
      → view w' k ≡ none
  unfolding get_record_key
  get_record_key-free p w e = elim (Bool-cases (is_empty p.requested_key)) [
    | inl empty ↦ generated_key-free p w (rw empty at e)
    | inr given ↦ requested_key-free p w (rw given at e)
  ]

  pub generated_key-kept : (p : CacheRequestParams) (w : W) → Kept view w (generated_key s p w).1
  unfolding generated_key
  generated_key-kept p w j = ground (
    arith,
    store.generate_kept (key_length s.validation_config p) s.validation_config.max_key_length w j,
  )

  pub get_record_key-kept : (p : CacheRequestParams) (w : W) → Kept view w (get_record_key s p w).1
  unfolding get_record_key generated_key requested_key
  get_record_key-kept p w j = ground (
    arith,
    store.generate_kept (key_length s.validation_config p) s.validation_config.max_key_length w j,
    store.exists_kept p.requested_key w j,
  )

  pub identify-kept : Apart → (p : CacheRequestParams) (w : W) → Kept view w (identify s p w).1
  unfolding identify check_apikey
  identify-kept apart p w j =
      let w1 = (s.apikey_service.exists p.apikey w).1 in
      let w2 = (s.apikey_service.get_id p.apikey w1).1 in
      ground (
        arith,
        apart.key_exists p.apikey w j,
        apart.key_id p.apikey w1 j,
        apart.key_valid p.apikey w2 j,
      )

  pub manage_quota-kept : Apart → (ip : Bytes) (w : W) → Kept view w (manage_quota s ip w).1
  unfolding manage_quota quota_or_new spend
  manage_quota-kept apart ip w j = elim (run-cases (s.quota_repository.get_by_id ip w)) [
    | inl (q, w1, h) ↦
        ground (arith, apart.quota_get ip w j, h, apart.quota_set ip (Quota.sub q) w1 j)
    | inr (e, w1, h) ↦ ground (
      arith,
      apart.quota_get ip w j,
      h,
      apart.quota_set ip (Quota.sub (new_quota ip s.quota_config.quota)) w1 j,
    )
  ]

  pub log_apikey_usage-kept :
      Apart
      → (id : Bytes) (p : CacheRequestParams) (w : W) → Kept view w (log_apikey_usage s id p w).1
  unfolding log_apikey_usage
  log_apikey_usage-kept apart id p w j = elim (Option-cases (usage_reason s.validation_config p)) [
    | inl none' ↦ rw none' (inl refl)
    | inr (reason, h) ↦ rw h (apart.events (new_apikey_used_event id reason p.source_ip) w j)
  ]

  -- A run from `w` has put the record of `p` under the free key `k`, and has come to `after`.
  pub record Wrote (p : CacheRequestParams) (w : W) (k : Bytes) (after : W) : Type 0 where
    pub new : Record
    pub same : content new ≡ new_content p
    -- the world in which the clock was asked
    pub asked : W
    pub dated : new.expiration_date ≡ date_from p asked
    pub before : W
    pub kept : Kept view w before
    pub free : view before k ≡ none
    pub set : s.record_repository.set_by_key k new before ≡ (ok tt, after)
