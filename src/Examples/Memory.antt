-- ===== src/Examples/Memory.antt =====
-- Repositories in memory that keep the contracts, and the service over them.
use paste_thek4n_ru.Prelude.{
  ℕ, ◌≡◌, refl, sym, ap, ◌∙◌, inl, inr, Bool, true, false, Option, none, some, Bool-cases,
}
use paste_thek4n_ru.Prelude.Bytes.{Bytes, codes}
use paste_thek4n_ru.Errors.{GoError, plain, sentinel, quota_not_found, record_not_found}
use paste_thek4n_ru.Exec.{Result, ok, err}
use paste_thek4n_ru.Exec.Kept.{Kept}
use paste_thek4n_ru.Config.{default_cache_validation_config, default_quota_config}
use paste_thek4n_ru.Domain.Record.{Record}
use paste_thek4n_ru.Domain.Quota
use paste_thek4n_ru.Domain.Quota.{Quota, new_quota}
use paste_thek4n_ru.Domain.Event.{
  new_publisher, notify_all, notify, notify_loop, handlers_of, Event, is_asynchronous,
}
use paste_thek4n_ru.Application.Repository.{RecordRepository, QuotaRepository}
use paste_thek4n_ru.Application.Repository.Contract.{Content, content, IsRecordStore, IsQuotaStore}
use paste_thek4n_ru.Application.Validator.{IApiKeyService}
use paste_thek4n_ru.Application.Cache.Serve.{CacheService}
use paste_thek4n_ru.Application.Cache.Serve.Stored.{Apart}
use paste_thek4n_ru.Examples.World.{World, put, put-same, put-other, same_world, same_value, clock}

abbrev held : Option Record → World → Result Record × World
held none w = (err (sentinel record_not_found), w)
held (some r) w = (ok r, w)

abbrev pub found : {A : Type 0} → Option A → Bool
found none = false
found (some _) = true

-- One key is offered, as long as it is free.
abbrev pub only_key : Bytes
only_key = codes "aaaaaaaaaaaaaa"

abbrev offer : Option Record → World → Result Bytes × World
offer none w = (ok only_key, w)
offer (some _) w = (err (plain "taken"), w)

abbrev pub memory : RecordRepository World
memory = record {
  get_by_key = λ k w. held (w.records k) w;
  set_by_key = λ k r w. (ok tt, record w { records = put k (some r) w.records });
  exists = λ k w. (ok (found (w.records k)), w);
  generate_unique_key = λ m n w. offer (w.records only_key) w;
}

abbrev content_of : Option Record → Option Content
content_of none = none
content_of (some r) = some (content r)

abbrev view : World → Bytes → Option Content
view w k = content_of (w.records k)

pub held-kept : (x : Option Record) (w : World) → Kept view w (held x w).1
held-kept none w j = inl refl
held-kept (some r) w j = inl refl

pub offer-kept : (x : Option Record) (w : World) → Kept view w (offer x w).1
offer-kept none w j = inl refl
offer-kept (some r) w j = inl refl

pub held-ok :
    (x : Option Record) (w : World) {r : Record} {w' : World}
    → held x w ≡ (ok r, w')
    → content_of x ≡ some (content r)
held-ok none w e = absurd (cc e)
held-ok (some x) w e = ap (λ y. some (content y)) (same_value e)

pub found-none : (x : Option Record) → found x ≡ false → content_of x ≡ none
found-none none h = refl
found-none (some x) h = cc h

pub offer-none :
    (x : Option Record) (w : World) {k : Bytes} {w' : World}
    → offer x w ≡ (ok k, w')
    → (content_of x ≡ none) × (k ≡ only_key) × (w' ≡ w)
offer-none none w e = (refl, sym (same_value e), same_world e)
offer-none (some x) w e = absurd (cc e)

pub succeeds :
    {A : Type 0} {a : A} {e : GoError} {w w' : World}
    → ¬ (◌≡◌ {A = Result A × World} (ok a, w) (err e, w'))
succeeds h = cc h

abbrev at : Bytes → World → Option Content
at k w = view w k

abbrev pub memory_store : IsRecordStore clock memory
memory_store = record {
  view = view;
  Storable = λ _. Unit;
  now_kept = λ w j. inl refl;
  get_kept = λ k w. held-kept (w.records k) w;
  get_ok = λ k w e. inl (held-ok (w.records k) w e);
  set_ok =
      λ k r w s e. inl (ap (at k) (same_world e) ∙ ap content_of (put-same k (some r) w.records));
  set_err = λ k r w s e. absurd (succeeds e);
  set_others = λ k j r w h. inl (ap content_of (put-other k j (some r) w.records h));
  exists_kept = λ k w j. inl refl;
  exists_ok = λ k w e. ap (at k) (same_world e) ∙ found-none (w.records k) (same_value e);
  generate_kept = λ m n w. offer-kept (w.records only_key) w;
  generate_ok = λ m n w {k} {w'} e.
      (let (free, key, same) = offer-none (w.records only_key) w e in rw (key, same) free);
}

-- The quotas of the addresses, whose periods never end.
abbrev held_quota : Bytes → Option ℕ → World → Result Quota × World
held_quota ip none w = (err (sentinel quota_not_found), w)
held_quota ip (some v) w = (ok (new_quota ip v), w)

abbrev pub quota_repository : QuotaRepository World
quota_repository = record {
  get_by_id = λ ip w. held_quota ip (w.quotas ip) w;
  set_by_id = λ ip q w. (ok tt, record w { quotas = put ip (some (Quota.value q)) w.quotas });
}

-- Every key exists and is valid.
abbrev pub apikey_service : IApiKeyService World
apikey_service = record {
  exists = λ k w. (ok true, w);
  check_valid = λ k w. (ok true, w);
  get_id = λ k w. (ok k, w);
}

abbrev pub service : CacheService World
service = record {
  record_repository = memory;
  quota_repository = quota_repository;
  apikey_service = apikey_service;
  event_publisher = new_publisher;
  validation_config = default_cache_validation_config;
  quota_config = default_quota_config;
  clock = clock;
  go_statement = λ f w. f w;
}

unfoldable pub quota_store : (ip : Bytes) → IsQuotaStore quota_repository ip
quota_store ip = record {
  at = λ (w : World). w.quotas ip;
  get_missing = λ w h. (w, rw h refl, h);
  get_found = λ w v h. (w, rw h refl, h);
  set_ok = λ q w. (
    record w { quotas = put ip (some (Quota.value q)) w.quotas },
    refl,
    put-same ip (some (Quota.value q)) w.quotas,
  );
}

held_quota-kept : (ip : Bytes) (x : Option ℕ) (w : World) → Kept view w (held_quota ip x w).1
held_quota-kept ip none w j = inl refl
held_quota-kept ip (some v) w j = inl refl

notify-kept : (e : Event) (w : World) → Kept view w (notify_all (λ f v. f v) new_publisher e w)
unfolding notify_all notify notify_loop handlers_of
notify-kept e w j = elim (Bool-cases (is_asynchronous e)) [
  | inl later ↦ rw later (inl refl)
  | inr now ↦ rw now (inl refl)
]

pub apart : Apart service memory_store
apart = record {
  quota_get = λ ip w. held_quota-kept ip (w.quotas ip) w;
  quota_set = λ ip q w j. inl refl;
  key_exists = λ k w j. inl refl;
  key_valid = λ k w j. inl refl;
  key_id = λ k w j. inl refl;
  events = notify-kept;
}
