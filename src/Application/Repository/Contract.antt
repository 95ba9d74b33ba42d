-- ===== src/Application/Repository/Contract.antt =====
-- What the services rely on of the repositories of internal/application/repository. A key may
-- vanish at any moment, since the store drops what has expired.
use paste_thek4n_ru.Prelude.{ℕ, ◌≡◌, ◌⊎◌, Bool, true, false, Option, none, some}
use paste_thek4n_ru.Prelude.Bytes.{Bytes, bytes_eq}
use paste_thek4n_ru.Errors.{GoError, sentinel, quota_not_found}
use paste_thek4n_ru.Exec.{ok, err}
use paste_thek4n_ru.Exec.Kept.{Kept}
use paste_thek4n_ru.Domain.Expiration.{Clock}
use paste_thek4n_ru.Domain.Record.{Record, counter_exhausted}
use paste_thek4n_ru.Domain.Quota
use paste_thek4n_ru.Domain.Quota.{Quota, new_quota}
use paste_thek4n_ru.Domain.ApiKey.{ApiKey}
use paste_thek4n_ru.Application.Repository.{
  RecordRepository, QuotaRepository, ApiKeyRoRepository, ApiKeyWoRepository,
}

-- What a store keeps of a record, its expiration aside.
pub record Content : Type 0 where
  pub body : Bytes
  pub clicks : ℕ
  pub countdown : ℕ
  pub eternal : Bool
  pub url : Bool

abbrev pub content : Record → Content
content r = record {
  body = r.body;
  clicks = r.clicks.value;
  countdown = r.disposable_counter.value;
  eternal = r.disposable_counter.eternal;
  url = r.url;
}

module _ {W : Type 0} (clock : Clock W) (records : RecordRepository W) where
  pub record IsRecordStore : Type 1 where
    pub view : W → Bytes → Option Content
    -- The bodies that the store gives back as they were.
    pub Storable : Bytes → Type 0
    pub now_kept : (w : W) → Kept view w (clock.now w).1
    -- Reading changes nothing.
    pub get_kept : (k : Bytes) (w : W) → Kept view w (records.get_by_key k w).1
    -- A record that is read is the one that is held; a key that vanishes meanwhile reads as an
    -- exhausted record.
    pub get_ok :
        (k : Bytes) (w : W) {r : Record} {w' : W}
        → records.get_by_key k w ≡ (ok r, w')
        → (view w k ≡ some (content r)) ⊎ (counter_exhausted r ≡ true)
    -- Writing touches one key, and a failed write may have been made or not.
    pub set_ok :
        (k : Bytes) (r : Record) (w : W) {w' : W}
        → Storable r.body
        → records.set_by_key k r w ≡ (ok tt, w')
        → (view w' k ≡ some (content r)) ⊎ (view w' k ≡ none)
    pub set_err :
        (k : Bytes) (r : Record) (w : W) {e : GoError} {w' : W}
        → Storable r.body
        → records.set_by_key k r w ≡ (err e, w')
        → (view w' k ≡ some (content r)) ⊎ (view w' k ≡ view w k) ⊎ (view w' k ≡ none)
    pub set_others :
        (k j : Bytes) (r : Record) (w : W)
        → bytes_eq k j ≡ false
        → (view (records.set_by_key k r w).1 j ≡ view w j)
          ⊎ (view (records.set_by_key k r w).1 j ≡ none)
    pub exists_kept : (k : Bytes) (w : W) → Kept view w (records.exists k w).1
    -- A key that is reported free is free.
    pub exists_ok :
        (k : Bytes) (w : W) {w' : W} → records.exists k w ≡ (ok false, w') → view w' k ≡ none
    pub generate_kept : (m n : ℕ) (w : W) → Kept view w (records.generate_unique_key m n w).1
    pub generate_ok :
        (m n : ℕ) (w : W) {k : Bytes} {w' : W}
        → records.generate_unique_key m n w ≡ (ok k, w')
        → view w' k ≡ none

-- A quota repository that answers, while the period of the address's quota does not end: it gives
-- what was last set.
pub record IsQuotaStore {W : Type 0} (quotas : QuotaRepository W) (ip : Bytes) : Type 0 where
  pub at : W → Option ℕ
  pub get_missing :
      (w : W)
      → at w ≡ none
      → (v : W) × (quotas.get_by_id ip w ≡ (err (sentinel quota_not_found), v)) × (at v ≡ none)
  pub get_found :
      (w : W) (n : ℕ)
      → at w ≡ some n
      → (v : W) × (quotas.get_by_id ip w ≡ (ok (new_quota ip n), v)) × (at v ≡ some n)
  pub set_ok :
      (q : Quota) (w : W)
      → (v : W) × (quotas.set_by_id ip q w ≡ (ok tt, v)) × (at v ≡ some (Quota.value q))

-- A store of API keys: it gives what was last set under the key, and looking changes nothing.
module _ {W ApiKeyId : Type 0} (ro : ApiKeyRoRepository W ApiKeyId)
    (wo : ApiKeyWoRepository W ApiKeyId) where
  pub record IsApiKeyStore : Type 0 where
    pub view : W → Bytes → Option (ApiKey ApiKeyId)
    pub get_ok :
        (id : Bytes) (w : W) {k : ApiKey ApiKeyId} {w' : W}
        → ro.get_by_id id w ≡ (ok k, w')
        → (view w id ≡ some k) × (k.key ≡ id)
    pub get_kept : (id j : Bytes) (w : W) → view (ro.get_by_id id w).1 j ≡ view w j
    pub exists_kept : (id j : Bytes) (w : W) → view (ro.exists id w).1 j ≡ view w j
    pub set_ok :
        (id : Bytes) (k : ApiKey ApiKeyId) (w : W) {w' : W}
        → k.key ≡ id
        → wo.set_by_id id k w ≡ (ok tt, w')
        → view w' id ≡ some k
