-- ===== src/Infrastructure/QuotaRepo/Store.antt =====
-- The repository of internal/infrastructure/repository/quota.go keeps the contract of a quota
-- repository.
use paste_thek4n_ru.Prelude.{
  ℕ, ◌≡◌, refl, ap, ◌∙◌, true, Option, none, some, [], ◌∷◌, arith, if◌then◌else◌,
}
use paste_thek4n_ru.Prelude.Int.{ℤ, pos, negsuc, ltb_ℤ, ◌≤ℤ◌}
use paste_thek4n_ru.Prelude.Bytes.{Bytes, codes, bytes_eq, bytes_eq_refl}
use paste_thek4n_ru.Errors.{sentinel, quota_not_found}
use paste_thek4n_ru.Exec.{ok, err}
use paste_thek4n_ru.Config.{QuotaConfig, second}
use paste_thek4n_ru.Domain.Quota
use paste_thek4n_ru.Domain.Quota.{Quota, new_quota}
use paste_thek4n_ru.Application.Repository.Contract.{IsQuotaStore}
use paste_thek4n_ru.Infrastructure.Redis.{RedisClient, text, number, integer}
use paste_thek4n_ru.Infrastructure.Redis.Script.{
  hset_call, expire_call, return_one, parse, Hashes, step, run, RunsScripts,
}
use paste_thek4n_ru.Std.Spaces.{split, trim_space}
use paste_thek4n_ru.Infrastructure.Redis.Answers.{IsAnswering}
use paste_thek4n_ru.Infrastructure.QuotaRepo.{
  RedisQuotaRecord, seconds, script, get_by_id, set_by_id, quota_repository,
}

abbrev pub no_quota : RedisQuotaRecord
no_quota = record { value = 0 }

abbrev pub of_value : ℕ → RedisQuotaRecord
of_value v = record { value = v }

-- The text of the script: it sets the field, gives the key a timeout, and returns.
script-parse : parse script ≡ some (hset_call ∷ expire_call ∷ return_one ∷ [])
unfolding parse split trim_space bytes_eq
script-parse = refl

-- A period of a second or more has a whole number of seconds above zero.
seconds-positive : (d : ℤ) → pos second ≤ℤ d → ltb_ℤ (pos 0) (seconds d) ≡ true
unfolding seconds
seconds-positive (pos n) h = ground arith
seconds-positive (negsuc n) h = absurd (omega arith)

-- What the script does to the hashes: the key holds the value, and the timeout leaves it there.
script-run :
    (k : Bytes) (v : ℕ) (t : ℤ) (hashes : Hashes (codes "value") of_value)
    → ltb_ℤ (pos 0) t ≡ true
    → (after : Hashes (codes "value") of_value) × (run
          (codes "value")
          of_value
          (hset_call ∷ expire_call ∷ return_one ∷ [])
          (k ∷ [])
          (text (codes "value") ∷ number v ∷ integer t ∷ [])
          hashes
        ≡ some after)
      × (after k ≡ some (of_value v))
unfolding run step bytes_eq
script-run k v t hashes h = (
  λ j. if bytes_eq k j then some (of_value v) else hashes j,
  rw h refl,
  rw (bytes_eq_refl k) refl,
)

module _ {W : Type 0} (client : RedisClient W RedisQuotaRecord) (config : QuotaConfig)
    (hash : W → Bytes → Option RedisQuotaRecord) where
  abbrev pub value_of : Option RedisQuotaRecord → Option ℕ
  value_of none = none
  value_of (some f) = some f.value

  module _ (answers : IsAnswering client no_quota hash)
      (scripts : RunsScripts (codes "value") of_value client hash)
      (lasting : pos second ≤ℤ config.quota_reset_period) (ip : Bytes) where
    abbrev pub at : W → Option ℕ
    at w = value_of (hash w ip)

    pub get_missing :
        (w : W) (x : Option RedisQuotaRecord)
        → hash w ip ≡ x
        → value_of x ≡ none
        → (v : W) × (get_by_id client config ip w ≡ (err (sentinel quota_not_found), v))
          × (at v ≡ none)
    unfolding get_by_id
    get_missing w none h e =
        let (v, h1, same) = answers.exists_eq ip w in
        let held : hash v ip ≡ none = ap (λ m. m ip) same ∙ h in (v, rw (h1, h) refl, rw held refl)
    get_missing w (some f) h e = absurd (cc e)

    pub get_found :
        (w : W) (x : Option RedisQuotaRecord) (n : ℕ)
        → hash w ip ≡ x
        → value_of x ≡ some n
        → (v : W) × (get_by_id client config ip w ≡ (ok (new_quota ip n), v)) × (at v ≡ some n)
    unfolding get_by_id
    get_found w none n h e = absurd (cc e)
    get_found w (some f) n h e =
        let (v1, h1, same1) = answers.exists_eq ip w in
        let (v2, h2, same2) = answers.hget_eq ip v1 in
        let held1 : hash v1 ip ≡ some f = ap (λ m. m ip) same1 ∙ h in
        let held2 : hash v2 ip ≡ some f = ap (λ m. m ip) same2 ∙ held1 in
        let value : f.value ≡ n = cc e in
        (
          v2,
          rw (h1, h, h2, held1) (ap (λ k. (ok (new_quota ip k), v2)) value),
          rw held2 (ap some value),
        )

    pub set_ok :
        (q : Quota) (w : W)
        → (v : W) × (set_by_id client config ip q w ≡ (ok tt, v)) × (at v ≡ some (Quota.value q))
    unfolding set_by_id
    set_ok q w =
        let t = seconds config.quota_reset_period in
        let (hashes, e, held) =
          script-run ip (Quota.value q) t (hash w)
            (seconds-positive config.quota_reset_period lasting) in
        let (v, h, same) = scripts.eval_eq script (ip ∷ []) _ w _ hashes script-parse e in
        (v, rw h refl, ap value_of (ap (λ m. m ip) same ∙ held))

    unfoldable pub redis_quotas : IsQuotaStore (quota_repository client config) ip
    redis_quotas = record {
      at = at;
      get_missing = λ w h. get_missing w (hash w ip) refl h;
      get_found = λ w n h. get_found w (hash w ip) n refl h;
      set_ok = set_ok;
    }

    -- The repository gives the quota that was last set, and says of an address with none that there
    -- is none: what it gives is the value of the hash of the address. Redis answers, runs scripts as
    -- documented, and no key expires meanwhile; the period of the quota is a second or more.
    pub quota_repository-IsQuotaStore :
        (store : IsQuotaStore (quota_repository client config) ip) × (store.at ≡ λ w.
        value_of (hash w ip))
    unfolding redis_quotas
    quota_repository-IsQuotaStore = (redis_quotas, refl)
