-- ===== src/Examples/World.antt =====
-- A world in memory, a Redis and a gzip over it, and the repository of records on them.
use paste_thek4n_ru.Prelude.{
  ℕ, ◌≡◌, refl, sym, ap, ◌∙◌, ◌⊎◌, inl, inr, false, Option, none, some, [], ◌∷◌, if◌then◌else◌, ltb,
}
use paste_thek4n_ru.Prelude.Int.{pos}
use paste_thek4n_ru.Prelude.Bytes.{Bytes, bytes_eq, bytes_eq_refl}
use paste_thek4n_ru.Exec.{Result, ok}
use paste_thek4n_ru.Config.{default_caching_config}
use paste_thek4n_ru.Domain.Expiration.{Clock}
use paste_thek4n_ru.Domain.Record.{Record}
use paste_thek4n_ru.Infrastructure.Redis.{RedisClient}
use paste_thek4n_ru.Infrastructure.Redis.Answers.{number_of, scanned}
use paste_thek4n_ru.Infrastructure.QuotaRepo.{RedisQuotaRecord}
use paste_thek4n_ru.Infrastructure.ApiKeyRepo.{RedisApiKeyRecord}
use paste_thek4n_ru.Infrastructure.Redis.Laws.{IsRedis}
use paste_thek4n_ru.Infrastructure.Gzip.{Gzip}
use paste_thek4n_ru.Infrastructure.RecordRepo.{RedisKeyRecord, RedisRecordRepository}
use paste_thek4n_ru.Infrastructure.RecordRepo.Read.{empty_record}
use paste_thek4n_ru.Infrastructure.RecordRepo.Store.{EnvironmentKept}

pub record World : Type 0 where
  pub hashes : Bytes → Option RedisKeyRecord
  pub records : Bytes → Option Record
  pub quotas : Bytes → Option ℕ
  pub quota_hashes : Bytes → Option RedisQuotaRecord
  pub apikeys : Bytes → Option RedisApiKeyRecord

abbrev pub empty_world : World
empty_world = record {
  hashes = λ _. none;
  records = λ _. none;
  quotas = λ _. none;
  quota_hashes = λ _. none;
  apikeys = λ _. none;
}

abbrev pub put : {A : Type 0} → Bytes → Option A → (Bytes → Option A) → Bytes → Option A
put k a m j = if bytes_eq k j then a else m j

-- Where a database stands in the world.
pub record Place (F : Type 0) : Type 0 where
  pub get : World → Bytes → Option F
  pub set : (Bytes → Option F) → World → World

-- A client of the database at a place; scripts do nothing.
abbrev pub client_at : {F : Type 0} → Place F → F → RedisClient World F
client_at p empty = record {
  exists = λ k w. (ok (number_of (p.get w k)), w);
  hget_all_scan = λ k w. (ok (scanned empty (p.get w k)), w);
  hset = λ k f w. (ok tt, p.set (put k (some f) (p.get w)) w);
  expire = λ k d w. (ok tt, w);
  del = λ k w. (ok tt, p.set (put k none (p.get w)) w);
  scan = λ cursor match' count w. (ok ([], 0), w);
  eval = λ script keys args w. (ok tt, w);
}

abbrev records_place : Place RedisKeyRecord
records_place = record { get = λ w. w.hashes; set = λ m w. record w { hashes = m } }

abbrev pub client : RedisClient World RedisKeyRecord
client = client_at records_place empty_record

pub put-same : {A : Type 0} (k : Bytes) (a : Option A) (m : Bytes → Option A) → put k a m k ≡ a
put-same k a m = rw (bytes_eq_refl k)

pub put-other :
    {A : Type 0} (k j : Bytes) (a : Option A) (m : Bytes → Option A)
    → bytes_eq k j ≡ false
    → put k a m j ≡ m j
put-other k j a m h = rw h

pub number_of-none : {A : Type 0} (x : Option A) → ltb 0 (number_of x) ≡ false → x ≡ none
number_of-none none h = refl
number_of-none (some a) h = cc

pub scanned-cases :
    (x : Option RedisKeyRecord)
    → (x ≡ some (scanned empty_record x)) ⊎ (scanned empty_record x ≡ empty_record)
scanned-cases none = inr refl
scanned-cases (some f) = inl refl

pub same_world :
    {A : Type 0} {r r' : Result A} {w w' : World}
    → ◌≡◌ {A = Result A × World} (r, w) (r', w')
    → w' ≡ w
same_world e = sym (ap (λ x. x.1) e)

pub same_value :
    {A : Type 0} {a b : A} {w w' : World} → ◌≡◌ {A = Result A × World} (ok a, w) (ok b, w') → a ≡ b
same_value e = cc e

abbrev at : Bytes → World → Option RedisKeyRecord
at k w = w.hashes k

unfoldable pub client-IsRedis : IsRedis client empty_record
client-IsRedis = record {
  hash = λ (w : World). w.hashes;
  exists_kept = λ k w j. inl refl;
  exists_ok = λ k w {n} {w'} e h.
      ap (at k) (same_world e) ∙ number_of-none (w.hashes k) (ap (ltb 0) (same_value e) ∙ h);
  hget_kept = λ k w j. inl refl;
  hget_ok = λ k w {f} {w'} e. elim (scanned-cases (w.hashes k)) [
    | inl found ↦ inl (found ∙ ap some (same_value e))
    | inr gone ↦ inr (sym (same_value e) ∙ gone)
  ];
  hset_ok = λ k f w {w'} e. inl (ap (at k) (same_world e) ∙ put-same k (some f) w.hashes);
  hset_err = λ k f w h. absurd (cc h);
  hset_others = λ k j f w h. inl (put-other k j (some f) w.hashes h);
  expire_kept = λ k d w j. inl refl;
  del_ok = λ k w {w'} e. ap (at k) (same_world e) ∙ put-same k none w.hashes;
  del_others = λ k j w h. inl (put-other k j none w.hashes h);
}

abbrev gzip_of : Bytes → Bytes
gzip_of body = 0x1f ∷ 0x8b ∷ body

abbrev unzip : Bytes → Bytes
unzip (_ ∷ _ ∷ body) = body
unzip _ = []

abbrev pub gzip : Gzip
gzip = record {
  new_writer_level = ok tt;
  write = λ body. ok tt;
  close = λ body. ok (gzip_of body);
  new_reader = λ p. ok (record { content = unzip p; failure = none; close_failure = none });
}

abbrev pub clock : Clock World
clock = record { now = λ w. (pos 1000, w) }

abbrev pub redis_repository : RedisRecordRepository World
redis_repository = record {
  client = client;
  config = default_caching_config;
  clock = clock;
  gzip = gzip;
  rand_int = λ n w. (ok 0, w);
  ctx_done = λ w. (false, w);
}

pub environment_kept : EnvironmentKept redis_repository client-IsRedis
environment_kept = record {
  now = λ w j. inl refl;
  rand_int = λ n w j. inl refl;
  ctx_done = λ w j. inl refl;
}
