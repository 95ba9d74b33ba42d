-- ===== src/Infrastructure/RecordRepo/Persistent.antt =====
-- Records with no time to live in the repository of internal/infrastructure/repository/record.go,
-- over a Redis that answers, and the requests for them of internal/application/service/get.go.
use paste_thek4n_ru.Prelude.{
  ℕ, ◌≡◌, refl, sym, ap, subst, ◌∙◌, inl, inr, true, false, Bool-cases, Option, some, arith, ltb,
  length,
}
use paste_thek4n_ru.Prelude.Int.{pos, is_zero, ◌+ℤ◌}
use paste_thek4n_ru.Prelude.Bytes.{Bytes}
use paste_thek4n_ru.Exec.{ok}
use paste_thek4n_ru.Domain.Expiration
use paste_thek4n_ru.Domain.Expiration.{ExpirationDate, new_expiration_date_from_ttl, until}
use paste_thek4n_ru.Domain.Record
use paste_thek4n_ru.Domain.Record.{Record, new_record}
use paste_thek4n_ru.Application.Repository.Contract.{Content, content}
use paste_thek4n_ru.Application.Get.Disposable.{count_answers}
use paste_thek4n_ru.Application.Get.Answering.{Answers, answerable, count_answers-eq_answerable}
use paste_thek4n_ru.Infrastructure.Redis.Answers.{IsAnswering}
use paste_thek4n_ru.Infrastructure.Gzip.{compress}
use paste_thek4n_ru.Infrastructure.RecordRepo.{
  RedisKeyRecord, RedisRecordRepository, exists, plain_body, packed_body, get_by_key, set_by_key,
  set_expire, record_repository,
}
use paste_thek4n_ru.Infrastructure.RecordRepo.Read.{empty_record, Storable, decode}
use paste_thek4n_ru.Infrastructure.RecordRepo.Write.{hash_of, packed-decode}

module _ {W : Type 0} (r : RedisRecordRepository W) (hash : W → Bytes → Option RedisKeyRecord)
    (key : Bytes) where
  -- Writes are answered, bodies are compressed, and reading the clock changes no record.
  pub record IsWriting : Type 0 where
    pub hset_eq :
        (f : RedisKeyRecord) (w : W)
        → (v : W) × (r.client.hset key f w ≡ (ok tt, v)) × (hash v key ≡ some f)
    pub compressed : (body : Bytes) → (p : Bytes) × (compress r.gzip body ≡ ok p)
    pub now_kept : (w : W) → hash (r.clock.now w).1 ≡ hash w

  -- The hash of a record with no time to live, and the content that it stands for.
  pub record Persists (c : Content) (w : W) : Type 0 where
    pub stored : RedisKeyRecord
    pub held : hash w key ≡ some stored
    pub no_ttl : stored.ttl ≡ pos 0
    pub decoded : decode r stored ≡ some c
    pub storable : Storable r c.body

  Persists-same : (c : Content) (w w' : W) → hash w' ≡ hash w → Persists c w → Persists c w'
  Persists-same c w w' same p = record {
    stored = p.stored;
    held = ap (λ m. m key) same ∙ p.held;
    no_ttl = p.no_ttl;
    decoded = p.decoded;
    storable = p.storable;
  }

  decode-plain :
      (h : RedisKeyRecord) (c : Content) (v : W)
      → decode r h ≡ some c
      → (plain_body r h.body v ≡ (ok c.body, v))
        × (record {
          body = c.body;
          clicks = h.clicks;
          countdown = h.countdown;
          eternal = h.eternal;
          url = h.url;
        }
            ≡ c)
  unfolding plain_body decode
  decode-plain h c v e = ground arith

  module _ (answers : IsAnswering r.client empty_record hash) (writes : IsWriting) where
    -- The record that is made of a hash, when the clock stands as in `v`.
    unfoldable pub read_record : RedisKeyRecord → Bytes → W → Record
    read_record h body v =
        new_record key (record { date = (r.clock.now v).0 +ℤ h.ttl; eternal = is_zero h.ttl })
          h.countdown h.eternal h.clicks body h.url

    pub read_held :
        (h : RedisKeyRecord) (c : Content) (w : W)
        → hash w key ≡ some h
        → decode r h ≡ some c
        → (v : W) × (get_by_key r key w ≡ (ok (read_record h c.body v), (r.clock.now v).1))
          × (content (read_record h c.body v) ≡ c)
          × (hash (r.clock.now v).1 ≡ hash w)
    unfolding get_by_key exists new_expiration_date_from_ttl read_record new_record
    read_held h c w held decoded =
        let (v1, h1, same1) = answers.exists_eq key w in
        let (v2, h2, same2) = answers.hget_eq key v1 in
        let held1 : hash v1 key ≡ some h = ap (λ m. m key) same1 ∙ held in
        let (plain, parts) = decode-plain h c v2 decoded in
        (v2, rw (h1, held, h2, held1, plain) refl, parts, writes.now_kept v2 ∙ same2 ∙ same1)

    pub packed_eq : (b : Bytes) (w : W) → (p : Bytes) × (packed_body r b w ≡ (ok p, w))
    unfolding packed_body
    packed_eq b w = elim (Bool-cases (ltb r.config.compress_threshold_bytes (length b))) [
      | inl long ↦ (let (p, e) = writes.compressed b in (p, rw (long, e) refl))
      | inr short ↦ (b, rw short refl)
    ]

    write_persistent :
        (rec' : Record) (w : W)
        → rec'.expiration_date.eternal ≡ true
        → Storable r rec'.body
        → (w' : W) × (set_by_key r key rec' w ≡ (ok tt, w')) × Persists (content rec') w'
    unfolding set_by_key set_expire until
    write_persistent rec' w eternal storable =
        let (packed, e) = packed_eq rec'.body w in
        let f = hash_of r rec' packed (pos 0) in
        let (w', set, held) = writes.hset_eq f w in
        (
          w',
          rw (eternal, e, set) refl,
          record {
            stored = f;
            held = held;
            no_ttl = refl;
            decoded = packed-decode r rec' (pos 0) w storable e;
            storable = storable;
          },
        )

    read_record-eternal :
        (h : RedisKeyRecord) (body : Bytes) (v : W)
        → h.ttl ≡ pos 0
        → (read_record h body v).expiration_date.eternal ≡ true
    unfolding read_record new_record
    read_record-eternal h body v e = ap is_zero e

    expired-eternal :
        (rec' : Record) (w : W)
        → rec'.expiration_date.eternal ≡ true
        → Record.expired r.clock rec' w ≡ (false, w)
    unfolding Expiration.expired
    expired-eternal rec' w e = rw e refl

    -- The repository answers for a record with no time to live.
    abbrev repository_answers : Answers r.clock (record_repository r) key
    repository_answers = record {
      Holding = Persists;
      get_holding = λ c w p.
          (let (v, read, same, kept) = read_held p.stored c w p.held p.decoded in
            let rec' = read_record p.stored c.body v in
            let w1 = (r.clock.now v).1 in
            let eternal = read_record-eternal p.stored c.body v p.no_ttl in
            (
              rec',
              w1,
              w1,
              read,
              same,
              expired-eternal rec' w1 eternal,
              Persists-same c w w1 kept p,
              (λ r' date body.
                  write_persistent r' w1 (ap (λ (d : ExpirationDate). d.eternal) date ∙ eternal) (
                    subst (Storable r) (sym (body ∙ ap (λ (x : Content). x.body) same))
                      p.storable)),
            ));
    }

    -- Of k requests for a record with no time to live, made one after the other, the service over
    -- Redis answers as many as there are reads left, all of them if the countdown is eternal. Redis
    -- answers and holds the hash of the record, whose body is not over the threshold of compression
    -- and does not begin like a gzip stream; gzip compresses every body, and reading the clock
    -- changes no hash.
    pub count_answers-Persists :
        (k : ℕ) (c : Content) (w : W)
        → Persists c w
        → count_answers r.clock (record_repository r) k key w ≡ answerable k c
    count_answers-Persists k c w p =
        count_answers-eq_answerable r.clock (record_repository r) key repository_answers k c w p
