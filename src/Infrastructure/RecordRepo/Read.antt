-- ===== src/Infrastructure/RecordRepo/Read.antt =====
-- What `GetByKey` and `Exists` of internal/infrastructure/repository/record.go read, over Redis as
-- documented.
use paste_thek4n_ru.Prelude.{
  ℕ, ◌≤◌, ◌≡◌, sym, ap, subst, ◌∙◌, ◌⊎◌, inl, inr, true, false, Option, none, some, [], arith, ltb,
  length, if◌then◌else◌,
}
use paste_thek4n_ru.Prelude.Int.{pos}
use paste_thek4n_ru.Prelude.Bytes.{Bytes}
use paste_thek4n_ru.Errors.{GoError}
use paste_thek4n_ru.Exec.{Result, ok, err, run-cases}
use paste_thek4n_ru.Exec.Kept.{Kept}
use paste_thek4n_ru.Domain.Expiration.{new_expiration_date_from_ttl}
use paste_thek4n_ru.Domain.Record.{Record, new_record, counter_exhausted}
use paste_thek4n_ru.Domain.Disposable.{exhausted}
use paste_thek4n_ru.Application.Repository.Contract.{Content, content}
use paste_thek4n_ru.Infrastructure.Redis.Laws.{IsRedis}
use paste_thek4n_ru.Infrastructure.Gzip.{decompress, is_compressed}
use paste_thek4n_ru.Infrastructure.RecordRepo.{
  RedisKeyRecord, RedisRecordRepository, exists, get_by_key,
}

abbrev pub empty_record : RedisKeyRecord
empty_record = record {
  body = [];
  ttl = pos 0;
  clicks = 0;
  countdown = 0;
  eternal = false;
  url = false;
}

module _ {W : Type 0} (r : RedisRecordRepository W) where
  abbrev pub unpacked : RedisKeyRecord → Result Bytes → Option Content
  unpacked h (ok b) = some (record {
    body = b;
    clicks = h.clicks;
    countdown = h.countdown;
    eternal = h.eternal;
    url = h.url;
  })
  unpacked h (err e) = none

  -- The content that a hash stands for, if its body can be read.
  unfoldable pub decode : RedisKeyRecord → Option Content
  decode h =
      unpacked h (
        if is_compressed h.body then decompress r.gzip h.body r.config.max_body_size else ok h.body)

  abbrev pub decode_hash : Option RedisKeyRecord → Option Content
  decode_hash none = none
  decode_hash (some h) = decode h

  -- The bodies that come back as they were: those that are not over the threshold of compression
  -- and do not begin like a gzip stream. No buffer of the pool is used for them, neither in
  -- `SetByKey` nor in `GetByKey`; a longer body is read into a buffer that the pool lends again.
  pub record Storable (b : Bytes) : Type 0 where
    pub short : length b ≤ r.config.compress_threshold_bytes
    pub unmarked : is_compressed b ≡ false

  module _ (redis : IsRedis r.client empty_record) where
    -- The records that the database holds.
    abbrev pub view : W → Bytes → Option Content
    view w k = decode_hash (redis.hash w k)

    pub Kept-view : {w w' : W} → Kept redis.hash w w' → Kept view w w'
    Kept-view h k = elim (h k) [
      | inl same ↦ inl (ap decode_hash same)
      | inr gone ↦ inr (ap decode_hash gone)
    ]

    pub exists_kept : (k : Bytes) (w : W) → Kept redis.hash w (exists r k w).1
    unfolding exists
    exists_kept k w j = ground (arith, redis.exists_kept k w j)

    pub get_kept :
        ((w : W) → Kept redis.hash w (r.clock.now w).1)
        → (k : Bytes) (w : W) → Kept redis.hash w (get_by_key r k w).1
    unfolding get_by_key new_expiration_date_from_ttl
    get_kept now_kept k w j =
        let w1 = (r.client.exists k w).1 in
        let w2 = (r.client.hget_all_scan k w1).1 in
        ground (arith, redis.exists_kept k w j, redis.hget_kept k w1 j, now_kept w2 j)

    -- What `GetByKey` makes of the hash that it found.
    get_by_key-decode :
        (k : Bytes) (w : W) {rec' : Record} {w' : W} {n : ℕ} {w1 w2 : W} {h : RedisKeyRecord}
        → get_by_key r k w ≡ (ok rec', w')
        → r.client.exists k w ≡ (ok n, w1)
        → r.client.hget_all_scan k w1 ≡ (ok h, w2)
        → (decode h ≡ some (content rec'))
          × (rec'.disposable_counter.value ≡ h.countdown)
          × (rec'.disposable_counter.eternal ≡ h.eternal)
    unfolding get_by_key new_expiration_date_from_ttl new_record decode
    get_by_key-decode k w e h1 h2 = ground arith

    -- An empty hash reads as an exhausted record.
    read_hash :
        (k : Bytes) (w w1 : W) (h : RedisKeyRecord) (rec' : Record)
        → (redis.hash w1 k ≡ redis.hash w k) ⊎ (redis.hash w1 k ≡ none)
        → (redis.hash w1 k ≡ some h) ⊎ (h ≡ empty_record)
        → decode h ≡ some (content rec')
        → rec'.disposable_counter.value ≡ h.countdown
        → rec'.disposable_counter.eternal ≡ h.eternal
        → (view w k ≡ some (content rec')) ⊎ (counter_exhausted rec' ≡ true)
    unfolding exhausted
    read_hash k w w1 h rec' (inl same) (inl found) d v e =
        inl (ap decode_hash (sym same ∙ found) ∙ d)
    read_hash k w w1 h rec' (inr gone) (inl found) d v e = cc
    read_hash k w w1 h rec' kept (inr empty) d v e =
        let value = ap (λ (x : RedisKeyRecord). x.countdown) empty in
        let eternal = ap (λ (x : RedisKeyRecord). x.eternal) empty in
        inr (rw (e ∙ eternal, v ∙ value))

    get_by_key-failed :
        (k : Bytes) (w : W) {rec' : Record} {w' w1 : W} {e' : GoError}
        → get_by_key r k w ≡ (ok rec', w')
        → r.client.exists k w ≡ (err e', w1)
        → ⊥
    unfolding get_by_key
    get_by_key-failed k w e h1 = ground arith

    get_by_key-unread :
        (k : Bytes) (w : W) {rec' : Record} {w' : W} {n : ℕ} {w1 w2 : W} {e' : GoError}
        → get_by_key r k w ≡ (ok rec', w')
        → r.client.exists k w ≡ (ok n, w1)
        → r.client.hget_all_scan k w1 ≡ (err e', w2)
        → ⊥
    unfolding get_by_key
    get_by_key-unread k w e h1 h2 = ground arith

    pub get_ok :
        (k : Bytes) (w : W) {rec' : Record} {w' : W}
        → get_by_key r k w ≡ (ok rec', w')
        → (view w k ≡ some (content rec')) ⊎ (counter_exhausted rec' ≡ true)
    get_ok k w {rec'} e = elim (run-cases (r.client.exists k w)) [
      | inr (e', w1, h1) ↦ absurd (get_by_key-failed k w e h1)
      | inl (n, w1, h1) ↦ elim (run-cases (r.client.hget_all_scan k w1)) [
        | inr (e', w2, h2) ↦ absurd (get_by_key-unread k w e h1 h2)
        | inl (h, w2, h2) ↦
            let (d, v, c) = get_by_key-decode k w e h1 h2 in
            read_hash k w w1 h rec' (rw h1 at (redis.exists_kept k w) k) (redis.hget_ok k w1 h2) d v
              c
      ]
    ]

    pub exists_ok : (k : Bytes) (w : W) {w' : W} → exists r k w ≡ (ok false, w') → view w' k ≡ none
    unfolding exists
    exists_ok k w {w'} e = elim (run-cases (r.client.exists k w)) [
      | inr (e', w1, h1) ↦ absurd (ground arith)
      | inl (n, w1, h1) ↦
          let free : ltb 0 n ≡ false = ground arith in
          let same : w1 ≡ w' = ground arith in
          subst (λ (x : W). view x k ≡ none) same (ap decode_hash (redis.exists_ok k w h1 free))
    ]
