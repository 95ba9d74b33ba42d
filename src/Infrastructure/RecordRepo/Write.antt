-- ===== src/Infrastructure/RecordRepo/Write.antt =====
-- What `SetByKey` of internal/infrastructure/repository/record.go writes, over Redis as documented.
use paste_thek4n_ru.Prelude.{◌≡◌, sym, ap, subst, ◌∙◌, ◌⊎◌, inl, inr, false, none, some, arith}
use paste_thek4n_ru.Prelude.Int.{ℤ}
use paste_thek4n_ru.Prelude.Bytes.{Bytes, bytes_eq}
use paste_thek4n_ru.Errors.{GoError, wrapped}
use paste_thek4n_ru.Exec.{Result, ok, err, run-cases}
use paste_thek4n_ru.Exec.Kept.{Kept}
use paste_thek4n_ru.Domain.Expiration.{until}
use paste_thek4n_ru.Domain.Record.{Record}
use paste_thek4n_ru.Application.Repository.Contract.{content}
use paste_thek4n_ru.Infrastructure.Redis.Laws.{IsRedis}
use paste_thek4n_ru.Infrastructure.RecordRepo.{
  RedisKeyRecord, RedisRecordRepository, packed_body, set_expire, set_by_key,
}
use paste_thek4n_ru.Infrastructure.RecordRepo.Read.{
  empty_record, Storable, decode, decode_hash, view,
}

module _ {W : Type 0} (r : RedisRecordRepository W) where
  -- The hash that is written for a record, with its body packed and its time to live read.
  abbrev pub hash_of : Record → Bytes → ℤ → RedisKeyRecord
  hash_of rec' body left = record {
    body = body;
    ttl = left;
    clicks = rec'.clicks.value;
    countdown = rec'.disposable_counter.value;
    eternal = rec'.disposable_counter.eternal;
    url = rec'.url;
  }

  pub packed-decode :
      (rec' : Record) (left : ℤ) (w : W) {p : Bytes} {w' : W}
      → Storable r rec'.body
      → packed_body r rec'.body w ≡ (ok p, w')
      → decode r (hash_of rec' p left) ≡ some (content rec')
  unfolding packed_body decode
  packed-decode rec' left w s e = ground (arith, s.short, s.unmarked)

  packed_world : (b : Bytes) (w : W) → (packed_body r b w).1 ≡ w
  unfolding packed_body
  packed_world b w = ground arith

  module _ (redis : IsRedis r.client empty_record)
      (now_kept : (w : W) → Kept redis.hash w (r.clock.now w).1) where
    set_expire_kept :
        (k : Bytes) (rec' : Record) (w : W) → Kept redis.hash w (set_expire r k rec' w).1
    unfolding set_expire until
    set_expire_kept k rec' w j = ground (
      arith,
      now_kept w j,
      redis.expire_kept k (until r.clock rec'.expiration_date w).0
          (until r.clock rec'.expiration_date w).1 j,
    )

    until_kept :
        (rec' : Record) (w : W) → Kept redis.hash w (until r.clock rec'.expiration_date w).1
    unfolding until
    until_kept rec' w j = ground (arith, now_kept w j)

    module _ (k : Bytes) (rec' : Record) (w : W) where
      abbrev left : ℤ
      left = (until r.clock rec'.expiration_date w).0

      abbrev w0 : W
      w0 = (until r.clock rec'.expiration_date w).1

      unpacked_world : {x : Result Bytes} (v : W) → packed_body r rec'.body w0 ≡ (x, v) → v ≡ w0
      unpacked_world v h = sym (ap (λ (y : Result Bytes × W). y.1) h) ∙ packed_world rec'.body w0

      -- The other keys are kept.
      pub set_others :
          (j : Bytes)
          → bytes_eq k j ≡ false
          → (redis.hash (set_by_key r k rec' w).1 j ≡ redis.hash w j)
            ⊎ (redis.hash (set_by_key r k rec' w).1 j ≡ none)
      unfolding set_by_key
      set_others j other = elim (run-cases (packed_body r rec'.body w0)) [
        | inr (e, v, h) ↦ rw h (ground (arith, unpacked_world v h, until_kept rec' w j))
        | inl (p, v, h) ↦
            rw (h, unpacked_world v h)
              (let w1 = (r.client.hset k (hash_of rec' p left) w0).1 in
                ground (
                  arith,
                  until_kept rec' w j,
                  redis.hset_others k j (hash_of rec' p left) w0 other,
                  set_expire_kept k rec' w1 j,
                ))
      ]

      -- Once the hash is written, the key holds it or has expired.
      held_after :
          (f : RedisKeyRecord) (w1 : W)
          → (redis.hash w1 k ≡ some f) ⊎ (redis.hash w1 k ≡ none)
          → (redis.hash (set_expire r k rec' w1).1 k ≡ some f)
            ⊎ (redis.hash (set_expire r k rec' w1).1 k ≡ none)
      held_after f w1 h = ground (arith, set_expire_kept k rec' w1 k)

      view_of :
          {p : Bytes} {v w' : W}
          → Storable r rec'.body
          → packed_body r rec'.body w0 ≡ (ok p, v)
          → (redis.hash w' k ≡ some (hash_of rec' p left)) ⊎ (redis.hash w' k ≡ none)
          → (view r redis w' k ≡ some (content rec')) ⊎ (view r redis w' k ≡ none)
      view_of s h (inl found) = inl (ap (decode_hash r) found ∙ packed-decode rec' left w0 s h)
      view_of s h (inr gone) = inr (ap (decode_hash r) gone)

      -- The runs of `SetByKey`, by how far they come: `packed` to the end, or to the failure of the
      -- compression, of HSET or of EXPIRE.
      data Run : Result (Unit {0}) × W → Type 0 where
        unpacked : {x : Result (Unit {0}) × W} {e : GoError} → x ≡ (err e, w0) → Run x
        unwritten :
            {x : Result (Unit {0}) × W} (p : Bytes) (v w1 : W) {e e' : GoError}
            → packed_body r rec'.body w0 ≡ (ok p, v)
            → r.client.hset k (hash_of rec' p left) w0 ≡ (err e, w1)
            → x ≡ (err e', w1)
            → Run x
        written :
            {x : Result (Unit {0}) × W} (p : Bytes) (v w1 : W)
            → packed_body r rec'.body w0 ≡ (ok p, v)
            → r.client.hset k (hash_of rec' p left) w0 ≡ (ok tt, w1)
            → x ≡ set_expire r k rec' w1
            → Run x

      run : Run (set_by_key r k rec' w)
      unfolding set_by_key
      run = elim (run-cases (packed_body r rec'.body w0)) [
        | inr (e, v, h) ↦ unpacked {e = e} (rw (h, unpacked_world v h))
        | inl (p, v, h) ↦ elim (run-cases (r.client.hset k (hash_of rec' p left) w0)) [
          | inr (e, w1, h1) ↦
              unwritten p v w1 {e' = wrapped "failed to set key" e} h h1
                (rw (h, unpacked_world v h, h1))
          | inl (_, w1, h1) ↦ written p v w1 h h1 (rw (h, unpacked_world v h, h1))
        ]
      ]

      set_ok_of :
          {x : Result (Unit {0}) × W} {w' : W}
          → Run x
          → Storable r rec'.body
          → x ≡ (ok tt, w')
          → (view r redis w' k ≡ some (content rec')) ⊎ (view r redis w' k ≡ none)
      set_ok_of (unpacked h) s e = cc
      set_ok_of (unwritten p v w1 h h1 h2) s e = cc
      set_ok_of {w'} (written p v w1 h h1 h2) s e =
          let same : (set_expire r k rec' w1).1 ≡ w' =
            ap (λ (y : Result (Unit {0}) × W). y.1) (sym h2 ∙ e) in
          view_of s h (
            rw same at
              (held_after (hash_of rec' p left) w1 (redis.hset_ok k (hash_of rec' p left) w0 h1)))

      pub set_ok :
          {w' : W}
          → Storable r rec'.body
          → set_by_key r k rec' w ≡ (ok tt, w')
          → (view r redis w' k ≡ some (content rec')) ⊎ (view r redis w' k ≡ none)
      set_ok = set_ok_of run

      -- Where the hash is as it was before the write, so is the view, or the record has expired.
      view_before :
          {w' : W}
          → redis.hash w' k ≡ redis.hash w0 k
          → (view r redis w' k ≡ view r redis w k) ⊎ (view r redis w' k ≡ none)
      view_before same = elim (until_kept rec' w k) [
        | inl before ↦ inl (ap (decode_hash r) (same ∙ before))
        | inr gone ↦ inr (ap (decode_hash r) (same ∙ gone))
      ]

      abbrev Failed : W → Type 0
      Failed w' =
          (view r redis w' k ≡ some (content rec'))
          ⊎ (view r redis w' k ≡ view r redis w k)
          ⊎ (view r redis w' k ≡ none)

      Failed-written :
          (w' : W)
          → (view r redis w' k ≡ some (content rec')) ⊎ (view r redis w' k ≡ none)
          → Failed w'
      Failed-written w' (inl h) = inl h
      Failed-written w' (inr h) = inr (inr h)

      set_err_of :
          {x : Result (Unit {0}) × W} {e : GoError} {w' : W}
          → Run x
          → Storable r rec'.body
          → x ≡ (err e, w')
          → Failed w'
      set_err_of {w'} (unpacked h) s e =
          let same : w0 ≡ w' = ap (λ (y : Result (Unit {0}) × W). y.1) (sym h ∙ e) in
          inr (view_before (ap (λ (v : W). redis.hash v k) (sym same)))
      set_err_of {w'} (unwritten p v w1 h h1 h2) s e =
          let same : w1 ≡ w' = ap (λ (y : Result (Unit {0}) × W). y.1) (sym h2 ∙ e) in
          subst Failed same (elim (redis.hset_err k (hash_of rec' p left) w0 h1) [
            | inl new ↦ Failed-written _ (view_of s h (inl new))
            | inr (inl old) ↦ inr (view_before old)
            | inr (inr gone) ↦ inr (inr (ap (decode_hash r) gone))
          ])
      set_err_of {w'} (written p v w1 h h1 h2) s e =
          let same : (set_expire r k rec' w1).1 ≡ w' =
            ap (λ (y : Result (Unit {0}) × W). y.1) (sym h2 ∙ e) in
          subst Failed same (
            Failed-written _ (
              view_of s h (
                held_after (hash_of rec' p left) w1 (redis.hset_ok k (hash_of rec' p left) w0 h1))))

      pub set_err :
          {e : GoError} {w' : W}
          → Storable r rec'.body
          → set_by_key r k rec' w ≡ (err e, w')
          → (view r redis w' k ≡ some (content rec'))
            ⊎ (view r redis w' k ≡ view r redis w k)
            ⊎ (view r redis w' k ≡ none)
      set_err = set_err_of run
