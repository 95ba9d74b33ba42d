-- ===== src/Infrastructure/Pool/Agrees.antt =====
-- `GetBody` over the buffers of the pool, against the same with a body that is a value.
use paste_thek4n_ru.Prelude.{
  ℕ, ◌<◌, ◌≡◌, ◌≢◌, refl, ap, sym, ◌∙◌, inl, inr, Bool, true, false, arith, ltb, Bool-cases, length,
  take, take_all,
}
use paste_thek4n_ru.Prelude.Bytes.{Bytes}
use paste_thek4n_ru.Exec.{Result, ok, err, run-cases, rewrap}
use paste_thek4n_ru.Domain.Expiration.{new_expiration_date_from_ttl, until}
use paste_thek4n_ru.Domain.Record
use paste_thek4n_ru.Domain.Record.{Record, new_record}
use paste_thek4n_ru.Application.Get
use paste_thek4n_ru.Application.Get.{GetBodyAnswer}
use paste_thek4n_ru.Infrastructure.Gzip
use paste_thek4n_ru.Infrastructure.Gzip.{is_compressed}
use paste_thek4n_ru.Infrastructure.RecordRepo
use paste_thek4n_ru.Infrastructure.RecordRepo.{RedisRecordRepository, record_repository, set_expire}
use paste_thek4n_ru.Infrastructure.Pool.{
  Slice, Memory, Runtime, contents, compress, decompress, get, allocate,
}
use paste_thek4n_ru.Infrastructure.Pool.Writes.{store_here}
use paste_thek4n_ru.Infrastructure.Pool.Sound.{IsSound}
use paste_thek4n_ru.Infrastructure.Pool.Shared.{ReturnsOnTop, decompress-OnTop}
use paste_thek4n_ru.Infrastructure.RecordRepo.Write.{hash_of}
use paste_thek4n_ru.Errors.{GoError}
use paste_thek4n_ru.Infrastructure.Pool.Own.{seen, gzip_of, compress-eq, decompress-eq}
use paste_thek4n_ru.Infrastructure.Pool.Repository.{
  Lent, attach_memory, reply, lent_body, get_by_key, sent_body, set_by_key, get_body,
}

abbrev with_body : Bytes → Record → Record
with_body b r = record r { body = b }

module _ {W : Type 0} where
  -- A run as a caller sees it who reads the slices that it returns at once.
  abbrev pub body_seen : Result Slice × (W × Memory) → Result Bytes × W
  body_seen (ok s, (w, m)) = (ok (contents m s), w)
  body_seen (err e, (w, m)) = (err e, w)

  abbrev pub record_seen : Result Lent × (W × Memory) → Result Record × W
  record_seen (ok (r, s), (w, m)) = (ok (with_body (contents m s) r), w)
  record_seen (err e, (w, m)) = (err e, w)

  abbrev pub answer_seen : Result (Slice × Bool) × (W × Memory) → Result GetBodyAnswer × W
  answer_seen (ok (s, u), (w, m)) = (ok (record { body = contents m s; is_url = u }), w)
  answer_seen (err e, (w, m)) = (err e, w)

  abbrev pub done_seen : Result (Unit {0}) × (W × Memory) → Result (Unit {0}) × W
  done_seen (x, (w, m)) = (x, w)

  rewrap-seen :
      (w : W) (x : Result Slice × Memory) {y : Result Bytes}
      → seen x ≡ y
      → body_seen (rewrap "fail to decompress compressed body" (attach_memory w x))
        ≡ rewrap "fail to decompress compressed body" (y, w)
  rewrap-seen w (ok s, m) e = rw (← e) refl
  rewrap-seen w (err e', m) e = rw (← e) refl

  rewrap-sent :
      (w : W) (x : Result Slice × Memory) {y : Result Bytes}
      → seen x ≡ y
      → body_seen (rewrap "failed to compress" (attach_memory w x))
        ≡ rewrap "failed to compress" (y, w)
  rewrap-sent w (ok s, m) e = rw (← e) refl
  rewrap-sent w (err e', m) e = rw (← e) refl

  rewrap-left :
      (w : W) (x : Result Slice × Memory)
      → (rewrap "failed to compress" (attach_memory w x)).1 ≡ (w, x.1)
  rewrap-left w (ok s, m) = refl
  rewrap-left w (err e, m) = refl

module _ {W : Type 0} (go : Runtime) (r : RedisRecordRepository W)
    (gzip : r.gzip ≡ gzip_of go) where
  lent_body-eq :
      (pick : ℕ) (b : Bytes) (w : W) (m : Memory)
      → body_seen (lent_body go r pick b (w, m)) ≡ RecordRepo.plain_body r b w
  unfolding lent_body RecordRepo.plain_body reply allocate
  lent_body-eq pick b w m = elim (Bool-cases (is_compressed b)) [
    | inl packed ↦ rw packed (
        rewrap-seen w (decompress go pick b r.config.max_body_size m) (
          decompress-eq go pick b r.config.max_body_size m
          ∙ ap (λ g. Gzip.decompress g b r.config.max_body_size) (sym gzip)))
    | inr plain ↦ rw plain (
        ap (λ (c : Bytes). (let x : Result Bytes × W = (ok c, w) in x))
          (ap (take (length b)) (store_here m.arrays m.next b)
            ∙ take_all (length b) b (omega arith)))
  ]

  -- Unless a body that is packed lends its array to the buffer.
  sent_body-eq :
      (pick : ℕ) (s : Slice) (w : W) (m : Memory)
      → s.address < m.next
      → (ltb r.config.compress_threshold_bytes (length (contents m s)) ≡ true
          → (get pick m).0.address ≢ s.address)
      → (body_seen (sent_body go r pick s (w, m)) ≡ RecordRepo.packed_body r (contents m s) w)
        × (contents (sent_body go r pick s (w, m)).1.1 s ≡ contents m s)
        × ((sent_body go r pick s (w, m)).1.0 ≡ w)
  unfolding sent_body RecordRepo.packed_body
  sent_body-eq pick s w m old other =
      elim (Bool-cases (ltb r.config.compress_threshold_bytes (length (contents m s)))) [
        | inr short ↦ rw short (refl, refl, refl)
        | inl long ↦
            let (e, kept) = compress-eq go pick s m old (other long) in
            rw long (
              rewrap-sent w (compress go pick s m)
                  (e ∙ ap (λ g. Gzip.compress g (contents m s)) (sym gzip)),
              ap (λ (v : W × Memory). contents v.1 s) (rewrap-left w (compress go pick s m)) ∙ kept,
              ap (λ (v : W × Memory). v.0) (rewrap-left w (compress go pick s m)),
            )
      ]

  -- What follows the body in `GetByKey`.
  get_by_key-eq :
      (pick : ℕ) (key : Bytes) (w : W) (m : Memory)
      → record_seen (get_by_key go r pick key (w, m)) ≡ RecordRepo.get_by_key r key w
  unfolding get_by_key RecordRepo.get_by_key new_record new_expiration_date_from_ttl
  get_by_key-eq pick key w m = elim (run-cases (RecordRepo.exists r key w)) [
    | inr (e, w1, h1) ↦ rw h1 refl
    | inl (false, w1, h1) ↦ rw h1 refl
    | inl (true, w1, h1) ↦ elim (run-cases (r.client.hget_all_scan key w1)) [
      | inr (e, w2, h2) ↦ rw (h1, h2) refl
      | inl (hash, w2, h2) ↦
          let same = lent_body-eq pick hash.body w2 m in
          elim (run-cases (lent_body go r pick hash.body (w2, m))) [
            | inr (e, v, h3) ↦ (let plain = rw h3 at same in rw (h1, h2, h3, ← plain) refl)
            | inl (s, v, h3) ↦ (let plain = rw h3 at same in rw (h1, h2, h3, ← plain) refl)
          ]
    ]
  ]

  set_by_key-eq :
      (pick : ℕ) (key : Bytes) (rec' : Record) (s : Slice) (w : W) (m : Memory)
      → s.address < m.next
      → (ltb r.config.compress_threshold_bytes (length (contents m s)) ≡ true
          → (get pick m).0.address ≢ s.address)
      → (done_seen (set_by_key go r pick key rec' s (w, m))
          ≡ RecordRepo.set_by_key r key (with_body (contents m s) rec') w)
        × (contents (set_by_key go r pick key rec' s (w, m)).1.1 s ≡ contents m s)
  unfolding set_by_key RecordRepo.set_by_key set_expire
  set_by_key-eq pick key rec' s w m old other =
      let (left, w0) = until r.clock rec'.expiration_date w in
      let (same, kept, _) = sent_body-eq pick s w0 m old other in
      elim (run-cases (sent_body go r pick s (w0, m))) [
        | inr (e, v, h) ↦
            (let packed = rw h at same in
              let kept' = rw h at kept in rw (h, ← packed) (refl, kept'))
        | inl (sent, v, h) ↦
            let packed = rw h at same in
            let kept' = rw h at kept in
            let hash = hash_of r rec' (contents v.1 sent) left in
            elim (run-cases (r.client.hset key hash v.0)) [
              | inr (e, w1, h1) ↦ rw (h, ← packed, h1) (refl, kept')
              | inl (_, w1, h1) ↦ rw (h, ← packed, h1) (refl, kept')
            ]
      ]

  -- The slice of a record that was read has an array.
  abbrev InRange : Result Lent × (W × Memory) → Type 0
  InRange (ok (rec', s), (w, m)) = s.address < m.next
  InRange (err e, v) = Unit

  abbrev Reads : Result Slice × (W × Memory) → Type 0
  Reads (ok s, (w, m)) = s.address < m.next
  Reads (err e, v) = Unit

  rewrap-Reads :
      (w : W) (x : Result Slice × Memory)
      → ReturnsOnTop go x
      → Reads (rewrap "fail to decompress compressed body" (attach_memory w x))
  rewrap-Reads w (ok s, m) (rest, top, room, old) = old
  rewrap-Reads w (err e, m) h = tt

  lent_body-Reads :
      (pick : ℕ) (b : Bytes) (w : W) (m : Memory) → IsSound m → Reads (lent_body go r pick b (w, m))
  unfolding lent_body reply allocate
  lent_body-Reads pick b w m sound = elim (Bool-cases (is_compressed b)) [
    | inl packed ↦ rw packed (
        rewrap-Reads w (decompress go pick b r.config.max_body_size m)
          (decompress-OnTop go pick b r.config.max_body_size m sound))
    | inr plain ↦ rw plain (omega arith)
  ]

  get_by_key-InRange :
      (pick : ℕ) (key : Bytes) (w : W) (m : Memory)
      → IsSound m
      → InRange (get_by_key go r pick key (w, m))
  unfolding get_by_key
  get_by_key-InRange pick key w m sound = elim (run-cases (RecordRepo.exists r key w)) [
    | inr (e, w1, h1) ↦ rw h1 tt
    | inl (false, w1, h1) ↦ rw h1 tt
    | inl (true, w1, h1) ↦ elim (run-cases (r.client.hget_all_scan key w1)) [
      | inr (e, w2, h2) ↦ rw (h1, h2) tt
      | inl (hash, w2, h2) ↦
          let old = lent_body-Reads pick hash.body w2 m sound in
          elim (run-cases (lent_body go r pick hash.body (w2, m))) [
            | inr (e, v, h3) ↦ rw (h1, h2, h3) tt
            | inl (s, v, h3) ↦ (let old' = rw h3 at old in rw (h1, h2, h3) old')
          ]
    ]
  ]

  get_body-failed :
      (b : Bytes) (rec' : Record) (w : W) {e : GoError} {w' : W}
      → Record.get_body r.clock rec' w ≡ (err e, w')
      → Record.get_body r.clock (with_body b rec') w ≡ (err e, w')
  unfolding Record.get_body
  get_body-failed b rec' w h = ground arith

  get_body-read :
      (b : Bytes) (rec' : Record) (w : W) {c : Bytes} {r' : Record} {w' : W}
      → Record.get_body r.clock rec' w ≡ (ok (c, r'), w')
      → Record.get_body r.clock (with_body b rec') w ≡ (ok (b, with_body b r'), w')
  unfolding Record.get_body
  get_body-read b rec' w h = ground arith

  -- `GetBody` over the buffers of the pool answers what it answers where a body is a value, and does
  -- the same to the world, unless the body that it has read is over the threshold of compression and
  -- the buffer that packs it has the body's array: the slice of the answer is read after the record
  -- was written back. Every idle buffer has an array, and the writer and the reader of gzip are those
  -- of the repository.
  pub get_body-eq :
      (pick pick' : ℕ) (key : Bytes) (w : W) (m : Memory)
      → IsSound m
      → ((rec' : Record) (s : Slice) (v : W × Memory)
          → get_by_key go r pick key (w, m) ≡ (ok (rec', s), v)
          → ltb r.config.compress_threshold_bytes (length (contents v.1 s)) ≡ true
          → (get pick' v.1).0.address ≢ s.address)
      → answer_seen (get_body go r pick pick' key (w, m))
        ≡ Get.get_body r.clock (record_repository r) key w
  unfolding get_body Get.get_body Get.get
  get_body-eq pick pick' key w m sound unlent =
      let same = get_by_key-eq pick key w m in
      let range = get_by_key-InRange pick key w m sound in
      elim (run-cases (get_by_key go r pick key (w, m))) [
        | inr (e, v, h) ↦ (let read = rw h at same in rw (h, ← read) refl)
        | inl ((rec', s), v, h) ↦
            let read = rw h at same in
            let old : s.address < v.1.next = rw h at range in
            let b = contents v.1 s in
            elim (run-cases (Record.get_body r.clock rec' v.0)) [
              | inr (e, w2, h2) ↦ rw (h, ← read, h2, get_body-failed b rec' v.0 h2) refl
              | inl ((c, r'), w2, h2) ↦
                  let (wrote, kept) = set_by_key-eq pick' key r' s w2 v.1 old (unlent rec' s v h) in
                  elim (run-cases (set_by_key go r pick' key r' s (w2, v.1))) [
                    | inr (e, u, h3) ↦
                        (let sent = rw h3 at wrote in
                          rw (h, ← read, h2, get_body-read b rec' v.0 h2, h3, ← sent) refl)
                    | inl (_, u, h3) ↦
                        (let sent = rw h3 at wrote in
                          let kept' = rw h3 at kept in
                          rw (h, ← read, h2, get_body-read b rec' v.0 h2, h3, ← sent, kept') refl)
                  ]
            ]
      ]
