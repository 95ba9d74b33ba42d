-- ===== src/Web/Cache/Counted.antt =====
-- The counters of the records that a request to the `Cache` handler makes, over any reads:
-- internal/presentation/webhandlers/cache.go, internal/application/service/cache.go and
-- internal/domain/aggregate/record.go.
use paste_thek4n_ru.Prelude.{Bool, ◌+◌, ◌^◌, ◌<◌, ◌≡◌, refl, inl, inr, false, arith, ◌==◌}
use paste_thek4n_ru.Prelude.Int.{ℤ, pos, negsuc, pos_part}
use paste_thek4n_ru.Prelude.Bytes.{Bytes}
use paste_thek4n_ru.Exec.{Result, ok, Result-cases, run-cases}
use paste_thek4n_ru.Config.{CacheValidationConfig}
use paste_thek4n_ru.Domain.Params.{CacheRequestParams}
use paste_thek4n_ru.Domain.Expiration.{new_expiration_date_from_ttl}
use paste_thek4n_ru.Domain.Disposable
use paste_thek4n_ru.Domain.Clicks.{increase}
use paste_thek4n_ru.Domain.Record.{Record, new_record, get_body}
use paste_thek4n_ru.Domain.Record.Reads.{get_body-ok, sub-value}
use paste_thek4n_ru.Application.Cache.Serve.{CacheService, record_of}
use paste_thek4n_ru.Web.Params.{parse_and_validate_request_params}
use paste_thek4n_ru.Web.Answers.{ResponseWriter}
use paste_thek4n_ru.Web.Request.{Request, get_client_ip}
use paste_thek4n_ru.Web.Cache.{is_no_uint8, params_of, read_request_body, read_params}

module _ {W : Type 0} (cfg : CacheValidationConfig) (parse_duration : Bytes → Result ℤ)
    (url_ok : Bytes → Bool) (service : CacheService W) (response : ResponseWriter W) where
  -- The record that a request has made, after any number of reads that gave its body. Each step
  -- has its own world, as the store and the clock go on between them.
  pub data Made (p : CacheRequestParams) : Record → Type 0 where
    new :
        (r : Request W) (w w1 v : W)
        → read_params cfg parse_duration url_ok service response r w ≡ (ok p, w1)
        → Made p (record_of service p v).0
    read :
        (r r' : Record) (b : Bytes) (w w' : W)
        → Made p r
        → get_body service.clock r w ≡ (ok (b, r'), w')
        → Made p r'

  -- The counters fit their types, and the reads that are left and those that were counted are
  -- together as many as the request has asked for, if it has asked for a number.
  pub record IsCounted (p : CacheRequestParams) (r : Record) : Type 0 where
    pub asked : p.disposable < 256
    pub eternal : r.disposable_counter.eternal ≡ (p.disposable == 0)
    pub countdown : r.disposable_counter.value < 256
    pub clicks : r.clicks.value < 2 ^ 32
    pub total :
        r.disposable_counter.eternal ≡ false
        → r.disposable_counter.value + r.clicks.value ≡ p.disposable

  pos_part-uint8 : (n : ℤ) → is_no_uint8 n ≡ false → pos_part n < 256
  pos_part-uint8 (pos n) h = ground arith
  pos_part-uint8 (negsuc n) h = ground arith

  read_params-disposable :
      (r : Request W) (w : W) {p : CacheRequestParams} {w1 : W}
      → read_params cfg parse_duration url_ok service response r w ≡ (ok p, w1)
      → p.disposable < 256
  unfolding read_params params_of
  read_params-disposable r w {p} {w1} e =
      elim (Result-cases (parse_and_validate_request_params cfg parse_duration r.query)) [
        | inr (e', hq) ↦ absurd (ground arith)
        | inl (q, hq) ↦ elim (run-cases (read_request_body r w)) [
          | inr (e', v, hb) ↦ absurd (ground arith)
          | inl (body, v, hb) ↦
              let same : params_of (get_client_ip r) q body ≡ p = ground arith in
              let small : is_no_uint8 q.disposable ≡ false = ground arith in
              rw (← same) (pos_part-uint8 q.disposable small)
        ]
      ]

  record_of-IsCounted :
      (p : CacheRequestParams) (v : W) → p.disposable < 256 → IsCounted p (record_of service p v).0
  unfolding record_of new_expiration_date_from_ttl new_record
  record_of-IsCounted p v h = record {
    asked = h;
    eternal = refl;
    countdown = h;
    clicks = omega arith;
    total = λ e. omega arith;
  }

  read-total :
      (p : CacheRequestParams) (r : Record)
      → Disposable.exhausted r.disposable_counter ≡ false
      → IsCounted p r
      → (Disposable.sub r.disposable_counter).eternal ≡ false
      → (Disposable.sub r.disposable_counter).value + (increase r.clicks).value ≡ p.disposable
  unfolding Disposable.sub increase
  read-total p r left c e =
      let finite : r.disposable_counter.eternal ≡ false = ground arith in
      omega (
        arith,
        (sub-value service.clock r.disposable_counter left finite).0,
        c.total finite,
        c.asked,
      )

  read-IsCounted :
      (p : CacheRequestParams) (r : Record)
      → Disposable.exhausted r.disposable_counter ≡ false
      → IsCounted p r
      → IsCounted p (record r {
        disposable_counter = Disposable.sub r.disposable_counter;
        clicks = increase r.clicks;
      })
  unfolding Disposable.sub Disposable.exhausted increase
  read-IsCounted p r left c = record {
    asked = c.asked;
    eternal = ground (arith, c.eternal);
    countdown = ground (arith, c.countdown);
    clicks = omega arith;
    total = λ e. read-total p r left c e;
  }

  -- Of a record that a request has made, and that was read any number of times, the counters fit
  -- the types uint8 and uint32; and if the request has asked for a number of reads, the reads that
  -- are left and the clicks are together this number.
  pub Made-IsCounted : (p : CacheRequestParams) (r : Record) → Made p r → IsCounted p r
  Made-IsCounted p _ (new r0 w w1 v e) = record_of-IsCounted p v (read_params-disposable r0 w e)
  Made-IsCounted p _ (read r r' b w w' made e) =
      let (body, changed, left) = get_body-ok service.clock r w e in
      rw changed (read-IsCounted p r left (Made-IsCounted p r made))
