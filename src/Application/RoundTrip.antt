-- ===== src/Application/RoundTrip.antt =====
-- What is cached is got back: `Serve` of internal/application/service/cache.go, then `GetBody` and
-- `GetClicks` of internal/application/service/get.go.
use paste_thek4n_ru.Prelude.{◌≡◌, ap, ◌∙◌, ◌⊎◌, inl, inr, false, none, arith}
use paste_thek4n_ru.Prelude.Bytes.{Bytes}
use paste_thek4n_ru.Exec.{ok, run-cases}
use paste_thek4n_ru.Domain.Params.{CacheRequestParams}
use paste_thek4n_ru.Domain.Record
use paste_thek4n_ru.Domain.Record.{Record, counter_exhausted}
use paste_thek4n_ru.Domain.Record.Reads.{get_body-ok}
use paste_thek4n_ru.Application.Repository.Contract.{Content, content, IsRecordStore}
use paste_thek4n_ru.Application.Get
use paste_thek4n_ru.Application.Get.{GetBodyAnswer}
use paste_thek4n_ru.Application.Cache.Serve.{CacheService, serve}
use paste_thek4n_ru.Application.Cache.Serve.Stored.{new_content, Apart}
use paste_thek4n_ru.Application.Cache.Serve.Writes.{serve-held}

module _ {W : Type 0} (s : CacheService W) (store : IsRecordStore s.clock s.record_repository) where
  -- An answer is read from a record that the store has given.
  get_body-record :
      (k : Bytes) (w : W) {a : GetBodyAnswer} {w' : W}
      → Get.get_body s.clock s.record_repository k w ≡ (ok a, w')
      → (r : Record) × (w1 : W) × (s.record_repository.get_by_key k w ≡ (ok r, w1))
        × (counter_exhausted r ≡ false)
        × (a ≡ record { body = r.body; is_url = r.url })
  unfolding Get.get_body Get.get
  get_body-record k w e = elim (run-cases (s.record_repository.get_by_key k w)) [
    | inr (e', w1, h) ↦ absurd (ground arith)
    | inl (r, w1, h) ↦ elim (run-cases (Record.get_body s.clock r w1)) [
      | inr (e', w2, h2) ↦ absurd (ground arith)
      | inl ((b, r'), w2, h2) ↦
          let (body, changed, left) = get_body-ok s.clock r w1 h2 in
          let url : r'.url ≡ r.url = ap (λ (x : Record). x.url) changed in
          (r, w1, h, left, ground arith)
    ]
  ]

  module _ (apart : Apart s store) where
    -- A key that `Serve` gives is answered later, where it is answered at all, with the body that
    -- was cached, and as a link exactly if it was cached as one: whatever was done between the two, if
    -- the record was left as it was or lost. The body is one that the store can give back. The store
    -- keeps its contract, and quotas, API keys and events live apart from the records.
    pub get_body-serve :
        (p : CacheRequestParams) (w : W) {k : Bytes} {w1 v : W} {a : GetBodyAnswer} {w2 : W}
        → store.Storable p.body
        → serve s p w ≡ (ok k, w1)
        → (store.view v k ≡ store.view w1 k) ⊎ (store.view v k ≡ none)
        → Get.get_body s.clock s.record_repository k v ≡ (ok a, w2)
        → a ≡ record { body = p.body; is_url = p.is_url }
    get_body-serve p w {k} {w1} {v} {a} storable served between got =
        let (r, v', read, left, answer) = get_body-record k v got in
        let stored = serve-held s store apart p w storable served in
        elim (store.get_ok k v read) [
          | inr gone ↦ absurd (cc (gone, left))
          | inl held ↦ elim between [
            | inr lost ↦ absurd (cc (held, lost))
            | inl same_view ↦ elim stored [
              | inr gone ↦ absurd (cc (held, gone, same_view))
              | inl new ↦
                  let same : content r ≡ new_content p = cc (held, new, same_view) in
                  answer ∙ ap (λ (c : Content). record { body = c.body; is_url = c.url }) same
            ]
          ]
        ]
