-- ===== src/Application/Cache/Serve/Writes.antt =====
-- A request that `Serve` of internal/application/service/cache.go serves has its record in the
-- store, and so has one that is refused for its quota.
use paste_thek4n_ru.Prelude.{
  ◌≡◌, ◌≢◌, refl, sym, ap, subst, ◌∙◌, ◌⊎◌, inl, inr, Bool, true, false, none, some, arith,
}
use paste_thek4n_ru.Prelude.Bytes.{Bytes, bytes_eq}
use paste_thek4n_ru.Errors.{GoError, sentinel, quota_exhausted}
use paste_thek4n_ru.Exec.{Result, ok, err, run-cases, >>=-eq-ok}
use paste_thek4n_ru.Exec.Kept.{Kept, Kept-trans, Kept-some, Kept-at}
use paste_thek4n_ru.Domain.Params.{CacheRequestParams}
use paste_thek4n_ru.Domain.Record.{Record}
use paste_thek4n_ru.Application.Repository.Contract.{Content, IsRecordStore}
use paste_thek4n_ru.Application.Cache.Serve.{
  CacheService, record_of, log_apikey_usage, identify, generated_key, get_record_key,
  serve_privileged, manage_quota, serve_unprivileged, serve_as, serve,
}
use paste_thek4n_ru.Application.Cache.Serve.Stored.{
  new_content, Apart, Wrote, record_of-content, record_of-dated, record_of-kept, generated_key-free,
  generated_key-kept, get_record_key-free, get_record_key-kept, identify-kept, manage_quota-kept,
  log_apikey_usage-kept,
}

module _ {W : Type 0} (s : CacheService W) (store : IsRecordStore s.clock s.record_repository)
    (apart : Apart s store) where
  open store use {view, Storable}

  abbrev new_at : CacheRequestParams → W → Record
  new_at p w = (record_of s p w).0

  abbrev at_new : CacheRequestParams → W → W
  at_new p w = (record_of s p w).1

  wrote :
      (p : CacheRequestParams) (w : W) {k : Bytes} {w2 w3 : W}
      → Kept view (at_new p w) w2
      → view w2 k ≡ none
      → s.record_repository.set_by_key k (new_at p w) w2 ≡ (ok tt, w3)
      → Wrote s store p w k w3
  wrote p w {w2} kept free set = record {
    new = new_at p w;
    same = record_of-content s store p w;
    asked = w;
    dated = record_of-dated s store p w;
    before = w2;
    kept = Kept-trans view (record_of-kept s store p w) kept;
    free = free;
    set = set;
  }

  -- The run of `serveUnprivileged` up to the quota, by its result.
  abbrev pub Outcome : CacheRequestParams → W → Result Bytes × W → Type 0
  Outcome p w (ok k, w') =
      (v : W) × Wrote s store p w k v × (manage_quota s p.source_ip v ≡ (ok tt, w'))
  Outcome p w (err e, w') =
      ((k : Bytes) × (v : W) × Wrote s store p w k v × (manage_quota s p.source_ip v ≡ (err e, w')))
      ⊎ (e ≢ sentinel quota_exhausted)

  generated_key-err :
      (p : CacheRequestParams) (w : W) {e : GoError} {w' : W}
      → generated_key s p w ≡ (err e, w')
      → e ≢ sentinel quota_exhausted
  unfolding generated_key
  generated_key-err p w h x = ground arith

  pub serve_unprivileged-Outcome :
      (p : CacheRequestParams) (w : W) → Outcome p w (serve_unprivileged s p w)
  unfolding serve_unprivileged
  serve_unprivileged-Outcome p w = elim (run-cases (generated_key s p (at_new p w))) [
    | inr (e, w2, h2) ↦ rw h2 (inr (generated_key-err p (at_new p w) h2))
    | inl (k, w2, h2) ↦ elim (run-cases (s.record_repository.set_by_key k (new_at p w) w2)) [
      | inr (e, w3, h3) ↦ rw (h2, h3) (inr (λ x. cc x))
      | inl (_, w3, h3) ↦
          let written =
            wrote p w (rw h2 at (generated_key-kept s store p (at_new p w)))
              (generated_key-free s store p (at_new p w) h2) h3 in
          elim (run-cases (manage_quota s p.source_ip w3)) [
            | inr (e, w4, h4) ↦ rw (h2, h3, h4) (inl (k, w3, written, h4))
            | inl (_, w4, h4) ↦ rw (h2, h3, h4) (w3, written, h4)
          ]
    ]
  ]

  serve_privileged-Wrote :
      (p : CacheRequestParams) (w : W) {k : Bytes} {w' : W}
      → serve_privileged s p w ≡ (ok k, w')
      → Wrote s store p w k w'
  unfolding serve_privileged
  serve_privileged-Wrote p w {k} {w'} e = elim (run-cases (get_record_key s p (at_new p w))) [
    | inr (e', w2, h2) ↦ absurd (ground arith)
    | inl (k2, w2, h2) ↦ elim (run-cases (s.record_repository.set_by_key k2 (new_at p w) w2)) [
      | inr (e', w3, h3) ↦ absurd (ground arith)
      | inl (_, w3, h3) ↦
          let written =
            wrote p w (rw h2 at (get_record_key-kept s store p (at_new p w)))
              (get_record_key-free s store p (at_new p w) h2) h3 in
          let key : k2 ≡ k = ground arith in
          let world : w3 ≡ w' = ground arith in
          subst (λ (x : W). Wrote s store p w k x) world
            (subst (λ (x : Bytes). Wrote s store p w x w3) key written)
    ]
  ]

  pub Wrote-later :
      {p : CacheRequestParams} {w0 w v : W} {k : Bytes}
      → Kept view w0 w
      → Wrote s store p w k v
      → Wrote s store p w0 k v
  Wrote-later kept x = record {
    new = x.new;
    same = x.same;
    asked = x.asked;
    dated = x.dated;
    before = x.before;
    kept = Kept-trans view kept x.kept;
    free = x.free;
    set = x.set;
  }

  serve_as-Wrote :
      (p : CacheRequestParams) (b : Bool) (id : Bytes) (w : W) {k : Bytes} {w' : W}
      → serve_as s p (b, id) w ≡ (ok k, w')
      → (v : W) × Wrote s store p w k v × Kept view v w'
  unfolding serve_as
  serve_as-Wrote p true id w {k} {w'} e =
      let logged = (log_apikey_usage s id p w).1 in
      let served : serve_privileged s p logged ≡ (ok k, w') = ground arith in
      (
        w',
        Wrote-later (log_apikey_usage-kept s store apart id p w)
            (serve_privileged-Wrote p logged served),
        λ j. inl refl,
      )
  serve_as-Wrote p false id w {k} {w'} e =
      let served : serve_unprivileged s p w ≡ (ok k, w') = ground arith in
      let (v, written, quota) = rw served at (serve_unprivileged-Outcome p w) in
      (v, written, rw quota at (manage_quota-kept s store apart p.source_ip v))

  serve-Wrote :
      (p : CacheRequestParams) (w : W) {k : Bytes} {w' : W}
      → serve s p w ≡ (ok k, w')
      → (v : W) × Wrote s store p w k v × Kept view v w'
  unfolding serve
  serve-Wrote p w e =
      let (who, w1, h, rest) = >>=-eq-ok (identify s p) (serve_as s p) e in
      let (v, written, kept) = serve_as-Wrote p who.0 who.1 w1 rest in
      (v, Wrote-later (rw h at (identify-kept s store apart p w)) written, kept)

  Wrote-held :
      (p : CacheRequestParams) (w : W) {k : Bytes} {v : W}
      → Storable p.body
      → Wrote s store p w k v
      → (view v k ≡ some (new_content p)) ⊎ (view v k ≡ none)
  Wrote-held p w {k} storable x =
      let body : x.new.body ≡ p.body = ap (λ (c : Content). c.body) x.same in
      elim (store.set_ok k x.new x.before (subst Storable (sym body) storable) x.set) [
        | inr gone ↦ inr gone
        | inl held ↦ inl (held ∙ ap some x.same)
      ]

  -- A request that is served has come to a world in which the key that is given was free, and has
  -- there written, with success, the record that was asked for: its body, no clicks, the counter
  -- that was asked for, eternal where that is 0, and the time to live counted from a time
  -- that the clock gives, eternal where that is 0. After the write the key holds this record, or has expired; what
  -- `Serve` does after it loses records at most. The body is one that the store can give back, the
  -- store keeps its contract, and quotas, API keys and events live apart from the records.
  pub serve_stores :
      (p : CacheRequestParams) (w : W) {k : Bytes} {w' : W}
      → Storable p.body
      → serve s p w ≡ (ok k, w')
      → (v : W) × Wrote s store p w k v
        × ((view v k ≡ some (new_content p)) ⊎ (view v k ≡ none))
        × Kept view v w'
  serve_stores p w storable e =
      let (v, x, kept) = serve-Wrote p w e in (v, x, Wrote-held p w storable x, kept)

  -- What the key holds when `Serve` returns.
  pub serve-held :
      (p : CacheRequestParams) (w : W) {k : Bytes} {w' : W}
      → Storable p.body
      → serve s p w ≡ (ok k, w')
      → (view w' k ≡ some (new_content p)) ⊎ (view w' k ≡ none)
  serve-held p w {k} storable e =
      let (v, x, held, kept) = serve_stores p w storable e in Kept-some view k kept held

  -- `Serve` changes no other record, though one may expire, and the key that it gives was free before
  -- it wrote: a record that is held is not overwritten. The store keeps its contract, and quotas, API
  -- keys and events live apart from the records.
  pub serve_others :
      (p : CacheRequestParams) (w : W) {k : Bytes} {w' : W}
      → serve s p w ≡ (ok k, w')
      → ((before : W) × Kept view w before × (view before k ≡ none))
        × ((j : Bytes) → bytes_eq k j ≡ false → (view w' j ≡ view w j) ⊎ (view w' j ≡ none))
  serve_others p w {k} {w'} e =
      let (v, x, kept) = serve-Wrote p w e in
      (
        (x.before, x.kept, x.free),
        λ j other.
            Kept-at view j (x.kept j)
              (Kept-at view j (rw x.set at (store.set_others k j x.new x.before other)) (kept j)),
      )
