-- ===== src/Application/ApiKeys/Revoked.antt =====
-- What the invalidation of an API key does: internal/application/service/apikeys.go, then
-- apikeyValidator.go and cache.go beside it.
use paste_thek4n_ru.Prelude.{
  ◌≡◌, ◌≢◌, refl, sym, ◌∙◌, inl, inr, Bool, true, false, some, [], arith, Bool-cases,
}
use paste_thek4n_ru.Prelude.Bytes.{Bytes, is_empty, is_empty-nil}
use paste_thek4n_ru.Exec.{ok, run-cases, >>=-eq-ok}
use paste_thek4n_ru.Domain.Params.{CacheRequestParams}
use paste_thek4n_ru.Domain.ApiKey.{ApiKey, invalidate, reauthorize}
use paste_thek4n_ru.Application.Repository.{ApiKeyRoRepository, ApiKeyWoRepository}
use paste_thek4n_ru.Application.Repository.Contract.{IsApiKeyStore}
use paste_thek4n_ru.Application.ApiKeys.{RandomSource, invalidate_apikey, reauthorize_apikey}
use paste_thek4n_ru.Application.Validator
use paste_thek4n_ru.Application.Validator.{apikey_service, check_valid}
use paste_thek4n_ru.Application.Cache.Serve.{CacheService, check_apikey, identify, serve_as, serve}

module _ {W ApiKeyId : Type 0} (ro : ApiKeyRoRepository W ApiKeyId)
    (wo : ApiKeyWoRepository W ApiKeyId) where
  module _ (store : IsApiKeyStore ro wo) (random : RandomSource W ApiKeyId)
      (to_string : ApiKeyId → Bytes) where
    -- An API key in the store, with the mark that it has.
    record Marked (id : Bytes) (mark : Bool) (w : W) : Type 0 where
      key : ApiKey ApiKeyId
      held : store.view w id ≡ some key
      marked : key.valid ≡ mark

    invalidate-Marked :
        (id : Bytes) (w : W) {w' : W}
        → invalidate_apikey random ro wo id w ≡ (ok tt, w')
        → Marked id false w'
    unfolding invalidate_apikey invalidate
    invalidate-Marked id w {w'} e = elim (run-cases (ro.get_by_id id w)) [
      | inr (e', w1, h) ↦ absurd (ground arith)
      | inl (k, w1, h) ↦
          let written : wo.set_by_id id (invalidate k) w1 ≡ (ok tt, w') = ground arith in
          record {
            key = invalidate k;
            held = store.set_ok id (invalidate k) w1 (store.get_ok id w h).1 written;
            marked = refl;
          }
    ]

    reauthorize-Marked :
        (id : Bytes) (w : W) {w' : W}
        → reauthorize_apikey random ro wo id w ≡ (ok tt, w')
        → Marked id true w'
    unfolding reauthorize_apikey reauthorize
    reauthorize-Marked id w {w'} e = elim (run-cases (ro.get_by_id id w)) [
      | inr (e', w1, h) ↦ absurd (ground arith)
      | inl (k, w1, h) ↦
          let written : wo.set_by_id id (reauthorize k) w1 ≡ (ok tt, w') = ground arith in
          record {
            key = reauthorize k;
            held = store.set_ok id (reauthorize k) w1 (store.get_ok id w h).1 written;
            marked = refl;
          }
    ]

    Marked-check_valid :
        {id : Bytes} {mark : Bool} {w : W}
        → Marked id mark w
        → {b : Bool} {w' : W} → check_valid to_string ro id w ≡ (ok b, w')
        → b ≡ mark
    unfolding check_valid
    Marked-check_valid {id} {mark} {w} m e = elim (run-cases (ro.get_by_id id w)) [
      | inr (e', w1, h) ↦ absurd (ground arith)
      | inl (k, w1, h) ↦
          let same : some k ≡ some m.key = sym (store.get_ok id w h).0 ∙ m.held in
          ground (arith, m.marked, same)
    ]

    -- Once a key is invalidated, a check of it that does not fail says that it is not valid, over a
    -- store that gives what was last set.
    pub invalidate-check_valid :
        (id : Bytes) (w : W) {w1 : W} {b : Bool} {w2 : W}
        → invalidate_apikey random ro wo id w ≡ (ok tt, w1)
        → check_valid to_string ro id w1 ≡ (ok b, w2)
        → b ≡ false
    invalidate-check_valid id w e h = Marked-check_valid (invalidate-Marked id w e) h

    -- Once a key is reauthorized, a check of it that does not fail says that it is valid, over a
    -- store that gives what was last set.
    pub reauthorize-check_valid :
        (id : Bytes) (w : W) {w1 : W} {b : Bool} {w2 : W}
        → reauthorize_apikey random ro wo id w ≡ (ok tt, w1)
        → check_valid to_string ro id w1 ≡ (ok b, w2)
        → b ≡ true
    reauthorize-check_valid id w e h = Marked-check_valid (reauthorize-Marked id w e) h

    Marked-kept :
        {id : Bytes} {mark : Bool} {w w' : W}
        → store.view w' id ≡ store.view w id
        → Marked id mark w
        → Marked id mark w'
    Marked-kept same m = record { key = m.key; held = same ∙ m.held; marked = m.marked }

    -- The service of `s`, over the keys of this store.
    abbrev pub over : CacheService W → CacheService W
    over s = record s { apikey_service = apikey_service to_string ro }

    exists-kept :
        (id : Bytes) (w : W)
        → store.view (Validator.exists to_string ro id w).1 id ≡ store.view w id
    unfolding Validator.exists
    exists-kept id w = ground (arith, store.exists_kept id id w)

    get_id-kept :
        (id : Bytes) (w : W)
        → store.view (Validator.get_id to_string ro id w).1 id ≡ store.view w id
    unfolding Validator.get_id
    get_id-kept id w = ground (arith, store.get_kept id id w)

    check_apikey-revoked :
        (s : CacheService W) (p : CacheRequestParams) (w : W) {who : Bool × Bytes} {w' : W}
        → Marked p.apikey false w
        → check_apikey (over s) p w ≢ (ok who, w')
    unfolding check_apikey
    check_apikey-revoked s p w m e = elim (run-cases (Validator.exists to_string ro p.apikey w)) [
      | inr (e', w1, h) ↦ ground arith
      | inl (b, w1, h) ↦ elim (run-cases (Validator.get_id to_string ro p.apikey w1)) [
        | inr (e', w2, h2) ↦ ground arith
        | inl (i, w2, h2) ↦ elim (run-cases (check_valid to_string ro p.apikey w2)) [
          | inr (e', w3, h3) ↦ ground arith
          | inl (v, w3, h3) ↦
              let m1 = Marked-kept (rw h at (exists-kept p.apikey w)) m in
              let m2 = Marked-kept (rw h2 at (get_id-kept p.apikey w1)) m1 in
              let invalid = Marked-check_valid m2 h3 in ground (arith, invalid)
        ]
      ]
    ]

    -- Once a key is invalidated, the cache service over the same store serves no request that
    -- gives it: not one that anybody could make without a key either. The store gives what was
    -- last set.
    pub serve-revoked :
        (s : CacheService W) (p : CacheRequestParams) (w : W) {w1 : W} {k : Bytes} {w2 : W}
        → p.apikey ≢ []
        → invalidate_apikey random ro wo p.apikey w ≡ (ok tt, w1)
        → serve (over s) p w1 ≢ (ok k, w2)
    unfolding serve identify
    serve-revoked s p w {w1} given e h =
        let (who, w3, checked, rest) = >>=-eq-ok (identify (over s) p) (serve_as (over s) p) h in
        elim (Bool-cases (is_empty p.apikey)) [
          | inl empty ↦ given (is_empty-nil p.apikey empty)
          | inr full ↦
              check_apikey-revoked s p w1 (invalidate-Marked p.apikey w e) (rw full at checked)
        ]
