-- ===== src/Application/Get/Phases.antt =====
-- internal/application/service/get.go: `GetBody` in the two parts between which the requests of
-- others may run, and the runs of any number of requests for one key in any order.
use paste_thek4n_ru.Prelude.{◌≡◌, refl, ◌⊎◌, inl, inr, none, List, [], ◌∷◌}
use paste_thek4n_ru.Prelude.Bytes.{Bytes}
use paste_thek4n_ru.Errors.{GoError}
use paste_thek4n_ru.Exec.{Exec, ok, err, run-cases, pure, wrap, ◌>>=◌, ◌>>◌}
use paste_thek4n_ru.Domain.Expiration.{Clock}
use paste_thek4n_ru.Domain.Record
use paste_thek4n_ru.Domain.Record.{Record}
use paste_thek4n_ru.Application.Repository.{RecordRepository}
use paste_thek4n_ru.Application.Repository.Contract.{IsRecordStore}
use paste_thek4n_ru.Application.Get.{GetBodyAnswer, get, get_body}

-- What a request holds between the parts: the body, and the record to be written.
abbrev pub Read : Type 0
Read = Bytes × Record

-- One of the requests that are under way, and the others.
pub data Picked (r : Read) : List Read → List Read → Type 0 where
  here : {rs : List Read} → Picked r (r ∷ rs) rs
  there : {q : Read} {rs others : List Read} → Picked r rs others → Picked r (q ∷ rs) (q ∷ others)

module _ {W : Type 0} (clock : Clock W) (records : RecordRepository W) where
  -- From the first line to the call of `SetByKey`.
  unfoldable pub begin : Bytes → Exec W Read
  unfolding get
  begin key = do
    record' ← get clock records key
    wrap "fail to read record body" (Record.get_body clock record')

  -- From the call of `SetByKey` on.
  unfoldable pub finish : Bytes → Read → Exec W GetBodyAnswer
  finish key read = do
    wrap "fail to write record" (records.set_by_key key read.1)
    pure (record { body = read.0; is_url = read.1.url })

  -- A request that nobody interrupts is its two parts.
  pub get_body-phases :
      (key : Bytes) (w : W) → get_body clock records key w ≡ (begin key >>= finish key) w
  unfolding get_body begin finish get
  get_body-phases key w = elim (run-cases (records.get_by_key key w)) [
    | inl (r, w', h) ↦ rw h refl
    | inr (e, w', h) ↦ rw h refl
  ]

  -- The requests for one key: the world, those that have begun, and the answers that were given.
  pub record Requests : Type 0 where
    pub world : W
    pub begun : List Read
    pub answers : List GetBodyAnswer

  abbrev pub no_requests : W → Requests
  no_requests w = record { world = w; begun = []; answers = [] }

  module _ (store : IsRecordStore clock records) (key : Bytes) where
    -- One part of one request; or anything else that leaves the record as it is, or loses it.
    pub data Step (s : Requests) : Requests → Type 0 where
      begins :
          {r : Read} {w : W}
          → begin key s.world ≡ (ok r, w)
          → Step s (record s { world = w; begun = r ∷ s.begun })
      is_refused :
          {e : GoError} {w : W} → begin key s.world ≡ (err e, w) → Step s (record s { world = w })
      finishes :
          {r : Read} {others : List Read} {a : GetBodyAnswer} {w : W}
          → Picked r s.begun others
          → finish key r s.world ≡ (ok a, w)
          → Step s (record { world = w; begun = others; answers = a ∷ s.answers })
      fails :
          {r : Read} {others : List Read} {e : GoError} {w : W}
          → Picked r s.begun others
          → finish key r s.world ≡ (err e, w)
          → Step s (record s { world = w; begun = others })
      passes :
          {w : W}
          → (store.view w key ≡ store.view s.world key) ⊎ (store.view w key ≡ none)
          → Step s (record s { world = w })

    pub data Reach (w : W) : Requests → Type 0 where
      start : Reach w (no_requests w)
      later : {s t : Requests} → Reach w s → Step s t → Reach w t
