-- ===== src/Web/Get/Answered.antt =====
-- What `Get` of internal/presentation/webhandlers/get.go answers about a record that is gone.
use paste_thek4n_ru.Prelude.{◌≡◌, refl, ◌⊎◌, inl, inr, true}
use paste_thek4n_ru.Prelude.Bytes.{Bytes}
use paste_thek4n_ru.Errors.{sentinel, is, record_not_found}
use paste_thek4n_ru.Exec.{ok, err}
use paste_thek4n_ru.Domain.Expiration.{Clock}
use paste_thek4n_ru.Domain.Record
use paste_thek4n_ru.Domain.Record.{Record, counter_exhausted}
use paste_thek4n_ru.Application.Repository.{RecordRepository}
use paste_thek4n_ru.Application.Get
use paste_thek4n_ru.Web.Answers.{ResponseWriter}
use paste_thek4n_ru.Web.Get.{HttpLibrary, is_gone, get, answer_not_found}

module _ {W : Type 0} (clock : Clock W) (records : RecordRepository W) (response : ResponseWriter W)
    (http : HttpLibrary W) where
  -- A record that the repository does not find, and one whose reads are used up, are both answered
  -- with 404 and nothing else; neither is written back.
  pub get-gone :
      (key : Bytes) (w : W) {w1 : W}
      → (records.get_by_key key w ≡ (err (sentinel record_not_found), w1))
        ⊎ ((r : Record) × (records.get_by_key key w ≡ (ok r, w1)) × (counter_exhausted r ≡ true))
      → get clock records response http key w ≡ answer_not_found clock records response http w1
  unfolding get Get.get_body Get.get Record.get_body is_gone is
  get-gone key w (inl h) = rw h refl
  get-gone key w (inr (r, h, used)) = rw (h, used) refl
