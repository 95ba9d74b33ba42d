-- ===== src/Web/Get.antt =====
-- internal/presentation/webhandlers/get.go. `W` is the world, in which the response is written.
pub mod Answered
use paste_thek4n_ru.Prelude.{ℕ, Bool, ◌||◌, ◌++◌, if◌then◌else◌}
use paste_thek4n_ru.Prelude.Bytes.{Bytes, codes}
use paste_thek4n_ru.Errors.{GoError, is, record_not_found, record_counter_exhausted, record_expired}
use paste_thek4n_ru.Exec.{outcome}
use paste_thek4n_ru.Std.Itoa.{itoa}
use paste_thek4n_ru.Std.Spaces.{trim_space}
use paste_thek4n_ru.Domain.Expiration.{Clock}
use paste_thek4n_ru.Application.Repository.{RecordRepository}
use paste_thek4n_ru.Application.Get
use paste_thek4n_ru.Application.Get.{GetBodyAnswer}
use paste_thek4n_ru.Web.Answers.{ResponseWriter}

-- http.DetectContentType, and http.Redirect with its URL and status.
pub record HttpLibrary (W : Type 0) : Type 0 where
  pub detect_content_type : Bytes → Bytes
  pub redirect : Bytes → ℕ → W → W

-- `redirectBody` with the URL in it.
abbrev pub redirect_body : Bytes → Bytes
redirect_body url =
    codes
      "<html><head>\n<title>303 See Other</title>\n</head><body>\n<h1>See Other</h1>\n<p>The document has moved <a href=\""
    ++ url
    ++ codes "\">here</a>.</p>\n</body></html>"

-- The errors that `Get` answers with 404, and those of `GetClicks`.
unfoldable pub is_gone : GoError → Bool
is_gone e = is e record_not_found || (is e record_counter_exhausted || is e record_expired)

module _ {W : Type 0} (clock : Clock W) (records : RecordRepository W) (response : ResponseWriter W)
    (http : HttpLibrary W) where
  -- w.Write(body); if it fails, status 500 is written after all.
  unfoldable pub write_or_500 : Bytes → W → W
  write_or_500 body w =
      outcome (response.write body w) (λ _ w'. w') (λ e w'. response.write_header 500 w')

  unfoldable pub answer_not_found : W → W
  answer_not_found w = write_or_500 (codes "404 Not Found") (response.write_header 404 w)

  unfoldable pub answer_redirect : Bytes → W → W
  answer_redirect body w =
      let answer = redirect_body body in
      let w1 = response.set_header (codes "content-type") (http.detect_content_type answer) w in
      write_or_500 answer (http.redirect (trim_space body) 303 w1)

  unfoldable pub answer_content : Bytes → W → W
  answer_content body w =
      let w1 = response.set_header (codes "content-type") (http.detect_content_type body) w in
      write_or_500 body (response.write_header 200 w1)

  unfoldable pub answer_body : GetBodyAnswer → W → W
  answer_body a w = if a.is_url then answer_redirect a.body w else answer_content a.body w

  -- `Get`, for `key` of the path.
  unfoldable pub get : Bytes → W → W
  get key w =
      outcome (Get.get_body clock records key w) answer_body
        (λ e w'. if is_gone e then answer_not_found w' else response.write_header 500 w')

  unfoldable pub get_clicks : Bytes → W → W
  get_clicks key w =
      outcome (Get.get_clicks clock records key w) (λ clicks w'. answer_content (itoa clicks) w')
        (λ e w'.
          if is e record_not_found then answer_not_found w' else response.write_header 500 w')
