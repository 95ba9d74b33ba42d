-- ===== src/Web/Health.antt =====
-- internal/presentation/webhandlers/healthcheck.go. `W` is the world, in which the response is
-- written.
use paste_thek4n_ru.Prelude.{ℕ, Bool, true}
use paste_thek4n_ru.Prelude.Bytes.{Bytes, codes}
use paste_thek4n_ru.Exec.{Exec, outcome, wrap}
use paste_thek4n_ru.Web.Answers.{ResponseWriter}

pub record HealthcheckResponse : Type 0 where
  pub version : Bytes
  pub availability : Bool
  pub msg : Bytes

-- `encode` is the text that encoding/json writes of a response, with the line feed after it.
module _ {W : Type 0} (encode : HealthcheckResponse → Bytes) (response : ResponseWriter W) where
  unfoldable pub send_json_response : HealthcheckResponse → ℕ → Exec W (Unit {0})
  send_json_response answer status w =
      let w1 = response.set_header (codes "Content-Type") (codes "application/json") w in
      let w2 = response.write_header status w1 in
      wrap "failed to encode response" (response.write (encode answer)) w2

  -- `Healthcheck` of a server of this version. An error is logged.
  unfoldable pub healthcheck : Bytes → W → W
  unfolding send_json_response
  healthcheck version w =
      let resp : HealthcheckResponse = record {
        version = version;
        availability = true;
        msg = codes "ok";
      } in
      outcome (send_json_response resp 200 w) (λ done w'. w') (λ e w'. w')
