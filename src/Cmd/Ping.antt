-- ===== src/Cmd/Ping.antt =====
-- cmd/paste/ping.go: the command `ping`. `W` is the world, in which the console and the network
-- stand too.
pub mod Healthy
use paste_thek4n_ru.Prelude.{
  ℕ, Bool, true, false, not, List, [], ◌∷◌, ◌++◌, ◌==◌, ◌⊎◌, inl, inr, if◌then◌else◌,
}
use paste_thek4n_ru.Prelude.Bytes.{Bytes, codes, bytes_eq}
use paste_thek4n_ru.Exec.{Result, ok, err, Exec, pure, wrap, outcome}
use paste_thek4n_ru.Std.Itoa.{itoa}
use paste_thek4n_ru.Cmd.Console.{Console, Exit}

pub record PingOptions : Type 0 where
  pub method : Bytes

pub record HealthcheckResponse : Type 0 where
  pub version : Bytes
  pub availability : Bool
  pub msg : Bytes

-- net/http.Response.
pub record Response (W : Type 0) : Type 0 where
  pub status_code : ℕ
  -- json.NewDecoder(resp.Body).Decode(&healthCheckResp)
  pub decode : Exec W HealthcheckResponse
  -- resp.Body.Close()
  pub close : Exec W (Unit {0})

-- A part of the program that gives a value or ends it with an exit code.
abbrev pub Run : Type 0 → Type 0 → Type 0
Run W A = W → (ℕ ⊎ A) × W

module _ {W A B : Type 0} where
  infixl 5 ◌>>=◌
  abbrev pub next : (ℕ ⊎ A) × W → (A → Run W B) → (ℕ ⊎ B) × W
  next (inl code, w) f = (inl code, w)
  next (inr a, w) f = f a w

  abbrev pub ◌>>=◌ : Run W A → (A → Run W B) → Run W B
  ◌>>=◌ m f w = next (m w) f

abbrev pub go_on : {W A : Type 0} → A → Run W A
go_on a w = (inr a, w)

-- `get` is `http.DefaultClient.Do` of a GET request that accepts JSON.
module _ {W : Type 0} (console : Console W) (get : Bytes → Exec W (Response W)) where
  -- A message on the standard error, and os.Exit(1).
  abbrev fail : {A : Type 0} → Bytes → Run W A
  fail message w = (inl 1, console.stderr (message ++ (10 ∷ [])) w)

  -- Go leaves the error inside out of the new one; only the text is used.
  unfoldable pub get_request : Bytes → Exec W (Response W)
  get_request url = wrap "cannot make request" (get url)

  unfoldable pub simple_healthcheck : Bytes → Run W (Response W)
  unfolding get_request
  simple_healthcheck url w =
      outcome (get_request url w) (λ resp w'. (inr resp, w'))
        (λ e w'. fail (console.error_text e) w')

  unfoldable pub simple_healthcheck_200 : Bytes → Run W (Response W)
  unfolding simple_healthcheck
  simple_healthcheck_200 url = do
    resp ← simple_healthcheck url
    if resp.status_code == 200 then go_on resp else fail (codes "Status: " ++ itoa resp.status_code)

  unfoldable pub decode_health : Response W → Run W HealthcheckResponse
  decode_health resp w =
      outcome (resp.decode w) (λ health w'. (inr health, w'))
        (λ e w'. fail (codes "Error reading server answer:  " ++ console.error_text e) w')

  unfoldable pub json_healthcheck : Bytes → Run W (Response W)
  unfolding simple_healthcheck_200 decode_health
  json_healthcheck url = do
    resp ← simple_healthcheck_200 url
    health ← decode_health resp
    if health.availability then go_on resp else fail (codes "Server response: " ++ health.msg)

  -- resp.Body.Close() of what a check gives, and what follows the switch.
  abbrev closed : (ℕ ⊎ Response W) × W → ℕ × W
  closed (inl code, w) = (code, w)
  closed (inr resp, w) =
      outcome (resp.close w) (λ done w'. (0, w'))
        (λ e w'. (1, console.stdout (codes "Error: " ++ console.error_text e) w'))

  unfoldable pub close_and_exit : Run W (Response W) → Exit W
  close_and_exit check w = closed (check w)

  unfoldable pub ping_url : Bytes → Bytes → Exit W
  unfolding close_and_exit json_healthcheck simple_healthcheck
  ping_url method url =
      if bytes_eq method (codes "simple")
      then close_and_exit (simple_healthcheck url)
      else if bytes_eq method (codes "200")
      then close_and_exit (simple_healthcheck_200 url)
      else if bytes_eq method (codes "json")
      then close_and_exit (json_healthcheck url)
      else (λ w. (0, w))

  module _ (parse_args : List Bytes → Exec W (PingOptions × List Bytes)) where
    unfoldable pub ping_parsed : PingOptions → List Bytes → Exit W
    unfolding ping_url
    ping_parsed opts [] w =
        (2, console.stderr (codes "Parse params error: URL argument not provided" ++ (10 ∷ [])) w)
    ping_parsed opts (url ∷ rest) w = ping_url opts.method url w

    unfoldable pub ping_command : List Bytes → Exit W
    unfolding ping_parsed
    ping_command args w =
        outcome (parse_args args w) (λ parsed w'. ping_parsed parsed.0 parsed.1 w')
          (λ e w'. (
            2,
            console.stderr (codes "Parse params error: " ++ console.error_text e ++ (10 ∷ [])) w',
          ))
