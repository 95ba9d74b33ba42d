-- ===== src/Cmd/Ping/Healthy.antt =====
-- When `ping --method json` of cmd/paste/ping.go exits with the code 0.
use paste_thek4n_ru.Prelude.{
  ◌≡◌, ◌↔◌, refl, true, List, ◌∷◌, arith, inl, inr, ◌==◌, Bool-cases, ==_iff,
}
use paste_thek4n_ru.Prelude.Bytes.{Bytes, codes, bytes_eq}
use paste_thek4n_ru.Exec.{Exec, ok, run-cases}
use paste_thek4n_ru.Cmd.Console.{Console}
use paste_thek4n_ru.Cmd.Ping.{
  PingOptions, HealthcheckResponse, Response, get_request, simple_healthcheck,
  simple_healthcheck_200, decode_health, json_healthcheck, close_and_exit, ping_url, ping_parsed,
  ping_command,
}

module _ {W : Type 0} (console : Console W) (get : Bytes → Exec W (Response W)) where
  -- The server answers a request with status 200 and a JSON text that says it is available; `w'` is
  -- the world when the answer is read and closed.
  pub record IsHealthy (url : Bytes) (w w' : W) : Type 0 where
    resp : Response W
    health : HealthcheckResponse
    answered : W
    read_world : W
    answers : get url w ≡ (ok resp, answered)
    status : resp.status_code ≡ 200
    reads : resp.decode answered ≡ (ok health, read_world)
    available : health.availability ≡ true
    closes : resp.close read_world ≡ (ok tt, w')

  json_healthcheck-IsHealthy :
      (url : Bytes) (w : W) {w' : W}
      → close_and_exit console get (json_healthcheck console get url) w ≡ (0, w')
      → IsHealthy url w w'
  unfolding close_and_exit json_healthcheck simple_healthcheck_200 simple_healthcheck get_request
      decode_health
  json_healthcheck-IsHealthy url w {w'} e = elim (run-cases (get url w)) [
    | inr (e', v, h) ↦ absurd (ground arith)
    | inl (resp, v, h) ↦ elim (Bool-cases (resp.status_code == 200)) [
      | inr bad ↦ absurd (ground arith)
      | inl good ↦ elim (run-cases (resp.decode v)) [
        | inr (e', v2, h2) ↦ absurd (ground arith)
        | inl (health, v2, h2) ↦ elim (run-cases (resp.close v2)) [
          | inr (e', v3, h3) ↦ absurd (ground arith)
          | inl (done, v3, h3) ↦ record {
            resp = resp;
            health = health;
            answered = v;
            read_world = v2;
            answers = h;
            status = (==_iff resp.status_code 200).0 good;
            reads = h2;
            available = ground arith;
            closes = ground arith;
          }
        ]
      ]
    ]
  ]

  IsHealthy-json_healthcheck :
      (url : Bytes) (w : W) {w' : W}
      → IsHealthy url w w'
      → close_and_exit console get (json_healthcheck console get url) w ≡ (0, w')
  unfolding close_and_exit json_healthcheck simple_healthcheck_200 simple_healthcheck get_request
      decode_health
  IsHealthy-json_healthcheck url w h = rw (h.answers, h.status, h.reads, h.available, h.closes) refl

  -- With the method `json`, `ping URL` exits with the code 0 exactly when the server answers a
  -- request for the URL with status 200 and a JSON text that says it is available, and the answer
  -- is closed without an error.
  pub ping_command-IsHealthy :
      (parse_args : List Bytes → Exec W (PingOptions × List Bytes)) (args : List Bytes)
      (url : Bytes) (rest : List Bytes) (w : W) {v w' : W}
      → parse_args args w ≡ (ok (record { method = codes "json" }, url ∷ rest), v)
      → (ping_command console get parse_args args w ≡ (0, w')) ↔ IsHealthy url v w'
  unfolding ping_command ping_parsed ping_url bytes_eq
  ping_command-IsHealthy parse_args args url rest w {v} {w'} parsed = (
    (λ e. json_healthcheck-IsHealthy url v (rw parsed at e)),
    λ h. rw parsed (IsHealthy-json_healthcheck url v h),
  )
