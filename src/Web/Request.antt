-- ===== src/Web/Request.antt =====
-- internal/presentation/webhandlers/handlers.go: what the handlers read of a request. `W` is the
-- world, in which the body is read.
pub mod Client
use paste_thek4n_ru.Prelude.{ℕ, Bool, not, List, [], ◌∷◌, Option, none, some, if◌then◌else◌}
use paste_thek4n_ru.Prelude.Bytes.{Bytes, codes, is_empty}
use paste_thek4n_ru.Exec.{Exec}
use paste_thek4n_ru.Std.Spaces.{trim_space, split}
use paste_thek4n_ru.Std.Net.{split_host_port}
use paste_thek4n_ru.Web.Params.{Values}

-- The parts of `*http.Request` that the handlers read. `has_tls` is whether its field `TLS` is set.
pub record Request (W : Type 0) : Type 0 where
  -- The headers X-Forwarded-For, X-Real-IP and X-Forwarded-Proto, empty when they are not given.
  pub forwarded_for : Bytes
  pub real_ip : Bytes
  pub forwarded_proto : Bytes
  pub remote_addr : Bytes
  pub query : Values
  pub has_tls : Bool
  pub host : Bytes
  -- io.ReadAll(r.Body)
  pub read_all : Exec W Bytes

-- The first part of a text that was split: there always is one.
abbrev first_part : List Bytes → Bytes
first_part [] = []
first_part (part ∷ _) = part

unfoldable pub get_client_ip : {W : Type 0} → Request W → Bytes
get_client_ip r =
    if not (is_empty r.forwarded_for)
    then trim_space (first_part (split 44 r.forwarded_for))
    else if not (is_empty r.real_ip)
    then r.real_ip
    else elim (split_host_port r.remote_addr) [ none ↦ r.remote_addr | some ip ↦ ip ]

unfoldable pub detect_proto : {W : Type 0} → Request W → Bytes
detect_proto r =
    if r.has_tls
    then codes "https"
    else if not (is_empty r.forwarded_proto)
    then r.forwarded_proto
    else codes "http"
