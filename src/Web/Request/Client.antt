-- ===== src/Web/Request/Client.antt =====
-- Whose address a request has: `getClientIP` of internal/presentation/webhandlers/handlers.go.
use paste_thek4n_ru.Prelude.{ℕ, ◌≡◌, refl, false, [], ◌∷◌, ◌++◌}
use paste_thek4n_ru.Prelude.Bytes.{Bytes, elem}
use paste_thek4n_ru.Std.Spaces.{trim_space}
use paste_thek4n_ru.Std.Spaces.Split.{split-append, split_none}
use paste_thek4n_ru.Std.Net.{join_host_port}
use paste_thek4n_ru.Std.Net.Joined.{Plain, split_host_port-join_host_port}
use paste_thek4n_ru.Web.Request.{Request, get_client_ip}

-- What a request says about its client, and the address in it.
pub data Says {W : Type 0} (r : Request W) (ip : Bytes) : Type 0 where
  -- A header that names no more than one client.
  forwarded :
      (b : ℕ) (s : Bytes)
      → r.forwarded_for ≡ b ∷ s
      → elem 44 (b ∷ s) ≡ false
      → trim_space (b ∷ s) ≡ ip
      → Says r ip
  -- One that names proxies after the client.
  forwarded_by :
      (b : ℕ) (s proxies : Bytes)
      → r.forwarded_for ≡ (b ∷ s) ++ (44 ∷ proxies)
      → elem 44 (b ∷ s) ≡ false
      → trim_space (b ∷ s) ≡ ip
      → Says r ip
  real : (b : ℕ) (s : Bytes) → r.forwarded_for ≡ [] → r.real_ip ≡ b ∷ s → ip ≡ b ∷ s → Says r ip
  -- No header, and a connection from an address that `net` has joined.
  connected :
      (port : Bytes)
      → r.forwarded_for ≡ []
      → r.real_ip ≡ []
      → Plain ip
      → Plain port
      → elem 58 port ≡ false
      → r.remote_addr ≡ join_host_port ip port
      → Says r ip

-- The address of the client: the first item of X-Forwarded-For without the spaces around it, or
-- else X-Real-IP, or else the host of the connection, which may be an IPv6 address.
pub get_client_ip-Says :
    {W : Type 0} (r : Request W) {ip : Bytes} → Says r ip → get_client_ip r ≡ ip
unfolding get_client_ip
get_client_ip-Says r (forwarded b s f one trimmed) = rw (f, split_none 44 (b ∷ s) one, trimmed) refl
get_client_ip-Says r (forwarded_by b s proxies f one trimmed) =
    rw (f, split-append 44 (b ∷ s) proxies one, trimmed) refl
get_client_ip-Says r (real b s f e same) = rw (f, e, same) refl
get_client_ip-Says r (connected port f e h p d joined) =
    rw (f, e, joined, split_host_port-join_host_port _ port h p d) refl
