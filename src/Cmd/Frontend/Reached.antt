-- ===== src/Cmd/Frontend/Reached.antt =====
-- The front end of cmd/paste/frontend.go takes no path from the other handlers.
use mathlib.Core.List.{append_assoc}
use paste_thek4n_ru.Prelude.{
  ap, ◌++◌, ◌≡◌, refl, ◌∙◌, Bool, true, false, List, [], ◌∷◌, some, inl, inr, Bool-cases,
}
use paste_thek4n_ru.Prelude.Bytes.{Bytes, codes, bytes_eq, elem, is_empty}
use paste_thek4n_ru.Std.Net.{cut}
use paste_thek4n_ru.Std.Spaces.{split}
use paste_thek4n_ru.Std.Spaces.Split.{split-append}
use paste_thek4n_ru.Std.ServeMux.{parse_pattern, match_segments, before, path_segments, find, route}
use paste_thek4n_ru.Cmd.Routes
use paste_thek4n_ru.Cmd.Routes.{Handler, Features, add_handlers}
use paste_thek4n_ru.Cmd.Routes.Reached.{link_path, reader, route-key, route-root}
use paste_thek4n_ru.Cmd.Frontend.{add_frontend, registered}

-- The routes with those of the front end before them.
abbrev with_frontend : List (Bytes × Handler) → List (Bytes × Handler)
with_frontend routes = add_frontend ++ routes

-- The patterns of the front end match neither the path of a link nor that of its clicks.
find-frontend :
    (routes : List (Bytes × Handler)) (b : Bytes)
    → (find (with_frontend routes) (codes "GET") (b ∷ [] ∷ [])
        ≡ find routes (codes "GET") (b ∷ [] ∷ []))
      × (find (with_frontend routes) (codes "GET") (b ∷ codes "clicks" ∷ [] ∷ [])
          ≡ find routes (codes "GET") (b ∷ codes "clicks" ∷ [] ∷ []))
unfolding find before match_segments parse_pattern bytes_eq cut split
find-frontend routes [] = (refl, refl)
find-frontend routes (c ∷ s) = elim (Bool-cases (bytes_eq (codes "frontend") (c ∷ s))) [
  | inl e ↦ (rw e refl, rw e refl)
  | inr e ↦ (rw e refl, rw e refl)
]

find-frontend_any :
    (routes : List (Bytes × Handler)) (path : List Bytes)
    → (find (with_frontend routes) [] path ≡ find routes [] path)
      × (find (with_frontend routes) (codes "POST") path ≡ find routes (codes "POST") path)
unfolding find parse_pattern bytes_eq cut split
find-frontend_any routes path = (refl, refl)

route-frontend :
    (routes : List (Bytes × Handler)) (method path : Bytes) (segments : List Bytes)
    → bytes_eq method (codes "HEAD") ≡ false
    → path_segments path ≡ segments
    → find (with_frontend routes) method segments ≡ find routes method segments
    → route (with_frontend routes) method path ≡ route routes method path
unfolding route bytes_eq
route-frontend routes method path segments other e same =
    rw (e, other, same, (find-frontend_any routes segments).0) refl

-- With the front end or without, the paths lead where `addHandlers` leads them: that of a key's link
-- to the handler that reads the key, unless it is the name of an enabled page, that of its clicks to
-- the handler that counts them, and a POST to / to the one that caches. The key is not empty and
-- holds no slash.
pub route-registered :
    (frontend : Bool) (opts : Features) (key : Bytes)
    → is_empty key ≡ false
    → elem 47 key ≡ false
    → (route (registered frontend opts) (codes "GET") (link_path key) ≡ some (reader opts key))
      × (route (registered frontend opts) (codes "GET") (link_path key ++ codes "clicks/")
          ≡ some (Routes.get_clicks, key ∷ []))
      × (route (registered frontend opts) (codes "POST") (codes "/") ≡ some (Routes.cache, []))
unfolding split bytes_eq
route-registered false opts key full one =
    let (link, clicks) = route-key opts key full one in (link, clicks, route-root opts)
route-registered true opts key full one =
    let (link, clicks) = route-key opts key full one in
    let (same_link, same_clicks) = find-frontend (add_handlers opts) key in
    (
      route-frontend (add_handlers opts) (codes "GET") (link_path key) (key ∷ [] ∷ []) refl
            (split-append 47 key [] one) same_link
          ∙ link,
      route-frontend (add_handlers opts) (codes "GET") (link_path key ++ codes "clicks/")
            (key ∷ codes "clicks" ∷ [] ∷ []) refl
            (ap (split 47) (append_assoc key (47 ∷ []) (codes "clicks/"))
              ∙ split-append 47 key (codes "clicks/") one)
            same_clicks
          ∙ clicks,
      route-frontend (add_handlers opts) (codes "POST") (codes "/") ([] ∷ []) refl refl
            (find-frontend_any (add_handlers opts) ([] ∷ [])).1
          ∙ route-root opts,
    )
