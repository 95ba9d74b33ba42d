-- ===== src/Cmd/Routes.antt =====
-- cmd/paste/paste.go: `addHandlers`.
pub mod Reached
pub mod Documented
use paste_thek4n_ru.Prelude.{ℕ, Bool, List, [], ◌∷◌, ◌++◌, if◌then◌else◌}
use paste_thek4n_ru.Prelude.Bytes.{Bytes, codes}

-- The handlers of `webhandlers.Handlers`, and the file servers.
pub data Handler : Type 0 where
  get get_clicks cache healthcheck docs docs_static frontend_assets frontend_index : Handler

-- The options that `addHandlers` reads.
pub record Features : Type 0 where
  pub enable_healthcheck : Bool
  pub enable_interactive_docs : Bool

-- The patterns that are registered, with their handlers.
unfoldable pub add_handlers : Features → List (Bytes × Handler)
add_handlers opts =
    ((codes "GET /{key}/{$}", get)
      ∷ (codes "GET /{key}/clicks/{$}", get_clicks)
      ∷ (codes "POST /{$}", cache)
      ∷ [])
    ++ (if opts.enable_healthcheck then (codes "GET /health/{$}", healthcheck) ∷ [] else [])
    ++ (if opts.enable_interactive_docs
        then (codes "GET /docs/{$}", docs) ∷ (codes "/docs/static/", docs_static) ∷ []
        else [])
