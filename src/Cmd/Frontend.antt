-- ===== src/Cmd/Frontend.antt =====
-- cmd/paste/frontend.go, which a build with the tag `frontend` has: what its `init` registers with
-- the mux before `addHandlers` does.
pub mod Reached
use paste_thek4n_ru.Prelude.{Bool, List, [], ◌∷◌, ◌++◌, if◌then◌else◌}
use paste_thek4n_ru.Prelude.Bytes.{Bytes, codes}
use paste_thek4n_ru.Cmd.Routes.{Handler, frontend_assets, frontend_index, Features, add_handlers}

abbrev pub add_frontend : List (Bytes × Handler)
add_frontend =
    (codes "GET /frontend/assets/", frontend_assets) ∷ (codes "GET /{$}", frontend_index) ∷ []

-- All that is registered, in a build with the tag or without.
abbrev pub registered : Bool → Features → List (Bytes × Handler)
registered frontend opts = (if frontend then add_frontend else []) ++ add_handlers opts
