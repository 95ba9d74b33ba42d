-- ===== src/Cmd/Routes/Documented.antt =====
-- The endpoints that internal/presentation/webhandlers/docs.go documents, and the routes of
-- `addHandlers` of cmd/paste/paste.go.
use paste_thek4n_ru.Prelude.{
  ◌≡◌, refl, Bool, true, false, ◌||◌, List, [], ◌∷◌, ◌++◌, All, if◌then◌else◌,
}
use paste_thek4n_ru.Prelude.Int.{ℤ}
use paste_thek4n_ru.Prelude.Bytes.{Bytes, codes, bytes_eq}
use paste_thek4n_ru.Config.{CacheValidationConfig}
use paste_thek4n_ru.Web.Docs.{
  HttpMethod, method_get, method_post, method_put, method_delete, method_patch, Endpoint, Section,
  build_main_section, build_sections,
}
use paste_thek4n_ru.Cmd.Routes.{Handler, Features, add_handlers}

abbrev method_text : HttpMethod → Bytes
method_text method_get = codes "GET"
method_text method_post = codes "POST"
method_text method_put = codes "PUT"
method_text method_delete = codes "DELETE"
method_text method_patch = codes "PATCH"

abbrev slashed : Bytes → Bytes
slashed path = if bytes_eq path (codes "/") then path else path ++ codes "/"

-- The pattern of an endpoint: its path, and a slash at the end.
unfoldable pub pattern_of : Endpoint → Bytes
unfolding bytes_eq
pattern_of e = method_text e.method ++ codes " " ++ slashed e.path ++ codes "{$}"

unfoldable pub has_pattern : Bytes → List (Bytes × Handler) → Bool
unfolding bytes_eq
has_pattern text [] = false
has_pattern text ((text', h) ∷ routes) = bytes_eq text text' || has_pattern text routes

-- Each documented endpoint is registered.
abbrev pub AllRouted : Features → List Section → Type 0
AllRouted opts sections =
    All (λ s. All (λ e. has_pattern (pattern_of e) (add_handlers opts) ≡ true) s.endpoints) sections

-- Every endpoint that the documentation of a server shows is registered by this server, under its
-- method and its path; the healthcheck is among them when it is enabled.
pub build_sections-AllRouted :
    (cfg : CacheValidationConfig) (duration_string : ℤ → Bytes) (base_url version : Bytes)
    (health docs : Bool)
    → AllRouted
        (record { enable_healthcheck = health; enable_interactive_docs = docs })
        (build_sections cfg duration_string base_url health version)
unfolding build_sections build_main_section add_handlers has_pattern pattern_of bytes_eq
build_sections-AllRouted cfg duration_string base_url version true docs =
    ((refl, (refl, (refl, tt))), ((refl, tt), tt))
build_sections-AllRouted cfg duration_string base_url version false docs =
    ((refl, (refl, (refl, tt))), tt)
