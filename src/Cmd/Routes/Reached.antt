-- ===== src/Cmd/Routes/Reached.antt =====
-- Which handler a request reaches: `addHandlers` of cmd/paste/paste.go.
use mathlib.Core.List.{append_assoc}
use paste_thek4n_ru.Prelude.{
  ap, ◌∙◌, ◌≡◌, refl, false, ◌&&◌, List, [], ◌∷◌, ◌++◌, some, inl, inr, if◌then◌else◌, Bool-cases,
}
use paste_thek4n_ru.Prelude.Bytes.{Bytes, codes, bytes_eq, elem, is_empty}
use paste_thek4n_ru.Std.Net.{cut}
use paste_thek4n_ru.Std.Spaces.{split}
use paste_thek4n_ru.Std.Spaces.Split.{split-append}
use paste_thek4n_ru.Std.ServeMux.{parse_pattern, match_segments, before, find, route}
use paste_thek4n_ru.Cmd.Routes.{
  Handler, get, get_clicks, cache, healthcheck, docs, Features, add_handlers,
}

-- The path of the link of a key.
abbrev pub link_path : Bytes → Bytes
link_path key = 47 ∷ (key ++ (47 ∷ []))

-- The handler of that path: the one of the key, unless a page of this name is enabled.
abbrev pub reader : Features → Bytes → Handler × List Bytes
reader opts key =
    if opts.enable_healthcheck && bytes_eq (codes "health") key
    then (healthcheck, [])
    else if opts.enable_interactive_docs && bytes_eq (codes "docs") key
    then (docs, [])
    else (get, key ∷ [])

-- A key that is not empty and holds no slash. The path of its link leads to the handler that reads
-- this key, unless it is the name of a page that is enabled; and the path of its clicks leads to the
-- handler that counts them, whatever pages are enabled. Both get the key as the value of the path.
pub route-key :
    (opts : Features) (key : Bytes)
    → is_empty key ≡ false
    → elem 47 key ≡ false
    → (route (add_handlers opts) (codes "GET") (link_path key) ≡ some (reader opts key))
      × (route (add_handlers opts) (codes "GET") (link_path key ++ codes "clicks/")
          ≡ some (get_clicks, key ∷ []))
unfolding route find before match_segments parse_pattern bytes_eq cut split add_handlers
route-key opts key full one =
    let link = split-append 47 key [] one in
    let clicks =
      ap (split 47) (append_assoc key (47 ∷ []) (codes "clicks/"))
      ∙ split-append 47 key (codes "clicks/") one in
    elim (Bool-cases opts.enable_healthcheck) [
      | inl h ↦ elim (Bool-cases opts.enable_interactive_docs) [
        | inl d ↦ elim (Bool-cases (bytes_eq (codes "health") key)) [
          | inl eh ↦ elim (Bool-cases (bytes_eq (codes "docs") key)) [
            | inl ed ↦ (rw (link, full, h, d, eh, ed) refl, rw (clicks, full, h, d, eh, ed) refl)
            | inr ed ↦ (rw (link, full, h, d, eh, ed) refl, rw (clicks, full, h, d, eh, ed) refl)
          ]
          | inr eh ↦ elim (Bool-cases (bytes_eq (codes "docs") key)) [
            | inl ed ↦ (rw (link, full, h, d, eh, ed) refl, rw (clicks, full, h, d, eh, ed) refl)
            | inr ed ↦ (rw (link, full, h, d, eh, ed) refl, rw (clicks, full, h, d, eh, ed) refl)
          ]
        ]
        | inr d ↦ elim (Bool-cases (bytes_eq (codes "health") key)) [
          | inl eh ↦ (rw (link, full, h, d, eh) refl, rw (clicks, full, h, d, eh) refl)
          | inr eh ↦ (rw (link, full, h, d, eh) refl, rw (clicks, full, h, d, eh) refl)
        ]
      ]
      | inr h ↦ elim (Bool-cases opts.enable_interactive_docs) [
        | inl d ↦ elim (Bool-cases (bytes_eq (codes "docs") key)) [
          | inl ed ↦ (rw (link, full, h, d, ed) refl, rw (clicks, full, h, d, ed) refl)
          | inr ed ↦ (rw (link, full, h, d, ed) refl, rw (clicks, full, h, d, ed) refl)
        ]
        | inr d ↦ (rw (link, full, h, d) refl, rw (clicks, full, h, d) refl)
      ]
    ]

-- What is posted to / goes to the handler `Cache`, whatever pages are enabled.
pub route-root :
    (opts : Features) → route (add_handlers opts) (codes "POST") (codes "/") ≡ some (cache, [])
unfolding route find before match_segments parse_pattern bytes_eq cut split add_handlers
route-root opts = elim (Bool-cases opts.enable_healthcheck) [
  | inl h ↦ elim (Bool-cases opts.enable_interactive_docs) [
    | inl d ↦ rw (h, d) refl
    | inr d ↦ rw (h, d) refl
  ]
  | inr h ↦ elim (Bool-cases opts.enable_interactive_docs) [
    | inl d ↦ rw (h, d) refl
    | inr d ↦ rw (h, d) refl
  ]
]
