-- ===== src/Std/ServeMux.antt =====
-- net/http: `ServeMux`, with patterns of a method and a path that is given by its segments. A path
-- is clean, as the mux redirects others to theirs; a path `/a/b/` has the segments a, b and the
-- empty one.
use paste_thek4n_ru.Prelude.{
  ℕ, Bool, true, false, ◌&&◌, ◌==◌, ltb, List, [], ◌∷◌, Option, none, some, if◌then◌else◌,
}
use paste_thek4n_ru.Prelude.Bytes.{Bytes, codes, bytes_eq, is_empty}
use paste_thek4n_ru.Std.Net.{cut}
use paste_thek4n_ru.Std.Spaces.{split}

pub data Segment : Type 0 where
  literal : Bytes → Segment
  -- {name}
  wildcard : Segment
  -- {$}
  dollar : Segment
  -- A slash at the end, which stands for any rest.
  multi : Segment

-- A pattern with no method has an empty one.
pub record Pattern : Type 0 where
  pub method : Bytes
  pub segments : List Segment

abbrev segment_of : Bytes → Segment
segment_of [] = multi
segment_of (b ∷ s) =
    if bytes_eq (b ∷ s) (codes "{$}")
    then dollar
    else if b == 123
    then wildcard
    else literal (b ∷ s)

abbrev segments_of : List Bytes → List Segment
segments_of [] = []
segments_of (s ∷ rest) = segment_of s ∷ segments_of rest

-- What stands after the first slash, split at the others.
abbrev pub path_segments : Bytes → List Bytes
path_segments [] = []
path_segments (b ∷ s) = split 47 s

abbrev method_of : Bytes → Bytes
method_of pattern = elim (cut 32 pattern) [ some (m, p) ↦ m | none ↦ [] ]

abbrev path_of : Bytes → Bytes
path_of pattern = elim (cut 32 pattern) [ some (m, p) ↦ p | none ↦ pattern ]

unfoldable pub parse_pattern : Bytes → Pattern
unfolding bytes_eq cut split
parse_pattern pattern = record {
  method = method_of pattern;
  segments = segments_of (path_segments (path_of pattern));
}

-- The values of the wildcards, if the segments of a path match.
unfoldable pub match_segments : List Segment → List Bytes → Option (List Bytes)
match_segments [] [] = some []
match_segments (multi ∷ []) (s ∷ path) = some []
match_segments (dollar ∷ []) ([] ∷ []) = some []
match_segments (literal l ∷ segments) (s ∷ path) =
    let rest = match_segments segments path in if bytes_eq l s then rest else none
match_segments (wildcard ∷ segments) (s ∷ path) = elim (match_segments segments path) [
  | some values ↦ if is_empty s then none else some (s ∷ values)
  | none ↦ none
]
match_segments _ _ = none

-- The order in which segments are tried.
abbrev rank : Segment → ℕ
rank (literal l) = 0
rank dollar = 0
rank wildcard = 1
rank multi = 2

-- Whether the first pattern is tried before the second, where both match.
unfoldable pub before : List Segment → List Segment → Bool
before [] _ = false
before (s ∷ segments) [] = false
before (s ∷ segments) (t ∷ others) =
    let rest = before segments others in
    if ltb (rank s) (rank t) then true else rank s == rank t && rest

-- A handler, with the segments that have led to it and the values of their wildcards.
abbrev Found : Type 0 → Type 0
Found H = List Segment × H × List Bytes

module _ {H : Type 0} where
  abbrev first_of : Found H → Option (Found H) → Found H
  first_of found none = found
  first_of (segments, h, values) (some (segments', h', values')) =
      if before segments' segments then (segments', h', values') else (segments, h, values)

  abbrev add : List Segment → H → Option (List Bytes) → Option (Found H) → Option (Found H)
  add segments h none others = others
  add segments h (some values) others = some (first_of (segments, h, values) others)

  -- Among the patterns of one method.
  unfoldable pub find : List (Bytes × H) → Bytes → List Bytes → Option (Found H)
  unfolding before match_segments parse_pattern bytes_eq
  find [] method path = none
  find ((text, h) ∷ routes) method path =
      let pattern = parse_pattern text in
      let others = find routes method path in
      if bytes_eq pattern.method method
      then add pattern.segments h (match_segments pattern.segments path) others
      else others

  abbrev or_else : Option (Found H) → Option (Found H) → Option (Found H)
  or_else (some found) other = some found
  or_else none other = other

  abbrev handler_and_values : Option (Found H) → Option (H × List Bytes)
  handler_and_values none = none
  handler_and_values (some (segments, h, values)) = some (h, values)

  -- The handler of a request and the values of the path; HEAD may use the patterns of GET.
  unfoldable pub route : List (Bytes × H) → Bytes → Bytes → Option (H × List Bytes)
  unfolding find
  route routes method path =
      let segments = path_segments path in
      let of_get =
        if bytes_eq method (codes "HEAD") then find routes (codes "GET") segments else none in
      handler_and_values
        (or_else (find routes method segments) (or_else of_get (find routes [] segments)))
