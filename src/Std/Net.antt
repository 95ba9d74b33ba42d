-- ===== src/Std/Net.antt =====
-- net: `SplitHostPort`, the host of an address, and `JoinHostPort`.
pub mod Joined
use paste_thek4n_ru.Prelude.{
  ℕ, Bool, true, false, not, ◌&&◌, ◌||◌, ◌==◌, List, [], ◌∷◌, ◌++◌, Option, none, some,
  if◌then◌else◌,
}
use paste_thek4n_ru.Prelude.Bytes.{Bytes, elem}

-- What stands before the first byte `c`, and what stands after it.
unfoldable pub cut : ℕ → Bytes → Option (Bytes × Bytes)
cut c [] = none
cut c (b ∷ s) =
    let rest = cut c s in
    if b == c then some ([], s) else elim rest [ some (h, t) ↦ some (b ∷ h, t) | none ↦ none ]

-- The same of the last byte `c`.
unfoldable pub cut_last : ℕ → Bytes → Option (Bytes × Bytes)
cut_last c [] = none
cut_last c (b ∷ s) = elim (cut_last c s) [
  | some (h, t) ↦ some (b ∷ h, t)
  | none ↦ if b == c then some ([], s) else none
]

-- A colon, and no colon after it.
abbrev ends_address : Bytes → Bool
ends_address [] = false
ends_address (b ∷ port) = (b == 58) && not (elem 58 port)

-- An address that begins with a bracket, which is left out.
unfoldable pub split_bracketed : Bytes → Option Bytes
unfolding cut elem
split_bracketed s = elim (cut 93 s) [
  | none ↦ none
  | some (host, after) ↦
      if ends_address after && not (elem 91 s) && not (elem 93 after) then some host else none
]

unfoldable pub split_plain : Bytes → Option Bytes
unfolding cut_last elem
split_plain s = elim (cut_last 58 s) [
  | none ↦ none
  | some (host, port) ↦ if elem 58 host || elem 91 s || elem 93 s then none else some host
]

-- The host; `none` when Go returns an error.
unfoldable pub split_host_port : Bytes → Option Bytes
unfolding split_bracketed split_plain
split_host_port [] = none
split_host_port (b ∷ s) = if b == 91 then split_bracketed s else split_plain (b ∷ s)

unfoldable pub join_host_port : Bytes → Bytes → Bytes
unfolding elem
join_host_port host port =
    if elem 58 host then (91 ∷ host) ++ (93 ∷ 58 ∷ port) else host ++ (58 ∷ port)
