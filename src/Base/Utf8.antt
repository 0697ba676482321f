-- ===== src/Base/Utf8.antt =====
-- `std::str::from_utf8`: a `str` is a list of bytes that is well-formed UTF-8.
use capycoin.Base.{
  ℕ, ◌-◌, Bool, true, false, ◌&&◌, Option, none, some, List, [], ◌∷◌, ◌==◌, ltb, leb, if◌then◌else◌,
}

-- Between two characters, or inside one: the range of the next byte, and how many follow it.
pub data Place : Type 0 where
  between : Place
  inside : (low high more : ℕ) → Place

abbrev range : ℕ → ℕ → ℕ → Bool
range low high c = leb low c && leb c high

unfoldable pub advance : Place → ℕ → Option Place
advance between c =
    if ltb c 0x80
    then some between
    else if range 0xc2 0xdf c
    then some (inside 0x80 0xbf 0)
    else if c == 0xe0
    then some (inside 0xa0 0xbf 1)
    else if c == 0xed
    then some (inside 0x80 0x9f 1)
    else if range 0xe1 0xef c
    then some (inside 0x80 0xbf 1)
    else if c == 0xf0
    then some (inside 0x90 0xbf 2)
    else if range 0xf1 0xf3 c
    then some (inside 0x80 0xbf 2)
    else if c == 0xf4
    then some (inside 0x80 0x8f 2)
    else none
advance (inside low high more) c =
    if range low high c
    then if more == 0 then some between else some (inside 0x80 0xbf (more - 1))
    else none

unfoldable pub is_utf8_from : Place → List ℕ → Bool
is_utf8_from between [] = true
is_utf8_from (inside low high more) [] = false
is_utf8_from place (c ∷ s) = elim (advance place c) [
  | none ↦ false
  | some place' ↦ is_utf8_from place' s
]

unfoldable pub is_utf8 : List ℕ → Bool
is_utf8 s = is_utf8_from between s

unfoldable pub from_utf8 : List ℕ → Option (List ℕ)
from_utf8 s = if is_utf8 s then some s else none
