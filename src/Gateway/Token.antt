-- ===== src/Gateway/Token.antt =====
-- `bearer_token` of src/bin/client_gateway.rs: the token in the header of a request.
use capycoin.Base.{
  ℕ, zero, suc, Bool, true, false, ◌&&◌, Option, none, some, List, [], ◌∷◌, ◌==◌, if◌then◌else◌,
}

-- "Bearer "
abbrev pub bearer : List ℕ
bearer = b'B' ∷ b'e' ∷ b'a' ∷ b'r' ∷ b'e' ∷ b'r' ∷ b' ' ∷ []

-- `value.starts_with(pattern)`
abbrev pub starts_with : List ℕ → List ℕ → Bool
starts_with [] s = true
starts_with (p ∷ pattern) [] = false
starts_with (p ∷ pattern) (c ∷ s) = (p == c) && starts_with pattern s

-- Puts a character at the start of the first part.
abbrev pub onto_first : ℕ → List (List ℕ) → List (List ℕ)
onto_first c [] = (c ∷ []) ∷ []
onto_first c (part ∷ parts) = (c ∷ part) ∷ parts

-- `value.split("Bearer ")`: the parts between the occurrences, from left to right. `skip` counts the
-- characters of an occurrence that are still to come.
unfoldable pub split : ℕ → List ℕ → List (List ℕ)
split skip [] = [] ∷ []
split (suc skip) (c ∷ s) = split skip s
split zero (c ∷ s) =
    let found = split 6 s in
    let rest = split zero s in if starts_with bearer (c ∷ s) then [] ∷ found else onto_first c rest

-- `parts.len() != 2`, and the second part.
abbrev pub second_of_two : List (List ℕ) → Option (List ℕ)
second_of_two (first ∷ token ∷ []) = some token
second_of_two _ = none

-- The argument is the value of the header `Authorization`, if there is one.
unfoldable pub bearer_token : Option (List ℕ) → Option (List ℕ)
bearer_token none = none
bearer_token (some value) = if starts_with bearer value then second_of_two (split 0 value) else none
