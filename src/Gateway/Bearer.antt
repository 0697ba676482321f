-- ===== src/Gateway/Bearer.antt =====
-- What `bearer_token` of src/bin/client_gateway.rs finds in a header.
use mathlib.Core.Path.{ap₂}
use capycoin.Base.{
  ℕ, zero, suc, ◌≡◌, refl, ◌↔◌, inl, inr, Bool, true, false, Option, none, some, List, [], ◌∷◌,
  ◌++◌, arith, if◌then◌else◌, Bool-cases, ◌∙◌, sym, ap,
}
use capycoin.Gateway.Token.{bearer, starts_with, onto_first, split, second_of_two, bearer_token}

-- The text "Bearer " occurs somewhere.
abbrev pub contains : List ℕ → Bool
contains [] = false
contains (c ∷ s) = let rest = contains s in if starts_with bearer (c ∷ s) then true else rest

-- A text without it is one part.
absent_step :
    (b : Bool) (c : ℕ) (s : List ℕ)
    → (if b then true else contains s) ≡ false
    → (contains s ≡ false → split 0 s ≡ s ∷ [])
    → (if b then [] ∷ split 6 s else onto_first c (split 0 s)) ≡ (c ∷ s) ∷ []
absent_step true c s h k = cc
absent_step false c s h k = ap (onto_first c) (k h)

split_absent : (s : List ℕ) → contains s ≡ false → split 0 s ≡ s ∷ []
unfolding split
split_absent [] h = refl
split_absent (c ∷ s) h = absent_step (starts_with bearer (c ∷ s)) c s h (split_absent s)

-- A text with it has at least two parts.
abbrev IsParts : List (List ℕ) → Type 0
IsParts [] = ⊥
IsParts (a ∷ parts) = Unit

abbrev IsMany : List (List ℕ) → Type 0
IsMany [] = ⊥
IsMany (a ∷ parts) = IsParts parts

onto_first-IsParts : (c : ℕ) (parts : List (List ℕ)) → IsParts (onto_first c parts)
onto_first-IsParts c [] = tt
onto_first-IsParts c (a ∷ parts) = tt

onto_first-IsMany : (c : ℕ) (parts : List (List ℕ)) → IsMany parts → IsMany (onto_first c parts)
onto_first-IsMany c [] h = absurd h
onto_first-IsMany c (a ∷ parts) h = h

IsParts-step :
    (b : Bool) (c : ℕ) (found rest : List (List ℕ))
    → IsParts (if b then [] ∷ found else onto_first c rest)
IsParts-step true c found rest = tt
IsParts-step false c found rest = onto_first-IsParts c rest

split-IsParts : (skip : ℕ) (s : List ℕ) → IsParts (split skip s)
unfolding split
split-IsParts skip [] = tt
split-IsParts (suc skip) (c ∷ s) = split-IsParts skip s
split-IsParts zero (c ∷ s) = IsParts-step (starts_with bearer (c ∷ s)) c (split 6 s) (split 0 s)

present_step :
    (b : Bool) (c : ℕ) (s : List ℕ)
    → (if b then true else contains s) ≡ true
    → (contains s ≡ true → IsMany (split 0 s))
    → IsMany (if b then [] ∷ split 6 s else onto_first c (split 0 s))
present_step true c s h k = split-IsParts 6 s
present_step false c s h k = onto_first-IsMany c (split 0 s) (k h)

split-IsMany : (s : List ℕ) → contains s ≡ true → IsMany (split 0 s)
unfolding split
split-IsMany [] h = cc
split-IsMany (c ∷ s) h = present_step (starts_with bearer (c ∷ s)) c s h (split-IsMany s)

-- After an empty first part there is no second one, if the others are many.
second_of_many : (parts : List (List ℕ)) → IsMany parts → second_of_two ([] ∷ parts) ≡ none
second_of_many [] h = absurd h
second_of_many (a ∷ []) h = absurd h
second_of_many (a ∷ b ∷ parts) h = refl

starts_with-eq :
    (pattern s : List ℕ) → starts_with pattern s ≡ true → (t : List ℕ) × (s ≡ pattern ++ t)
starts_with-eq [] s h = (s, refl)
starts_with-eq (p ∷ pattern) [] h = cc
starts_with-eq (p ∷ pattern) (c ∷ s) h =
    let (t, same) = starts_with-eq pattern s (ground arith) in
    let first : c ≡ p = ground arith in (t, ap₂ ◌∷◌ first same)

-- The header's value after "Bearer ".
bearer_token-bearer :
    (t : List ℕ) → bearer_token (some (bearer ++ t)) ≡ (if contains t then none else some t)
unfolding bearer_token split
bearer_token-bearer t = elim (Bool-cases (contains t)) [
  | inl present ↦ rw present (second_of_many (split 0 t) (split-IsMany t present))
  | inr absent ↦ rw absent (ap (λ parts. second_of_two ([] ∷ parts)) (split_absent t absent))
]

starts_of :
    (b : Bool) (o : Option (List ℕ)) (token : List ℕ)
    → (if b then o else none) ≡ some token
    → b ≡ true
starts_of true o token h = refl
starts_of false o token h = cc

absent_of :
    (b : Bool) (t token : List ℕ)
    → (if b then none else some t) ≡ some token
    → (b ≡ false) × (t ≡ token)
absent_of true t token h = cc
absent_of false t token h = (refl, cc)

bearer_token-starts :
    (value token : List ℕ)
    → bearer_token (some value) ≡ some token
    → starts_with bearer value ≡ true
unfolding bearer_token
bearer_token-starts value token h =
    starts_of (starts_with bearer value) (second_of_two (split 0 value)) token h

-- The token of a header is what follows "Bearer " at its start, if that has no other "Bearer " in it.
pub bearer_token_iff :
    (value token : List ℕ)
    → (bearer_token (some value) ≡ some token)
      ↔ ((value ≡ bearer ++ token) × (contains token ≡ false))
bearer_token_iff value token = (forth, back)
  where
    back :
        (value ≡ bearer ++ token) × (contains token ≡ false)
        → bearer_token (some value) ≡ some token
    back (is_value, absent) = rw is_value (bearer_token-bearer token ∙ rw absent refl)

    forth :
        bearer_token (some value) ≡ some token
        → (value ≡ bearer ++ token) × (contains token ≡ false)
    forth h =
        let (t, is_value) = starts_with-eq bearer value (bearer_token-starts value token h) in
        let found : (if contains t then none else some t) ≡ some token =
          sym (bearer_token-bearer t) ∙ (ap (λ v. bearer_token (some v)) (sym is_value) ∙ h) in
        let (absent, same) = absent_of (contains t) t token found in
        (rw (← same) is_value, rw (← same) absent)
