-- ===== src/Tests/Suite.antt =====
-- Concrete surroundings for the repository's unit tests.
use Prim.Native.String.{String}
use capycoin.Base.{
  ℕ, zero, suc, ◌≡◌, refl, true, some, List, [], ◌∷◌, ◌==◌, ==_iff, length, ◌∙◌, ap,
}
use capycoin.Auth.{Bcrypt}
use capycoin.Suite.Auth.{repeat}
use capycoin.Tests.Fixtures.{marks, size, size-marks}

abbrev first_byte : List ℕ → ℕ
first_byte [] = 0
first_byte (b ∷ bytes) = b

length-repeat : (n : ℕ) → length (repeat n 0) ≡ n
length-repeat zero = refl
length-repeat (suc n) = rw (length-repeat n) refl

-- A hash that keeps only the first byte.
abbrev first_marks : List ℕ → String
first_marks bytes = marks (repeat (first_byte bytes) 0)

verify_first : (bytes : List ℕ) → (size (first_marks bytes) == first_byte bytes) ≡ true
verify_first bytes =
    (==_iff (size (first_marks bytes)) (first_byte bytes)).1
      (size-marks (repeat (first_byte bytes) 0) ∙ length-repeat (first_byte bytes))

abbrev keeping : Bcrypt
keeping = record {
  hash = λ bytes salt. some (first_marks bytes);
  verify = λ bytes h. some (size h == first_byte bytes);
  verifies = λ bytes salt h e.
      let same : first_marks bytes ≡ h = cc in rw (← same) (ap (λ b. some b) (verify_first bytes));
}

abbrev random : ℕ → ℕ → ℕ
random zero j = 0
random (suc i) j = 1
