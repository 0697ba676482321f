-- ===== src/Base/Members.antt =====
-- A Boolean test that each element of a list passes.
use mathlib.Core.List.{
  List, [], ◌∷◌, ◌++◌, map, Mem, Perm, mem-cons, mem-append, mem-map_of_mem, not-mem-nil,
}
use mathlib.Core.List.Perm
use mathlib.Core.Logic.Or
use mathlib.Core.Bool.{Bool, true, Bool-set}
use mathlib.Core.Path.{◌≡◌, ◌∙◌, ap}
use capycoin.Base.Filter.{filter, mem-filter}

module _ {ℓ} {A : Type ℓ} (p : A → Bool) where
  abbrev pub Each : List A → Type ℓ
  Each xs = (x : A) → Mem x xs → p x ≡ true

  pub Each-nil : Each []
  Each-nil x m = absurd (not-mem-nil m)

  pub Each-cons : (x : A) (xs : List A) → p x ≡ true → Each xs → Each (x ∷ xs)
  Each-cons x xs h k y m =
      Or.elim (Bool-set _ _) (mem-cons.0 m) (λ e. ap p e ∙ h) (λ later. k y later)

  pub Each-append : (xs ys : List A) → Each xs → Each ys → Each (xs ++ ys)
  Each-append xs ys h k y m =
      Or.elim (Bool-set _ _) (mem-append.0 m) (λ first. h y first) (λ later. k y later)

  pub Each-Perm : (xs ys : List A) → Perm xs ys → Each ys → Each xs
  Each-Perm xs ys same h y m = h y ((Perm.mem_iff same).0 m)

  pub Each-filter : (q : A → Bool) (xs : List A) → Each xs → Each (filter q xs)
  Each-filter q xs h y m = h y ((mem-filter q y xs).0 m).0

-- A test of the images.
pub Each-map {ℓ κ} :
    {A : Type ℓ} {B : Type κ} (p : B → Bool) (f : A → B) (xs : List A)
    → Each p (map f xs)
    → Each (λ x. p (f x)) xs
Each-map p f xs h y m = h (f y) (mem-map_of_mem f m)
