-- ===== src/Base/Filter.antt =====
-- `filter` by a Boolean test, and what it leaves.
use mathlib.Core.List.{List, [], ◌∷◌, Mem, Mem-prop, mem-cons, not-mem-nil}
use mathlib.Core.Logic.Or
use mathlib.Core.Logic.{◌↔◌, inl, inr}
use mathlib.Core.HLevel.{×_prop}
use mathlib.Core.Bool.{Bool, true, Bool-set}
use mathlib.Core.Path.{◌≡◌, ◌∙◌, ap}
use capycoin.Base.Tests.{if◌then◌else◌, Bool-cases}

module _ {ℓ} {A : Type ℓ} (p : A → Bool) where
  abbrev pub filter : List A → List A
  filter [] = []
  filter (x ∷ xs) = if p x then x ∷ filter xs else filter xs

  mem-filter_to : (a : A) (xs : List A) → Mem a (filter xs) → Mem a xs × (p a ≡ true)
  mem-filter_to a [] m = absurd (not-mem-nil m)
  mem-filter_to a (x ∷ xs) m = elim (Bool-cases (p x)) [
    | inl chosen ↦
        let m' : Mem a (x ∷ filter xs) = rw chosen at m in
        Or.elim (×_prop Mem-prop (Bool-set _ _)) (mem-cons.0 m')
          (λ e. (mem-cons.1 (Or.inl e), ap p e ∙ chosen))
          (λ later.
            let (in_xs, picked) = mem-filter_to a xs later in (mem-cons.1 (Or.inr in_xs), picked))
    | inr passed ↦
        let m' : Mem a (filter xs) = rw passed at m in
        let (in_xs, picked) = mem-filter_to a xs m' in (mem-cons.1 (Or.inr in_xs), picked)
  ]

  mem-filter_from : (a : A) (xs : List A) → Mem a xs → p a ≡ true → Mem a (filter xs)
  mem-filter_from a [] m h = absurd (not-mem-nil m)
  mem-filter_from a (x ∷ xs) m h = elim (Bool-cases (p x)) [
    | inl chosen ↦ rw chosen (
        Or.elim Mem-prop (mem-cons.0 m) (λ e. mem-cons.1 (Or.inl e))
          (λ later. mem-cons.1 (Or.inr (mem-filter_from a xs later h))))
    | inr passed ↦ rw passed (
        Or.elim Mem-prop (mem-cons.0 m) (λ e. cc (ap p e, h, passed))
          (λ later. mem-filter_from a xs later h))
  ]

  pub mem-filter : (a : A) (xs : List A) → Mem a (filter xs) ↔ (Mem a xs × (p a ≡ true))
  mem-filter a xs = (mem-filter_to a xs, λ h. mem-filter_from a xs h.0 h.1)
