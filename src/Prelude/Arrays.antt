-- ===== src/Prelude/Arrays.antt =====
-- C arrays as functions from the index. The bound of an array is checked where it is used.
use Prim.Native.Nat.{ℕ, zero, suc}
use mathlib.Core.Path.{◌≡◌}
use mathlib.Core.Logic.{◌≢◌, inl, inr}
use mathlib.Core.List.{List, [], ◌∷◌}
use native.Mathlib.Omega.{arith}
use hcmut_os_ossim_sierra.Prelude.Tests.{◌==◌, if◌then◌else◌, Bool-cases}

module _ {ℓ} {A : Type ℓ} where
  -- `a[i] = v`
  abbrev pub update : (ℕ → A) → ℕ → A → ℕ → A
  update a i v j = if j == i then v else a j

  pub update_self : (a : ℕ → A) (i : ℕ) (v : A) → update a i v i ≡ v
  update_self a i v = ground arith

  pub update_ne : (a : ℕ → A) (i j : ℕ) (v : A) → j ≢ i → update a i v j ≡ a j
  update_ne a i j v h = ground arith

  pub update_cases {κ} :
      (P : A → Type κ) (a : ℕ → A) (i : ℕ) (v : A) (j : ℕ) → P v → P (a j) → P (update a i v j)
  update_cases P a i v j hv ha = elim (Bool-cases (j == i)) [ inl e ↦ rw e hv | inr e ↦ rw e ha ]

  -- The entries `a[i .. i + n)`, in order.
  abbrev pub slice : (ℕ → A) → ℕ → ℕ → List A
  slice a i zero = []
  slice a i (suc n) = a i ∷ slice a (suc i) n
