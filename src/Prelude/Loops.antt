-- ===== src/Prelude/Loops.antt =====
-- `for (k = i; k < i + n; k++) s = work k s;`, with its invariant rule.
use hcmut_os_ossim_sierra.Prelude.{ℕ, zero, suc, ◌+◌, ◌≤◌, ◌<◌, ◌≡◌, arith}

unfoldable pub for_range {ℓ} : {S : Type ℓ} → ℕ → ℕ → (ℕ → S → S) → S → S
for_range zero i work s = s
for_range (suc n) i work s = for_range n (suc i) work (work i s)

pub for_range_inv {ℓ κ} :
    {S : Type ℓ} (P : ℕ → S → Type κ) (work : ℕ → S → S) (n i j : ℕ) (s : S)
    → i + n ≡ j
    → ((k : ℕ) (t : S) → i ≤ k → k < j → P k t → P (suc k) (work k t))
    → P i s
    → P j (for_range n i work s)
unfolding for_range
for_range_inv P work zero i j s e keep h = let e' : i ≡ j = omega arith in rw (← e') h
for_range_inv P work (suc n) i j s e keep h =
    for_range_inv P work n (suc i) j (work i s) (omega arith) (λ k t p q. keep k t (omega arith) q)
      (keep i s (omega arith) (omega arith) h)
