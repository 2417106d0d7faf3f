-- ===== src/Log/Ends.antt =====
-- kernel/log.c: what holds however a run ends, by returning or by losing power.
use tdt4186_lab.Base.{ℕ, zero, suc, refl, arith, ◌+◌, ◌≡◌, update}
use tdt4186_lab.Log.{Disk, Machine, Run, done, crash, and_then, bwrite}

pub data Ensures (Q : Machine → Type 0) (C : Disk → Type 0) : Run → Type 0 where
  returns : {s : Machine} → Q s → Ensures Q C (done s)
  fails : {d : Disk} → C d → Ensures Q C (crash d)

module _ {C : Disk → Type 0} {P Q : Machine → Type 0} where
  pub bind :
      {r : Run} {k : Machine → Run}
      → Ensures P C r
      → ((s : Machine) → P s → Ensures Q C (k s))
      → Ensures Q C (and_then r k)
  bind (returns p) next = next _ p
  bind (fails c) next = fails c

pub mono :
    {C D : Disk → Type 0} {P Q : Machine → Type 0} {r : Run}
    → Ensures P C r
    → ((s : Machine) → P s → Q s)
    → ((d : Disk) → C d → D d)
    → Ensures Q D r
mono (returns p) f g = returns (f _ p)
mono (fails c) f g = fails (g _ c)

-- `bwrite b` loses power with the disk as it was, or changes block `b` of the disk and nothing else
-- but the power that is left.
pub bwrite-Ensures :
    (b : ℕ) (s : Machine)
    → Ensures
        (λ t.
          (t.disk ≡ update s.disk b (s.view b))
          × (t.view ≡ s.view)
          × (t.lh ≡ s.lh)
          × (t.pins ≡ s.pins)
          × (t.power + 1 ≡ s.power))
        (λ d. (d ≡ s.disk) × (s.power ≡ 0))
        (bwrite b s)
unfolding bwrite
bwrite-Ensures b s = go s.power refl
  where
    go :
        (p : ℕ)
        → s.power ≡ p
        → Ensures
            (λ t.
              (t.disk ≡ update s.disk b (s.view b))
              × (t.view ≡ s.view)
              × (t.lh ≡ s.lh)
              × (t.pins ≡ s.pins)
              × (t.power + 1 ≡ s.power))
            (λ d. (d ≡ s.disk) × (s.power ≡ 0))
            (elim p [
              | zero ↦ crash s.disk
              | suc q ↦ done (record s { disk = update s.disk b (s.view b); power = q })
            ])
    go zero e = fails (refl, e)
    go (suc q) e = returns (refl, refl, refl, refl, omega arith)
