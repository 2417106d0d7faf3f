-- ===== src/Log/Progress.antt =====
-- kernel/log.c: with power for all of their block writes, `commit` and the recovery return.
use tdt4186_lab.Base.{
  ℕ, suc, ◌+◌, ◌*◌, ◌≤◌, ◌<◌, ◌≡◌, ◌∙◌, ap, refl, Bool, true, false, List, [], ◌∷◌, arith, length,
  if◌then◌else◌, update,
}
use tdt4186_lab.Log.{
  Disk, Machine, boot, bwrite, bunpin, copy_block, write_log_from, write_log, install_from,
  install_trans, read_head, write_head, clear_header, recover_from_log, commit_blocks, commit_if,
  commit, put_header,
}
use tdt4186_lab.Log.Ends.{Ensures, returns, bind, mono, bwrite-Ensures}
use tdt4186_lab.Log.Logged.{header}

-- `n` block writes were made, and the power was there.
abbrev Spent : ℕ → Machine → Machine → Type 0
Spent n s t = (t.power + n ≡ s.power) × (t.lh ≡ s.lh)

-- The block writes of `commit`: two for each logged block and two for the header.
abbrev pub writes : List ℕ → ℕ
writes [] = 0
writes (x ∷ xs) = 2 * length (x ∷ xs) + 2

module _ (start : ℕ) where
  bwrite-Spent : (b : ℕ) (s : Machine) → 0 < s.power → Ensures (Spent 1 s) (λ d. ⊥) (bwrite b s)
  bwrite-Spent b s h =
      mono (bwrite-Ensures b s) (λ t (_, _, lh, _, power). (power, lh)) (λ d p. omega (arith, p.1))

  write_log_from-Spent :
      (tail : ℕ) (bs : List ℕ) (s : Machine)
      → length bs ≤ s.power
      → Ensures (Spent (length bs) s) (λ d. ⊥) (write_log_from start tail bs s)
  unfolding write_log_from
  write_log_from-Spent tail [] s h = returns (omega arith, refl)
  write_log_from-Spent tail (x ∷ xs) s h =
      bind (bwrite-Spent (start + tail + 1) (copy_block (start + tail + 1) x s) (omega arith))
        λ t (power, lh).
          mono (write_log_from-Spent (tail + 1) xs t (omega arith))
            (λ u (p, l). (omega arith, l ∙ lh)) (λ d e. e)

  install_from-Spent :
      (recovering : Bool) (tail : ℕ) (bs : List ℕ) (s : Machine)
      → length bs ≤ s.power
      → Ensures (Spent (length bs) s) (λ d. ⊥) (install_from start recovering tail bs s)
  unfolding install_from bunpin
  install_from-Spent recovering tail [] s h = returns (omega arith, refl)
  install_from-Spent recovering tail (x ∷ xs) s h =
      bind (bwrite-Spent x (copy_block x (start + tail + 1) s) (omega arith)) λ t (power, lh).
        let u = if recovering then t else bunpin x t in
        let kept : (u.power ≡ t.power) × (u.lh ≡ t.lh) = ground arith in
        mono (install_from-Spent recovering (tail + 1) xs u (omega (arith, kept.0)))
          (λ v (p, l). (omega (arith, kept.0), l ∙ kept.1 ∙ lh)) (λ d e. e)

  write_head-Spent : (s : Machine) → 0 < s.power → Ensures (Spent 1 s) (λ d. ⊥) (write_head start s)
  unfolding write_head
  write_head-Spent s h =
      bwrite-Spent start (record s { view = update s.view start (put_header s.lh (s.view start)) })
        h

  -- `recover_from_log` makes one block write for each logged block and one for the header, and
  -- returns when there is power for these.
  pub recover_from_log_returns :
      (power : ℕ) (d : Disk)
      → length (header start d) < power
      → Ensures
          (λ t. t.power + (length (header start d) + 1) ≡ power)
          (λ e. ⊥)
          (recover_from_log start (boot power d))
  unfolding recover_from_log read_head install_trans
  recover_from_log_returns power d h =
      bind
        (install_from-Spent true 0 (header start d) (read_head start (boot power d)) (omega arith))
        λ t (p, l).
          mono (write_head-Spent (clear_header t) (omega arith)) (λ u (q, _). omega arith)
            (λ e f. f)

  commit_blocks-Spent :
      (s : Machine)
      → 2 * length s.lh + 2 ≤ s.power
      → Ensures (λ t. t.power + (2 * length s.lh + 2) ≡ s.power) (λ d. ⊥) (commit_blocks start s)
  unfolding commit_blocks write_log install_trans
  commit_blocks-Spent s h = bind (write_log_from-Spent 0 s.lh s (omega arith)) λ t (p, l).
      bind (write_head-Spent t (omega arith)) λ u (q, m).
        let n : length u.lh ≡ length s.lh = ap length (m ∙ l) in
        bind (install_from-Spent false 0 u.lh u (omega arith)) λ v (r, _).
          mono (write_head-Spent (clear_header v) (omega arith)) (λ x (w, _). omega arith)
            (λ d e. e)

  -- `commit` writes each logged block twice and the header twice, none at all for an empty
  -- transaction, and returns when there is power for these.
  pub commit_returns :
      (s : Machine)
      → writes s.lh ≤ s.power
      → Ensures (λ t. t.power + writes s.lh ≡ s.power) (λ d. ⊥) (commit start s)
  unfolding commit
  commit_returns s = go s.lh s refl
    where
      go :
          (l : List ℕ) (s : Machine)
          → s.lh ≡ l
          → writes l ≤ s.power
          → Ensures (λ t. t.power + writes l ≡ s.power) (λ d. ⊥) (commit_if start l s)
      go [] s e h = returns (omega arith)
      go (x ∷ xs) s e h =
          let n : length s.lh ≡ suc (length xs) = ap length e in
          mono (commit_blocks-Spent s (omega arith)) (λ t p. omega arith) (λ d f. f)
