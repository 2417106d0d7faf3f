-- ===== src/Log/WriteLog.antt =====
-- kernel/log.c: `write_log` copies the modified blocks into the log.
use tdt4186_lab.Base.{
  ℕ, ◌+◌, ◌≤◌, ◌<◌, ◌≡◌, ◌∙◌, ap, ◌⊎◌, refl, List, [], ◌∷◌, arith, ◌==◌, if◌then◌else◌, length, has,
  All,
}
use tdt4186_lab.Log.{Disk, Machine, copy_block, write_log_from}
use tdt4186_lab.Log.Ends.{Ensures, returns, bind, mono, bwrite-Ensures}
use tdt4186_lab.Log.Logged.{IsHome, logged}

module _ (start : ℕ) where
  -- A block that `write_log_from tail bs` does not write.
  abbrev pub Spared : ℕ → ℕ → ℕ → Type 0
  Spared tail n b = (b ≤ start + tail) ⊎ (start + tail + n < b)

  abbrev pub KeptOutside : ℕ → ℕ → Disk → Disk → Type 0
  KeptOutside tail n d e = (b : ℕ) → Spared tail n b → d b ≡ e b

module _ (start size : ℕ) where
  pub record Wrote (tail : ℕ) (bs : List ℕ) (s t : Machine) : Type 0 where
    pub spared :
        (b : ℕ) → Spared start tail (length bs) b → (t.disk b ≡ s.disk b) × (t.view b ≡ s.view b)
    pub synced : (b : ℕ) → start + tail < b → b ≤ start + tail + length bs → t.view b ≡ t.disk b
    pub stands :
        (b : ℕ)
        → IsHome start size b
        → logged start bs tail t.disk b ≡ (if has b bs then s.view b else s.disk b)
    pub lh : t.lh ≡ s.lh
    pub pins : t.pins ≡ s.pins

  -- Running the loop: what the log stands for is the view of the logged blocks.
  pub write_log_from-Wrote :
      (tail : ℕ) (bs : List ℕ) (s : Machine)
      → All (IsHome start size) bs
      → tail + length bs < size
      → Ensures
          (Wrote tail bs s)
          (λ d. KeptOutside start tail (length bs) d s.disk)
          (write_log_from start tail bs s)
  unfolding write_log_from logged
  write_log_from-Wrote tail [] s homes fits = returns (record {
    spared = λ b h. (refl, refl);
    synced = λ b p q. absurd (omega arith);
    stands = λ b h. refl;
    lh = refl;
    pins = refl;
  })
  write_log_from-Wrote tail (x ∷ xs) s homes fits =
      bind
        (mono (bwrite-Ensures (start + tail + 1) (copy_block (start + tail + 1) x s)) (λ t p. p)
          (λ d p b h. ground (arith, p.0)))
        λ t (disk, view, lh, pins, _).
          let here = start + tail + 1 in
          let disk_at : (b : ℕ) → t.disk b ≡ (if b == here then s.view x else s.disk b) =
            λ b. ap (λ f. f b) disk ∙ ground arith in
          let view_at : (b : ℕ) → t.view b ≡ (if b == here then s.view x else s.view b) =
            λ b. ap (λ f. f b) view in
          mono (write_log_from-Wrote (tail + 1) xs t homes.1 (omega arith))
            (λ u w. record {
              spared = λ b h.
                  let old = w.spared b (omega arith) in
                  (ground (arith, disk_at b, old), ground (arith, view_at b, old));
              synced = λ b p q.
                  ground
                    (arith, w.synced b, w.spared here (omega arith), disk_at here, view_at here);
              stands = λ b h. ground (
                arith,
                w.stands b h,
                w.spared here (omega arith),
                disk_at here,
                disk_at b,
                view_at b,
              );
              lh = w.lh ∙ lh;
              pins = w.pins ∙ pins;
            })
            (λ d k b h. k b (omega arith) ∙ ground (arith, disk_at b))
