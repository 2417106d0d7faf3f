-- ===== src/Log/Install.antt =====
-- kernel/log.c: `install_trans` carries out what the log holds.
use tdt4186_lab.Base.{
  ℕ, ◌+◌, ◌-◌, ◌≤◌, ◌<◌, ◌≡◌, ◌∙◌, ap, sym, refl, Bool, true, false, List, [], ◌∷◌, arith, ◌==◌,
  if◌then◌else◌, length, has, All, Distinct,
}
use tdt4186_lab.Log.{Disk, Machine, copy_block, bunpin, install_from}
use tdt4186_lab.Log.Ends.{Ensures, returns, bind, mono, bwrite-Ensures}
use tdt4186_lab.Log.Logged.{IsHome, SameLog, logged, logged_same, logged_of_not_has}

module _ (start size : ℕ) where
  abbrev pub SameRegion : Disk → Disk → Type 0
  SameRegion d e = (b : ℕ) → start ≤ b → b < start + size → d b ≡ e b

  -- `install_trans(0)` unpins each installed block.
  abbrev pub unpinned : Bool → List ℕ → Machine → ℕ → ℕ
  unpinned true bs s b = s.pins b
  unpinned false bs s b = if has b bs then s.pins b - 1 else s.pins b

  pub record Installed (recovering : Bool) (tail : ℕ) (bs : List ℕ) (s t : Machine) : Type 0 where
    pub region : SameRegion t.disk s.disk
    pub region_view : SameRegion t.view s.view
    pub disk : (b : ℕ) → IsHome start size b → t.disk b ≡ logged start bs tail s.disk b
    pub view : (b : ℕ) → IsHome start size b → t.view b ≡ (if has b bs then t.disk b else s.view b)
    pub lh : t.lh ≡ s.lh
    pub pins : (b : ℕ) → t.pins b ≡ unpinned recovering bs s b

  pub record Partly (tail : ℕ) (bs : List ℕ) (s : Machine) (d : Disk) : Type 0 where
    pub region : SameRegion d s.disk
    pub stands :
        (b : ℕ) → IsHome start size b → logged start bs tail d b ≡ logged start bs tail s.disk b

  abbrev pub after_write : Bool → ℕ → Machine → Machine
  after_write recovering x t = if recovering then t else bunpin x t

  -- At the crash or at the end, the disk still stands for the same blocks.
  pub install_from-Installed :
      (recovering : Bool) (tail : ℕ) (bs : List ℕ) (s : Machine)
      → All (IsHome start size) bs
      → Distinct bs
      → tail + length bs < size
      → SameLog start tail (length bs) s.view s.disk
      → Ensures
          (Installed recovering tail bs s)
          (Partly tail bs s)
          (install_from start recovering tail bs s)
  unfolding install_from logged bunpin
  install_from-Installed recovering tail [] s homes apart fits synced = returns (record {
    region = λ b p q. refl;
    region_view = λ b p q. refl;
    disk = λ b h. refl;
    view = λ b h. refl;
    lh = refl;
    pins = λ b. ground arith;
  })
  install_from-Installed recovering tail (x ∷ xs) s homes apart fits synced =
      bind
        (mono (bwrite-Ensures x (copy_block x (start + tail + 1) s)) (λ t p. p)
          (λ d p. record {
            region = λ b l r. ap (λ f. f b) (p.0);
            stands = λ b h. ap (λ f. logged start (x ∷ xs) tail f b) (p.0);
          }))
        λ t (disk, view, lh, pins, _).
          let from = start + tail + 1 in
          let disk_at : (b : ℕ) → t.disk b ≡ (if b == x then s.view from else s.disk b) =
            λ b. ap (λ f. f b) disk ∙ ground arith in
          let view_at : (b : ℕ) → t.view b ≡ (if b == x then s.view from else s.view b) =
            λ b. ap (λ f. f b) view in
          let u = after_write recovering x t in
          let disk_of : (b : ℕ) → u.disk b ≡ t.disk b = λ b. ground arith in
          let view_of : (b : ℕ) → u.view b ≡ t.view b = λ b. ground arith in
          let lh_of : u.lh ≡ t.lh = ground arith in
          let region : SameRegion u.disk s.disk = λ b p q. ground (arith, disk_of b, disk_at b) in
          let region_view : SameRegion u.view s.view =
            λ b p q. ground (arith, view_of b, view_at b) in
          let log : SameLog start (tail + 1) (length xs) u.disk s.disk =
            λ b p q. region b (omega arith) (omega arith) in
          let rest : (b : ℕ)
              → (b == x) ≡ false
              → logged start xs (tail + 1) u.disk b ≡ logged start xs (tail + 1) s.disk b =
            λ b n.
              logged_same start xs (tail + 1) u.disk s.disk b log
                (ground (arith, disk_of b, disk_at b)) in
          mono
            (install_from-Installed recovering (tail + 1) xs u homes.1 apart.1 (omega arith)
              (λ b p q.
                region_view b (omega arith) (omega arith)
                ∙ synced b (omega arith) (omega arith)
                ∙ sym (region b (omega arith) (omega arith))))
            (λ v w. record {
              region = λ b p q. w.region b p q ∙ region b p q;
              region_view = λ b p q. w.region_view b p q ∙ region_view b p q;
              disk = λ b h. ground (
                arith,
                w.disk b h,
                rest b,
                disk_of b,
                disk_at b,
                logged_of_not_has start xs (tail + 1) u.disk b,
                synced from (omega arith) (omega arith),
              );
              view = λ b h. ground (
                arith,
                w.disk b h,
                w.view b h,
                view_of b,
                disk_of b,
                disk_at b,
                view_at b,
                logged_of_not_has start xs (tail + 1) u.disk b,
              );
              lh = w.lh ∙ lh_of ∙ lh;
              pins = λ b. ground (arith, w.pins b, ap (λ f. f b) pins, ap (λ f. f x) pins);
            })
            (λ d k. record {
              region = λ b p q. k.region b p q ∙ region b p q;
              stands = λ b h. ground (
                arith,
                k.stands b h,
                rest b,
                k.region from (omega arith) (omega arith),
                region from (omega arith) (omega arith),
              );
            })
