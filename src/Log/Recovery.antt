-- ===== src/Log/Recovery.antt =====
-- kernel/log.c: `recover_from_log` after a crash, and crashes during the recovery itself.
use tdt4186_lab.Base.{ℕ, ◌≡◌, ◌∙◌, ap, refl, true, [], arith}
use tdt4186_lab.Log.{
  Disk, Machine, boot, get_header, clear_header, install_trans, read_head, recover_from_log,
}
use tdt4186_lab.Log.Ends.{Ensures, bind, mono}
use tdt4186_lab.Log.Logged.{
  IsHome, IsTransaction, logged, header, recovered, logged_again, logged_of_not_has,
}
use tdt4186_lab.Log.Install.{install_from-Installed}
use tdt4186_lab.Log.Commit.{write_head-HeadWritten}

module _ (start size : ℕ) where
  -- `e` stands for the same file system as `d`.
  pub record SameMeaning (d e : Disk) : Type 0 where
    pub transaction : IsTransaction start size (header start e)
    pub home : (b : ℕ) → IsHome start size b → recovered start e b ≡ recovered start d b

  -- The log has been carried out and is empty.
  pub record Recovered (d : Disk) (t : Machine) : Type 0 where
    pub clear : header start t.disk ≡ []
    pub home :
        (b : ℕ)
        → IsHome start size b
        → (t.disk b ≡ recovered start d b) × (t.view b ≡ recovered start d b)
    pub lh : t.lh ≡ []

  -- `recover_from_log` on a disk whose header is well formed either returns with every block
  -- outside the log as the log prescribes, in memory and on the disk, and an empty log, or loses
  -- power with a disk that stands for the same blocks and is as well formed.
  pub recover_from_log-Recovered :
      (power : ℕ) (d : Disk)
      → IsTransaction start size (header start d)
      → Ensures (Recovered d) (SameMeaning d) (recover_from_log start (boot power d))
  unfolding recover_from_log read_head install_trans
  recover_from_log-Recovered power d tx =
      let bs = header start d in
      let s = read_head start (boot power d) in
      bind
        (mono
          (install_from-Installed start size true 0 bs s tx.homes tx.distinct
            (omega (arith, tx.fits)) (λ b p q. refl))
          (λ t i. i)
          (λ e k.
            let same : header start e ≡ bs =
              ap get_header (k.region start (omega arith) (omega arith)) in
            record { transaction = rw same tx; home = λ b h. rw same (k.stands b h) }))
        λ t i.
          mono (write_head-HeadWritten start size (clear_header t))
            (λ u h. record {
              clear = h.head;
              home = λ b p. (
                (h.others b (omega arith)).0 ∙ i.disk b p,
                (h.others b (omega arith)).1
                    ∙ ground (arith, i.view b p, i.disk b p, logged_of_not_has start bs 0 d b),
              );
              lh = h.lh;
            })
            (λ e q.
              let same : header start e ≡ bs =
                ap (header start) q ∙ ap get_header (i.region start (omega arith) (omega arith)) in
              record {
                transaction = rw same tx;
                home = λ b p. rw same (
                    ap (λ f. logged start bs 0 f b) q
                    ∙ logged_again start bs 0 t.disk d b
                        (λ c l r. i.region c (omega arith) (omega (arith, tx.fits))) (i.disk b p));
              })
