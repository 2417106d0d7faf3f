-- ===== src/Log/Restart.antt =====
-- kernel/log.c: restarts until a recovery is through, after a crash in `commit`.
use tdt4186_lab.Base.{ℕ, ◌≡◌, ◌∙◌, ◌⊎◌, inl, inr, List, [], ◌∷◌}
use tdt4186_lab.Log.{Block, Disk, Machine, Run, done, crash, boot, recover_from_log, commit}
use tdt4186_lab.Log.Ends.{Ensures, returns, fails}
use tdt4186_lab.Log.Logged.{IsHome, header, recovered}
use tdt4186_lab.Log.Commit.{IsReady, Committed, Atomic, updated, commit-Atomic}
use tdt4186_lab.Log.Recovery.{SameMeaning, Recovered, recover_from_log-Recovered}

module _ (start : ℕ) where
  -- The machine is switched on again and again, with power for `ps` block writes in turn, until a
  -- recovery returns.
  unfoldable pub recover_all : List ℕ → Disk → Run
  recover_all [] d = crash d
  recover_all (p ∷ ps) d = elim (recover_from_log start (boot p d)) [
    | done t ↦ done t
    | crash e ↦ recover_all ps e
  ]

  -- A commit, and if power fails during it, the restarts that follow.
  unfoldable pub commit_and_restart : List ℕ → Machine → Run
  unfolding recover_all
  commit_and_restart ps s = elim (commit start s) [ done t ↦ done t | crash d ↦ recover_all ps d ]

module _ (start size : ℕ) where
  -- The file system has all of the transaction or nothing of it, and the log is empty.
  pub record Whole (s t : Machine) : Type 0 where
    pub clear : header start t.disk ≡ []
    pub lh : t.lh ≡ []
    pub whole :
        ((b : ℕ) → IsHome start size b → t.disk b ≡ s.disk b)
        ⊎ ((b : ℕ) → IsHome start size b → t.disk b ≡ updated start size s b)

  pub recover_all-Whole :
      (ps : List ℕ) (s : Machine) (d : Disk)
      → Atomic start size s d
      → Ensures (Whole s) (Atomic start size s) (recover_all start ps d)
  unfolding recover_all
  recover_all-Whole [] s d a = fails a
  recover_all-Whole (p ∷ ps) s d a =
      go (recover_all-Whole ps s) (recover_from_log-Recovered start size p d a.transaction)
    where
      carried :
          {f : ℕ → Block}
          → ((b : ℕ) → IsHome start size b → f b ≡ recovered start d b)
          → ((b : ℕ) → IsHome start size b → f b ≡ s.disk b)
            ⊎ ((b : ℕ) → IsHome start size b → f b ≡ updated start size s b)
      carried e = elim a.whole [
        | inl old ↦ inl (λ b h. e b h ∙ old b h)
        | inr new ↦ inr (λ b h. e b h ∙ new b h)
      ]

      go :
          {r : Run}
          → ((e : Disk)
              → Atomic start size s e
              → Ensures (Whole s) (Atomic start size s) (recover_all start ps e))
          → Ensures (Recovered start size d) (SameMeaning start size d) r
          → Ensures
              (Whole s)
              (Atomic start size s)
              (elim r [ done t ↦ done t | crash e ↦ recover_all start ps e ])
      go ih (returns r) =
          returns (record { clear = r.clear; lh = r.lh; whole = carried (λ b h. (r.home b h).0) })
      go ih (fails {d = e} m) =
          ih e (record { transaction = m.transaction; whole = carried m.home })

  -- Whatever power there is for the commit and for each restart: the run ends with an empty log
  -- and either every block of the transaction at its home or none of them, and no other block
  -- changed; or the last restart too lost power, on a disk from which the next one can go on.
  pub commit_and_restart-Atomic :
      (ps : List ℕ) (s : Machine)
      → IsReady start size s
      → Ensures (Whole s) (Atomic start size s) (commit_and_restart start ps s)
  unfolding commit_and_restart
  commit_and_restart-Atomic ps s ready = go (commit-Atomic start size s ready)
    where
      go :
          {r : Run}
          → Ensures (Committed start size s) (Atomic start size s) r
          → Ensures
              (Whole s)
              (Atomic start size s)
              (elim r [ done t ↦ done t | crash d ↦ recover_all start ps d ])
      go (returns c) =
          returns (record { clear = c.clear; lh = c.lh; whole = inr (λ b h. (c.home b h).0) })
      go (fails {d} a) = recover_all-Whole ps s d a
