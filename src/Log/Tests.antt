-- ===== src/Log/Tests.antt =====
-- kernel/log.c: a transaction of two blocks, and the theorems at it.
use tdt4186_lab.Base.{ℕ, ◌+◌, ◌≡◌, refl, List, [], ◌∷◌, arith, length, update}
use tdt4186_lab.Log.{
  Disk, Machine, Run, done, crash, boot, put_header, put_words, get_words, recover_from_log, commit,
}
use tdt4186_lab.Log.Ends.{Ensures}
use tdt4186_lab.Log.Logged.{header, IsTransaction}
use tdt4186_lab.Log.Commit.{IsReady, Committed, Atomic, commit-Atomic}
use tdt4186_lab.Log.Recovery.{SameMeaning, Recovered, recover_from_log-Recovered}
use tdt4186_lab.Log.Restart.{Whole, commit_and_restart, commit_and_restart-Atomic}
use tdt4186_lab.Log.Progress.{commit_returns}

abbrev zeros : Disk
zeros = λ b w. 0

-- Blocks 40 and 41 were changed in the cache and logged; the log is blocks 2 to 31.
abbrev pending : ℕ → Machine
pending power = record {
  disk = zeros;
  view = update (update zeros 40 (λ w. 7)) 41 (λ w. 8);
  pins = update (update (λ b. 0) 40 1) 41 1;
  power = power;
  lh = 40 ∷ 41 ∷ [];
}

pending-IsReady : (power : ℕ) → IsReady 2 30 (pending power)
unfolding get_words
pending-IsReady power = record { clear = refl; transaction = ground arith }

-- A disk whose header lists blocks 40 and 41, with their contents in the log.
abbrev interrupted : Disk
interrupted =
    update (update (update zeros 2 (put_header (40 ∷ 41 ∷ []) (λ w. 0))) 3 (λ w. 7)) 4 (λ w. 8)

interrupted-header : header 2 interrupted ≡ 40 ∷ 41 ∷ []
unfolding get_words put_words
interrupted-header = refl

interrupted-IsTransaction : IsTransaction 2 30 (header 2 interrupted)
interrupted-IsTransaction = rw interrupted-header (ground arith)

-- Power for three of the six writes: the header is on the disk, and nothing is installed yet.
abbrev words : Run → List ℕ
words (done t) = 1 ∷ t.disk 40 0 ∷ t.disk 41 0 ∷ t.power ∷ length t.lh ∷ []
words (crash d) = 0 ∷ d 40 0 ∷ d 41 0 ∷ d 2 0 ∷ []

commit_runs :
    (words (commit 2 (pending 2)) ≡ 0 ∷ 0 ∷ 0 ∷ 0 ∷ [])
    × (words (commit 2 (pending 3)) ≡ 0 ∷ 0 ∷ 0 ∷ 2 ∷ [])
    × (words (commit 2 (pending 6)) ≡ 1 ∷ 7 ∷ 8 ∷ 0 ∷ 0 ∷ [])
    × (words (commit_and_restart 2 (1 ∷ 2 ∷ 5 ∷ []) (pending 3)) ≡ 1 ∷ 7 ∷ 8 ∷ 2 ∷ 0 ∷ [])
    × (words (commit_and_restart 2 (1 ∷ []) (pending 2)) ≡ 1 ∷ 0 ∷ 0 ∷ 0 ∷ 0 ∷ [])
unfolding commit commit_and_restart recover_from_log put_words get_words
commit_runs = (refl, refl, refl, refl, refl)

commit-Atomic_example :
    Ensures (Committed 2 30 (pending 3)) (Atomic 2 30 (pending 3)) (commit 2 (pending 3))
commit-Atomic_example = commit-Atomic 2 30 (pending 3) (pending-IsReady 3)

recover_from_log-Recovered_example :
    Ensures
      (Recovered 2 30 interrupted)
      (SameMeaning 2 30 interrupted)
      (recover_from_log 2 (boot 1 interrupted))
recover_from_log-Recovered_example =
    recover_from_log-Recovered 2 30 1 interrupted interrupted-IsTransaction

commit_and_restart-Atomic_example :
    Ensures
      (Whole 2 30 (pending 3))
      (Atomic 2 30 (pending 3))
      (commit_and_restart 2 (1 ∷ 5 ∷ []) (pending 3))
commit_and_restart-Atomic_example =
    commit_and_restart-Atomic 2 30 (1 ∷ 5 ∷ []) (pending 3) (pending-IsReady 3)

commit_returns_example : Ensures (λ t. t.power + 6 ≡ 6) (λ d. ⊥) (commit 2 (pending 6))
commit_returns_example = commit_returns 2 (pending 6) (omega arith)
