-- ===== src/Log/Commit.antt =====
-- kernel/log.c: `commit` against a power failure at any of its block writes.
use tdt4186_lab.Base.{
  ℕ, ◌-◌, ◌<◌, ◌≡◌, ◌≢◌, ◌∙◌, ap, sym, ◌⊎◌, inl, inr, refl, false, List, [], ◌∷◌, arith,
  if◌then◌else◌, length, has, update,
}
use tdt4186_lab.Log.{
  Block, Disk, Machine, get_header, put_header, write_head, clear_header, write_log, install_trans,
  commit_blocks, commit_if, commit,
}
use tdt4186_lab.Log.Header.{get_header-put_header}
use tdt4186_lab.Log.Ends.{Ensures, returns, bind, mono, bwrite-Ensures}
use tdt4186_lab.Log.Logged.{
  IsHome, IsTransaction, SameLog, logged, header, recovered, logged_same, logged_again,
}
use tdt4186_lab.Log.WriteLog.{Wrote, write_log_from-Wrote}
use tdt4186_lab.Log.Install.{install_from-Installed}

module _ (start size : ℕ) where
  pub record HeadWritten (s t : Machine) : Type 0 where
    pub head : header start t.disk ≡ s.lh
    pub others : (b : ℕ) → b ≢ start → (t.disk b ≡ s.disk b) × (t.view b ≡ s.view b)
    pub lh : t.lh ≡ s.lh
    pub pins : t.pins ≡ s.pins

  pub write_head-HeadWritten :
      (s : Machine) → Ensures (HeadWritten s) (λ d. d ≡ s.disk) (write_head start s)
  unfolding write_head
  write_head-HeadWritten s =
      let block = put_header s.lh (s.view start) in
      mono (bwrite-Ensures start (record s { view = update s.view start block }))
        (λ t (disk, view, lh, pins, _). record {
          head =
              ap (λ f. get_header (f start)) disk
              ∙ ap get_header (ground arith)
              ∙ get_header-put_header s.lh (s.view start);
          others = λ b n. (ap (λ f. f b) disk ∙ ground arith, ap (λ f. f b) view ∙ ground arith);
          lh = lh;
          pins = pins;
        })
        (λ d p. p.0)

  -- The contents of the blocks outside the log once the transaction is in effect.
  abbrev pub updated : Machine → ℕ → Block
  updated s b = if has b s.lh then s.view b else s.disk b

  pub record IsReady (s : Machine) : Type 0 where
    pub clear : header start s.disk ≡ []
    pub transaction : IsTransaction start size s.lh

  pub record Committed (s t : Machine) : Type 0 where
    pub home : (b : ℕ) → IsHome start size b → (t.disk b ≡ updated s b) × (t.view b ≡ s.view b)
    pub clear : header start t.disk ≡ []
    pub lh : t.lh ≡ []
    pub pins : (b : ℕ) → t.pins b ≡ (if has b s.lh then s.pins b - 1 else s.pins b)

  -- After the crash a recovery finds all of the transaction or nothing of it.
  pub record Atomic (s : Machine) (d : Disk) : Type 0 where
    pub transaction : IsTransaction start size (header start d)
    pub whole :
        ((b : ℕ) → IsHome start size b → recovered start d b ≡ s.disk b)
        ⊎ ((b : ℕ) → IsHome start size b → recovered start d b ≡ updated s b)

  module _ {s : Machine} (ready : IsReady s) where
    crash_before :
        (d : Disk)
        → header start d ≡ []
        → ((b : ℕ) → IsHome start size b → d b ≡ s.disk b)
        → Atomic s d
    unfolding logged
    crash_before d e h = record {
      transaction = rw e (record { homes = tt; distinct = tt; fits = omega arith });
      whole = inl (λ b i. rw e (h b i));
    }

    crash_after :
        (d : Disk)
        → header start d ≡ s.lh
        → ((b : ℕ) → IsHome start size b → logged start s.lh 0 d b ≡ updated s b)
        → Atomic s d
    crash_after d e h = record {
      transaction = rw e ready.transaction;
      whole = inr (λ b i. rw e (h b i));
    }

    -- After `write_log` and `write_head`: the header commits to the transaction.
    record Sealed (u : Machine) : Type 0 where
      head : header start u.disk ≡ s.lh
      stands : (b : ℕ) → IsHome start size b → logged start s.lh 0 u.disk b ≡ updated s b
      synced : SameLog start 0 (length s.lh) u.view u.disk
      view : (b : ℕ) → IsHome start size b → u.view b ≡ s.view b
      lh : u.lh ≡ s.lh
      pins : u.pins ≡ s.pins

    -- After `install_trans(0)`: the blocks are in place, and the header is still there.
    record Applied (v : Machine) : Type 0 where
      head : header start v.disk ≡ s.lh
      disk : (b : ℕ) → IsHome start size b → v.disk b ≡ updated s b
      stands : (b : ℕ) → IsHome start size b → logged start s.lh 0 v.disk b ≡ updated s b
      view : (b : ℕ) → IsHome start size b → v.view b ≡ s.view b
      pins : (b : ℕ) → v.pins b ≡ (if has b s.lh then s.pins b - 1 else s.pins b)

    fits : length s.lh < size
    fits = ready.transaction.fits

    write_log-Wrote : Ensures (Wrote start size 0 s.lh s) (Atomic s) (write_log start s)
    unfolding write_log
    write_log-Wrote =
        mono
          (write_log_from-Wrote start size 0 s.lh s ready.transaction.homes (omega (arith, fits)))
          (λ t w. w)
          (λ d k.
            crash_before d (ap get_header (k start (omega arith)) ∙ ready.clear)
              (λ b h. k b (omega (arith, fits))))

    write_head-Sealed :
        {t : Machine} → Wrote start size 0 s.lh s t → Ensures Sealed (Atomic s) (write_head start t)
    write_head-Sealed {t} w =
        let home : (b : ℕ) → IsHome start size b → (t.disk b ≡ s.disk b) × (t.view b ≡ s.view b) =
          λ b h. w.spared b (omega (arith, fits)) in
        mono (write_head-HeadWritten t)
          (λ u h. record {
            head = h.head ∙ w.lh;
            stands = λ b i.
                logged_same start s.lh 0 u.disk t.disk b (λ c p q. (h.others c (omega arith)).0)
                  (h.others b (omega arith)).0
                ∙ w.stands b i;
            synced = λ b p q.
                (h.others b (omega arith)).1 ∙ w.synced b p q ∙ sym (h.others b (omega arith)).0;
            view = λ b i. (h.others b (omega arith)).1 ∙ (home b i).1;
            lh = h.lh ∙ w.lh;
            pins = h.pins ∙ w.pins;
          })
          (λ d e.
            crash_before d
              (ap (header start) e ∙ ap get_header (w.spared start (omega arith)).0 ∙ ready.clear)
              (λ b i. ap (λ f. f b) e ∙ (home b i).0))

    install-Applied :
        {u : Machine} → Sealed u → Ensures Applied (Atomic s) (install_trans start false u)
    unfolding install_trans
    install-Applied {u} k = simp (k.lh) (
        mono
          (install_from-Installed start size false 0 s.lh u ready.transaction.homes
            ready.transaction.distinct (omega (arith, fits)) k.synced)
          (λ v i. record {
            head = ap get_header (i.region start (omega arith) (omega arith)) ∙ k.head;
            disk = λ b h. i.disk b h ∙ k.stands b h;
            stands = λ b h.
                logged_again start s.lh 0 v.disk u.disk b
                  (λ c p q. i.region c (omega arith) (omega (arith, fits))) (i.disk b h)
                ∙ k.stands b h;
            view = λ b h. ground (arith, i.view b h, i.disk b h, k.stands b h, k.view b h);
            pins = λ b. i.pins b ∙ ap (λ f. if has b s.lh then f b - 1 else f b) k.pins;
          })
          (λ d i.
            crash_after d (ap get_header (i.region start (omega arith) (omega arith)) ∙ k.head)
              (λ b h. i.stands b h ∙ k.stands b h)))

    write_head-Committed :
        {v : Machine}
        → Applied v
        → Ensures (Committed s) (Atomic s) (write_head start (clear_header v))
    write_head-Committed {v} k =
        mono (write_head-HeadWritten (clear_header v))
          (λ t h. record {
            home = λ b i. (
              (h.others b (omega arith)).0 ∙ k.disk b i,
              (h.others b (omega arith)).1 ∙ k.view b i,
            );
            clear = h.head;
            lh = h.lh;
            pins = λ b. ap (λ f. f b) h.pins ∙ k.pins b;
          })
          (λ d e.
            crash_after d (ap (header start) e ∙ k.head)
              (λ b i. ap (λ f. logged start s.lh 0 f b) e ∙ k.stands b i))

    commit_blocks-Committed : Ensures (Committed s) (Atomic s) (commit_blocks start s)
    unfolding commit_blocks
    commit_blocks-Committed = bind write_log-Wrote λ t w.
        bind (write_head-Sealed w) λ u k. bind (install-Applied k) λ v a. write_head-Committed a

  commit_if-Committed :
      (l : List ℕ) {s : Machine}
      → s.lh ≡ l
      → IsReady s
      → Ensures (Committed s) (Atomic s) (commit_if start l s)
  unfolding commit_if
  commit_if-Committed [] e ready = returns (record {
    home = λ b h. (ground arith, refl);
    clear = ready.clear;
    lh = e;
    pins = λ b. ground arith;
  })
  commit_if-Committed (x ∷ xs) e ready = commit_blocks-Committed ready

  -- However many block writes there is power for: if `commit` returns, every block of the
  -- transaction is on the disk with its cached contents, every other block outside the log is as
  -- it was, the header is empty and the logged buffers are unpinned once; if power fails, a
  -- recovery finds either all old contents or all new ones, and a well-formed header.
  pub commit-Atomic : (s : Machine) → IsReady s → Ensures (Committed s) (Atomic s) (commit start s)
  unfolding commit
  commit-Atomic s ready = commit_if-Committed s.lh refl ready
