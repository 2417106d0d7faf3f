-- ===== src/Proc/Life/Exit.antt =====
-- kernel/proc.c: what `exit` leaves to `init` and to the parent's `wait`.
use tdt4186_lab.Base.{
  Bool, ℕ, zero, suc, ◌+◌, ◌≤◌, ◌≡◌, ◌≢◌, ◌∙◌, inl, inr, refl, sym, true, false, ◌&&◌, none, some,
  [], ◌∷◌, ◌==◌, ltb, leb, if◌then◌else◌, get_elem?, ok, length, arith, Bool-cases, Option-cases,
}
use tdt4186_lab.Proc.{Proc, unused, zombie, Chan, at_proc, Procs, is_zombie, modify}
use tdt4186_lab.Proc.Table.{wakeup_from, wakeup, promote, count_down, Cpu, sched}
use tdt4186_lab.Proc.Table.Wakeup.{wakeup_exact, get_elem?-count_down, get_elem?-modify_self}
use tdt4186_lab.Proc.Life.{
  Kernel, parent_at, is_child, child_at, reparent_from, chan_of, closed, buried, exit, zombie_child,
  Waited, failed, reaped, wait, freeproc, freed,
}

-- `wakeup` changes no parent.
parent_at-wakeup_from :
    (me i : ℕ) (chan : Chan) (ps : Procs) (j : ℕ)
    → parent_at j (wakeup_from me i chan ps) ≡ parent_at j ps
unfolding wakeup
parent_at-wakeup_from me i chan [] j = refl
parent_at-wakeup_from me i chan (p ∷ ps) zero = ground arith
parent_at-wakeup_from me i chan (p ∷ ps) (suc j) = parent_at-wakeup_from me (i + 1) chan ps j

parent_at-modify :
    (i : ℕ) (f : Proc → Proc) (ps : Procs) (j : ℕ)
    → ((p : Proc) → (f p).parent ≡ p.parent)
    → parent_at j (modify i f ps) ≡ parent_at j ps
unfolding modify
parent_at-modify i f [] j h = refl
parent_at-modify zero f (p ∷ ps) zero h = h p
parent_at-modify zero f (p ∷ ps) (suc j) h = refl
parent_at-modify (suc i) f (p ∷ ps) zero h = refl
parent_at-modify (suc i) f (p ∷ ps) (suc j) h = parent_at-modify i f ps j h

promote_parent : (x : ℕ × ℕ) (p : Proc) → (promote x p).parent ≡ p.parent
unfolding sched
promote_parent (a, b) p = ground arith

parent_at-count_down :
    (seen : ℕ → Proc → ℕ × ℕ) (k : ℕ) (ps : Procs) (j : ℕ)
    → parent_at j (count_down seen k ps) ≡ parent_at j ps
unfolding count_down
parent_at-count_down seen k [] j = refl
parent_at-count_down seen k (p ∷ ps) zero = promote_parent (seen k p) p
parent_at-count_down seen k (p ∷ ps) (suc j) = parent_at-count_down seen (k + 1) ps j

abbrev given_to : ℕ → Proc → Proc
given_to init p = record p { parent = some init }

parent_at-given :
    (init me i : ℕ) (ps : Procs) (j : ℕ)
    → child_at me i ps ≡ true
    → parent_at j (modify i (given_to init) ps) ≡ (if j == i then some init else parent_at j ps)
unfolding modify
parent_at-given init me i [] j c = cc
parent_at-given init me zero (p ∷ ps) zero c = refl
parent_at-given init me zero (p ∷ ps) (suc j) c = ground arith
parent_at-given init me (suc i) (p ∷ ps) zero c = ground arith
parent_at-given init me (suc i) (p ∷ ps) (suc j) c = parent_at-given init me i ps j c ∙ ground arith

-- Of the slots from `i` on, the children of `me` have `init` for their parent.
parent_at-reparent_from :
    (init me left i : ℕ) (ps : Procs) (j : ℕ)
    → init ≢ me
    → parent_at j (reparent_from init me left i ps)
      ≡ (if (leb i j && ltb j (i + left)) && child_at me j ps then some init else parent_at j ps)
unfolding reparent_from
parent_at-reparent_from init me zero i ps j ne = ground arith
parent_at-reparent_from init me (suc left) i ps j ne = elim (Bool-cases (child_at me i ps)) [
  | inl child ↦ rw child (
      let qs = wakeup me (at_proc init) (modify i (given_to init) ps) in
      let here : parent_at j qs ≡ (if j == i then some init else parent_at j ps) =
        parent_at-wakeup_from me 0 (at_proc init) (modify i (given_to init) ps) j
        ∙ parent_at-given init me i ps j child in
      parent_at-reparent_from init me left (i + 1) qs j ne ∙ ground (arith, here, child, ne))
  | inr other ↦
      rw other (parent_at-reparent_from init me left (i + 1) ps j ne ∙ ground (arith, other))
]

parent_at_beyond : (ps : Procs) (j : ℕ) → length ps ≤ j → parent_at j ps ≡ none
parent_at_beyond [] j h = refl
parent_at_beyond (p ∷ ps) zero h = absurd (omega arith)
parent_at_beyond (p ∷ ps) (suc j) h = parent_at_beyond ps j (omega arith)

parent_at_of : (i : ℕ) (ps : Procs) {p : Proc} → get_elem? ps i ≡ some p → parent_at i ps ≡ p.parent
parent_at_of i [] e = cc
parent_at_of zero (p ∷ ps) e = ground arith
parent_at_of (suc i) (p ∷ ps) e = parent_at_of i ps e

-- A slot of the table.
abbrev Slot : Procs → ℕ → Type 0
Slot ps i = (p : Proc) × (get_elem? ps i ≡ some p)

Slot-modify : (i : ℕ) (f : Proc → Proc) (ps : Procs) (j : ℕ) → Slot ps j → Slot (modify i f ps) j
unfolding modify
Slot-modify i f [] j (p, e) = (p, e)
Slot-modify zero f (x ∷ ps) zero s = (f x, refl)
Slot-modify zero f (x ∷ ps) (suc j) s = s
Slot-modify (suc i) f (x ∷ ps) zero s = (x, refl)
Slot-modify (suc i) f (x ∷ ps) (suc j) s = Slot-modify i f ps j s

Slot-wakeup : (me : ℕ) (chan : Chan) (ps : Procs) (j : ℕ) → Slot ps j → Slot (wakeup me chan ps) j
Slot-wakeup me chan ps j (p, e) = let (q, f, _) = wakeup_exact me chan ps j e in (q, f)

Slot-reparent_from :
    (init me left i : ℕ) (ps : Procs) (j : ℕ) → Slot ps j → Slot (reparent_from init me left i ps) j
unfolding reparent_from
Slot-reparent_from init me zero i ps j s = s
Slot-reparent_from init me (suc left) i ps j s =
    Slot-reparent_from init me left (i + 1) _ j
      (elim (child_at me i ps)
        as (λ b.
          Slot (if b then wakeup me (at_proc init) (modify i (given_to init) ps) else ps) j) [
            | true ↦ Slot-wakeup me (at_proc init) _ j (Slot-modify i (given_to init) ps j s)
            | false ↦ s
          ])

promote-buried :
    (status : ℕ) (x : ℕ × ℕ) (p : Proc)
    → ((promote x (buried status p)).state ≡ zombie)
      × ((promote x (buried status p)).xstate ≡ status)
unfolding sched
promote-buried status (a, b) p = ground arith

-- What `exit` leaves behind.
pub record Exited (status me : ℕ) (k l : Kernel) : Type 0 where
  pub not_init : me ≢ k.initproc
  pub parents :
      (j : ℕ)
      → parent_at j l.procs
        ≡ (if child_at me j k.procs then some k.initproc else parent_at j k.procs)
  pub body : Proc
  pub there : get_elem? l.procs me ≡ some body
  pub zombie : body.state ≡ zombie
  pub result : body.xstate ≡ status
  pub initproc : l.initproc ≡ k.initproc

module _ (c : Cpu) (status me : ℕ) (k : Kernel) where
  abbrev open_none : Procs
  open_none = modify me closed k.procs

  abbrev adopted : Procs
  adopted = reparent_from k.initproc me (length open_none) 0 open_none

  abbrev told : Procs
  told = wakeup me (chan_of (parent_at me adopted)) adopted

  abbrev final : Procs
  final = count_down c.seen 0 (modify me (buried status) told)

  parent_at-adopted :
      (j : ℕ)
      → k.initproc ≢ me
      → parent_at j adopted
        ≡ (if child_at me j k.procs then some k.initproc else parent_at j k.procs)
  parent_at-adopted j ne =
      let same = parent_at-modify me closed k.procs j (λ p. refl) in
      parent_at-reparent_from k.initproc me (length open_none) 0 open_none j ne
      ∙ ground (arith, same, parent_at_beyond open_none j)

  parent_at-final : (j : ℕ) → parent_at j final ≡ parent_at j adopted
  unfolding wakeup
  parent_at-final j =
      parent_at-count_down c.seen 0 (modify me (buried status) told) j
      ∙ parent_at-modify me (buried status) told j (λ p. refl)
      ∙ parent_at-wakeup_from me 0 (chan_of (parent_at me adopted)) adopted j

  exit-final :
      {l : Kernel}
      → exit c status me k ≡ ok l
      → (me ≢ k.initproc) × (l ≡ record k { procs = final })
  unfolding exit
  exit-final e = ground (arith, e)

  -- A process that exits is not `init`; it is left as a zombie with its status, `init` has become
  -- the parent of exactly its children, and no other parent has changed.
  pub exit-Exited :
      {l : Kernel} {p : Proc}
      → get_elem? k.procs me ≡ some p
      → exit c status me k ≡ ok l
      → Exited status me k l
  exit-Exited {l} {p} e done =
      let (ne, l_is) = exit-final done in
      let (x, at_me) = Slot-wakeup me (chan_of (parent_at me adopted)) adopted me (
        Slot-reparent_from k.initproc me (length open_none) 0 open_none me
          (Slot-modify me closed k.procs me (p, e))) in
      let found = c.seen (0 + me) (buried status x) in
      let dead = promote-buried status found x in
      rw l_is (record {
        not_init = ne;
        parents = λ j. parent_at-final j ∙ parent_at-adopted j (λ q. ne (sym q));
        body = promote found (buried status x);
        there =
            get_elem?-count_down c.seen 0 _ me
              (get_elem?-modify_self me (buried status) told at_me);
        zombie = dead.0;
        result = dead.1;
        initproc = refl;
      })

zombie_child_complete :
    (w : ℕ) (ps : Procs) (i : ℕ) {p : Proc}
    → get_elem? ps i ≡ some p
    → (is_child w p && is_zombie p.state) ≡ true
    → (j : ℕ) × (zombie_child w ps ≡ some j)
unfolding zombie_child
zombie_child_complete w [] i e h = cc
zombie_child_complete w (x ∷ ps) zero e h = (0, ground (arith, e, h))
zombie_child_complete w (x ∷ ps) (suc i) e h =
    let (j, f) = zombie_child_complete w ps i e h in
    elim (Bool-cases (is_child w x && is_zombie x.state)) [
      | inl first ↦ (0, ground (arith, first))
      | inr later ↦ (suc j, ground (arith, later, f))
    ]

record Reapable (w : ℕ) (ps : Procs) (i : ℕ) : Type 0 where
  child : Proc
  there : get_elem? ps i ≡ some child
  of_parent : is_child w child ≡ true
  exited : is_zombie child.state ≡ true

zombie_child-Reapable : (w : ℕ) (ps : Procs) (i : ℕ) → zombie_child w ps ≡ some i → Reapable w ps i
unfolding zombie_child
zombie_child-Reapable w [] i e = cc
zombie_child-Reapable w (x ∷ ps) i e = elim (Bool-cases (is_child w x && is_zombie x.state)) [
  | inl first ↦
      let at_zero : i ≡ 0 = ground (arith, first, e) in
      rw at_zero
        (record { child = x; there = refl; of_parent = ground arith; exited = ground arith })
  | inr later ↦ elim (Option-cases (zombie_child w ps)) [
    | inl no_more ↦ ground (arith, later, no_more, e)
    | inr (j, found) ↦
        let r = zombie_child-Reapable w ps j found in
        let next : i ≡ suc j = ground (arith, later, found, e) in
        rw next
          (record { child = r.child; there = r.there; of_parent = r.of_parent; exited = r.exited })
  ]
]

-- What `wait` of process `w` did: it returned the pid of an exited child, whose slot is free now.
pub record Reaped (w : ℕ) (l : Kernel) (r : Waited) : Type 0 where
  pub index : ℕ
  pub child : Proc
  pub there : get_elem? l.procs index ≡ some child
  pub of_parent : is_child w child ≡ true
  pub exited : is_zombie child.state ≡ true
  pub free : Proc
  pub freed_there : get_elem? (freeproc index l).procs index ≡ some free
  pub unused_now : free.state ≡ unused
  pub returned : r ≡ reaped child.pid (freeproc index l)

-- What `wait` of process `w` did, by whether the child's status could not be copied out.
abbrev pub WaitEnds : (w : ℕ) → Kernel → (copy_fails : Bool) → Waited → Type 0
WaitEnds w l false r = Reaped w l r
WaitEnds w l true r = r ≡ failed l

-- Once a child has exited, its parent's `wait` does not block and does not report that there are no
-- children: it returns the pid of an exited child, and hands its slot back as unused; unless the
-- status is to be copied out and cannot be, in which case it returns -1 and changes nothing.
pub wait_after_exit :
    (c d : Cpu) (copy_fails : Bool) (status me w : ℕ) (k l : Kernel) {p : Proc}
    → get_elem? k.procs me ≡ some p
    → p.parent ≡ some w
    → w ≢ me
    → exit c status me k ≡ ok l
    → WaitEnds w l copy_fails (wait d copy_fails w l)
unfolding wait
wait_after_exit c d copy_fails status me w k l {p} e parent ne done =
    let x = exit-Exited c status me k e done in
    let mine : parent_at me k.procs ≡ some w = parent_at_of me k.procs e ∙ parent in
    let after : x.body.parent ≡ some w =
      sym (parent_at_of me l.procs x.there) ∙ x.parents me ∙ ground (arith, mine) in
    let (i, found) = zombie_child_complete w l.procs me x.there (ground (arith, after, x.zombie)) in
    let r = zombie_child-Reapable w l.procs i found in
    elim copy_fails as (λ b. WaitEnds w l b (wait d b w l)) [
      | true ↦ ground (arith, found)
      | false ↦ record {
        index = i;
        child = r.child;
        there = r.there;
        of_parent = r.of_parent;
        exited = r.exited;
        free = freed r.child;
        freed_there = get_elem?-modify_self i freed l.procs r.there;
        unused_now = refl;
        returned = ground (arith, found, r.there);
      }
    ]
