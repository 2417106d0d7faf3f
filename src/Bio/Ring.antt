-- ===== src/Bio/Ring.antt =====
-- kernel/bio.c: the list of all buffers, from the head around to the head.
use tdt4186_lab.Base.{
  has-append, ℕ, zero, suc, ◌+◌, ◌-◌, ◌≤◌, ◌≡◌, refl, ap, ◌∙◌, true, false, ◌==◌, if◌then◌else◌,
  List, [], ◌∷◌, ◌++◌, has, Distinct, update, arith, ltb, none, Result, ok, ◌^◌, ◌%◌, Bool-cases,
  inl, inr,
}
use tdt4186_lab.Bio.{
  Cache, Buf, head, num_buf, modify, unlink, push_front, link_from, binit, brelse, holds,
}
use tdt4186_lab.Bio.Links.{Links, Links-frame, Links-unlink, Distinct-append}

pub record IsRing (c : Cache) (xs : List ℕ) : Type 0 where
  pub links : Links c.next c.prev head xs head
  pub distinct : Distinct (head ∷ xs)

abbrev pub erase : ℕ → List ℕ → List ℕ
erase b [] = []
erase b (x ∷ xs) = if x == b then xs else x ∷ erase b xs

abbrev pub move_front : ℕ → List ℕ → List ℕ
move_front b xs = b ∷ erase b xs

split_at :
    (b : ℕ) (xs : List ℕ)
    → has b xs ≡ true
    → (ys : List ℕ) × (zs : List ℕ) × (xs ≡ ys ++ b ∷ zs) × (erase b xs ≡ ys ++ zs)
split_at b [] h = cc
split_at b (x ∷ xs) h = elim (Bool-cases (x == b)) [
  | inl e ↦ let same : x ≡ b = ground arith in ([], xs, ap (λ y. y ∷ xs) same, rw e)
  | inr e ↦
      let (ys, zs, p, q) = split_at b xs (ground arith) in
      (x ∷ ys, zs, ap (◌∷◌ x) p, rw e (ap (◌∷◌ x) q))
]

pub push_front-IsRing :
    (c : Cache) (b : ℕ) (xs : List ℕ)
    → IsRing c xs
    → has b (head ∷ xs) ≡ false
    → IsRing (push_front b c) (b ∷ xs)
unfolding push_front
push_front-IsRing c b [] r fresh = record {
  links = ground (arith, r.links);
  distinct = ground (arith, r.distinct);
}
push_front-IsRing c b (x ∷ xs) r fresh =
    let (e, f, l) = r.links in
    let (n, (m, d)) = r.distinct in
    let on : ℕ → ℕ = update c.next b (c.next head) in
    let first : on head ≡ x = ground (arith, e) in
    let head_out : has x (head ∷ xs) ≡ false = ground (arith, n, m) in
    let first_out : has (on head) (head ∷ xs) ≡ false =
      ap (λ u. has u (head ∷ xs)) first ∙ head_out in
    let inner =
      Links-frame c.next c.prev x xs head b b (c.next head) head (ground arith) (ground arith) l in
    let outer =
      Links-frame on (update c.prev b head) x xs head head (on head) b b (ground arith) first_out
        inner in
    record {
      links =
          (ground arith, ground (arith, first), (ground (arith, e), ground (arith, first), outer));
      distinct = (ground arith, (ground arith, (m, d)));
    }

unlink-IsRing :
    (c : Cache) (b : ℕ) (xs : List ℕ)
    → IsRing c xs
    → has b xs ≡ true
    → IsRing (unlink b c) (erase b xs) × (has b (head ∷ erase b xs) ≡ false)
unfolding unlink
unlink-IsRing c b xs r h =
    let (ys, zs, p, q) = split_at b xs h in
    let d : Distinct (head ∷ ys ++ b ∷ zs) = rw p at r.distinct in
    let l : Links c.next c.prev head (ys ++ b ∷ zs) head = rw p at r.links in
    let back : update c.prev (c.next b) (c.prev b) b ≡ c.prev b = ground arith in
    let (out_ys, out_zs, d') = Distinct-append (head ∷ ys) b zs d in
    rw q (
      record {
        links = rw back (Links-unlink c.next c.prev head ys b zs head d d.0 l);
        distinct = d';
      },
      ground (arith, out_ys, out_zs, has-append b ys zs),
    )

abbrev pub countdown : ℕ → List ℕ
countdown zero = []
countdown (suc n) = n ∷ countdown n

pub has-countdown : (b n : ℕ) → has b (countdown n) ≡ ltb b n
has-countdown b zero = ground arith
has-countdown b (suc n) = ground (arith, has-countdown b n)

link_from-IsRing :
    (left b : ℕ) (c : Cache)
    → left + b ≤ num_buf
    → IsRing c (countdown b)
    → IsRing (link_from left b c) (countdown (left + b))
unfolding link_from
link_from-IsRing zero b c fits r = let same : 0 + b ≡ b = omega arith in rw same r
link_from-IsRing (suc left) b c fits r =
    let d = modify b (λ f. record f { owner = none }) c in
    let r' : IsRing d (countdown b) = record { links = r.links; distinct = r.distinct } in
    let fresh : has b (head ∷ countdown b) ≡ false = ground (arith, has-countdown b b) in
    let pushed : IsRing (push_front b d) (countdown (suc b)) =
      push_front-IsRing d b (countdown b) r' fresh in
    let next : b + 1 ≡ suc b = omega arith in
    let all : left + suc b ≡ suc left + b = omega arith in
    rw (next, ← all) (link_from-IsRing left (suc b) (push_front b d) (omega arith) pushed)

-- Whatever the memory held before, `binit` makes the pointers a list of all 30 buffers.
pub binit-IsRing : (c : Cache) → IsRing (binit c) (countdown num_buf)
unfolding binit
binit-IsRing c =
    let empty : Cache = record c {
      prev = update c.prev head head;
      next = update c.next head head;
    } in
    link_from-IsRing num_buf 0 empty (omega arith)
      record { links = ground arith; distinct = ground arith }

abbrev let_go : Buf → Buf
let_go f = record f { owner = none; refcnt = (f.refcnt + 2 ^ 32 - 1) % 2 ^ 32 }

pub record Released (b : ℕ) (xs : List ℕ) (c : Cache) (result : Result Cache) : Type 0 where
  pub after : Cache
  pub returns : result ≡ ok after
  pub bufs : after.buf ≡ update c.buf b (let_go (c.buf b))
  pub ring : IsRing after (if (after.buf b).refcnt == 0 then move_front b xs else xs)

-- `brelse` by the holder of a buffer in the list returns, drops the lock and one reference of that
-- buffer and changes nothing else of any buffer; with the last reference the buffer moves to the
-- front of the list, and the list keeps its order otherwise.
pub brelse-Released :
    (pid b : ℕ) {xs : List ℕ} {c : Cache}
    → IsRing c xs
    → has b xs ≡ true
    → holds (c.buf b).owner pid ≡ true
    → Released b xs c (brelse pid b c)
unfolding brelse
brelse-Released pid b {xs} {c} r h mine =
    let d = modify b let_go c in
    let r' : IsRing d xs = record { links = r.links; distinct = r.distinct } in
    elim (Bool-cases ((d.buf b).refcnt == 0)) [
      | inl e ↦
          let (out, fresh) = unlink-IsRing d b xs r' h in
          record {
            after = push_front b (unlink b d);
            returns = ground (arith, mine, e);
            bufs = refl;
            ring = rw e (push_front-IsRing (unlink b d) b (erase b xs) out fresh);
          }
      | inr e ↦ record { after = d; returns = ground (arith, mine, e); bufs = refl; ring = rw e r' }
    ]
