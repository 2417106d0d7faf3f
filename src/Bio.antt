-- ===== src/Bio.antt =====
-- kernel/bio.c: the buffer cache, with its list of buffers through `prev` and `next`.
--
-- A buffer is its index in `bcache.buf`, and `head` is the index behind the last one. Each part of
-- a function that holds `bcache.lock` is one step. `owner` is the pid that holds the sleep-lock of a
-- buffer, and `transfer` what `virtio_disk_rw(b, 0)` leaves in `b->data`.
pub mod Links
pub mod Ring
pub mod Search
pub mod Unique
pub mod Calls
mod Tests
use tdt4186_lab.Base.{
  ℕ, zero, suc, ◌+◌, ◌-◌, ◌^◌, ◌%◌, Bool, true, false, not, ◌&&◌, ◌==◌, if◌then◌else◌, Option, none,
  some, update, Result, ok, panic,
}

-- `NBUF`, that is `MAXOPBLOCKS * 3`, and `&bcache.head`.
abbrev pub num_buf : ℕ
num_buf = 30

abbrev pub head : ℕ
head = num_buf

pub record Buf : Type 0 where
  pub valid : Bool
  pub dev : ℕ
  pub blockno : ℕ
  pub refcnt : ℕ
  pub owner : Option ℕ
  pub content : ℕ → ℕ

pub record Cache : Type 0 where
  pub buf : ℕ → Buf
  pub next : ℕ → ℕ
  pub prev : ℕ → ℕ

abbrev pub modify : ℕ → (Buf → Buf) → Cache → Cache
modify b f c = record c { buf = update c.buf b (f (c.buf b)) }

-- `b->next->prev = b->prev; b->prev->next = b->next`
pub unlink : ℕ → Cache → Cache
unlink b c =
    let back : ℕ → ℕ = update c.prev (c.next b) (c.prev b) in
    record c { prev = back; next = update c.next (back b) (c.next b) }

-- `b->next = head.next; b->prev = &head; head.next->prev = b; head.next = b`
pub push_front : ℕ → Cache → Cache
push_front b c =
    let on : ℕ → ℕ = update c.next b (c.next head) in
    record c { prev = update (update c.prev b head) (on head) b; next = update on head b }

-- The loop of `binit`, for the buffers from `b` on.
pub link_from : (left b : ℕ) → Cache → Cache
unfolding push_front
link_from zero b c = c
link_from (suc left) b c =
    link_from left (b + 1) (push_front b (modify b (λ f. record f { owner = none }) c))

pub binit : Cache → Cache
unfolding link_from
binit c =
    link_from num_buf 0
      (record c { prev = update c.prev head head; next = update c.next head head })

-- A loop along `step` from `b` on, to the first buffer that passes the test; `none` at the head.
-- The list has `num_buf` buffers, so `left` rounds are enough.
unfoldable pub find_along : (ℕ → ℕ) → (ℕ → Bool) → (left b : ℕ) → Option ℕ
find_along step test zero b = none
find_along step test (suc left) b =
    let rest = find_along step test left (step b) in
    if b == head then none else if test b then some b else rest

abbrev pub caches : (dev blockno : ℕ) → Cache → ℕ → Bool
caches dev blockno c b = (c.buf b).dev == dev && (c.buf b).blockno == blockno

abbrev pub is_spare : Cache → ℕ → Bool
is_spare c b = (c.buf b).refcnt == 0

abbrev pub recycled : (dev blockno : ℕ) → Buf → Buf
recycled dev blockno f = record f { dev = dev; blockno = blockno; valid = false; refcnt = 1 }

-- What `bget` does with the buffer that has the block, or else with the one to recycle.
abbrev pub got : (dev blockno : ℕ) → Cache → (hit spare : Option ℕ) → Result (ℕ × Cache)
got dev blockno c (some b) spare =
    ok (b, modify b (λ f. record f { refcnt = (f.refcnt + 1) % 2 ^ 32 }) c)
got dev blockno c none (some b) = ok (b, modify b (recycled dev blockno) c)
got dev blockno c none none = panic "bget: no buffers"

-- `bget` up to its `acquiresleep`.
pub bget : (dev blockno : ℕ) → Cache → Result (ℕ × Cache)
unfolding find_along
bget dev blockno c =
    got dev blockno c (find_along c.next (caches dev blockno c) num_buf (c.next head))
      (find_along c.prev (is_spare c) num_buf (c.prev head))

-- `acquiresleep(&b->lock)` when the lock is free; `none` where the caller sleeps.
pub lock_buf : (pid b : ℕ) → Cache → Option Cache
lock_buf pid b c = elim (c.buf b).owner [
  | none ↦ some (modify b (λ f. record f { owner = some pid }) c)
  | some p ↦ none
]

-- `bread` behind its `bget`, with the lock held.
pub fill : (transfer : ℕ → ℕ → ℕ → ℕ) → (b : ℕ) → Cache → Cache
fill transfer b c =
    let f = c.buf b in
    if f.valid
    then c
    else modify b (λ g. record g { valid = true; content = transfer f.dev f.blockno }) c

abbrev pub holds : Option ℕ → ℕ → Bool
holds none pid = false
holds (some p) pid = p == pid

-- `brelse` by the process `pid`.
pub brelse : (pid b : ℕ) → Cache → Result Cache
unfolding unlink push_front
brelse pid b c =
    if not (holds (c.buf b).owner pid)
    then panic "brelse"
    else let freed =
        modify b (λ f. record f { owner = none; refcnt = (f.refcnt + 2 ^ 32 - 1) % 2 ^ 32 }) c in
      ok (if (freed.buf b).refcnt == 0 then push_front b (unlink b freed) else freed)

pub bpin : ℕ → Cache → Cache
bpin b c = modify b (λ f. record f { refcnt = (f.refcnt + 1) % 2 ^ 32 }) c

pub bunpin : ℕ → Cache → Cache
bunpin b c = modify b (λ f. record f { refcnt = (f.refcnt + 2 ^ 32 - 1) % 2 ^ 32 }) c
