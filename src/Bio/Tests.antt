-- ===== src/Bio/Tests.antt =====
-- kernel/bio.c: a process that reads a block through the cache, and the theorems about it.
use tdt4186_lab.Base.{ℕ, ◌≡◌, refl, false, none, List, [], ◌∷◌, ok, panic, Result, arith}
use tdt4186_lab.Bio.{Cache, num_buf, binit, bget}
use tdt4186_lab.Bio.Ring.{IsRing, countdown, binit-IsRing}
use tdt4186_lab.Bio.Search.{found, bget_lem}
use tdt4186_lab.Bio.Unique.{InOrder}
use tdt4186_lab.Bio.Calls.{Event, get, lock, read, release, run, cache-InOrder}

abbrev blank : Cache
blank = record {
  buf = λ i. record {
    valid = false;
    dev = 0;
    blockno = 0;
    refcnt = 0;
    owner = none;
    content = λ j. 0;
  };
  next = λ i. 0;
  prev = λ i. 0;
}

abbrev zeros : ℕ → ℕ → ℕ → ℕ
zeros dev blockno j = 0

-- Buffer 0 is the last of the list that `binit` makes.
abbrev calls : List Event
calls = get 1 5 ∷ lock 9 0 ∷ read 0 ∷ release 9 0 ∷ get 1 5 ∷ []

abbrev after : Result Cache → Cache
after (ok c) = c
after (panic m) = blank

abbrev used : Cache
unfolding run binit
used = after (run zeros calls (binit blank))

cache-InOrder_example : InOrder used
unfolding used
cache-InOrder_example = cache-InOrder zeros calls blank (λ i. refl) (omega arith) refl

bget_lem_example : bget 1 5 (binit blank) ≡ found 1 5 (binit blank) (countdown num_buf)
bget_lem_example = bget_lem 1 5 (binit-IsRing blank) (omega arith)

binit-IsRing_example : IsRing (binit blank) (countdown num_buf)
binit-IsRing_example = binit-IsRing blank

abbrev taken : Cache
unfolding run binit
taken = after (run zeros (get 1 5 ∷ lock 9 0 ∷ []) (binit blank))

taken-IsRing : IsRing taken (countdown num_buf)
unfolding taken binit
taken-IsRing = record {
  links = (binit-IsRing blank).links;
  distinct = (binit-IsRing blank).distinct;
}
