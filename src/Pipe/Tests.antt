-- ===== src/Pipe/Tests.antt =====
-- kernel/pipe.c: pipes with bytes in them, and the theorems at these.
use tdt4186_lab.Base.{◌≡◌, refl, true, false, some, List, [], ◌∷◌, ◌++◌, arith, get_elem?, update}
use tdt4186_lab.Pipe.{Pipe, Wrote, fresh_pipe, pipewrite, piperead}
use tdt4186_lab.Pipe.Contents.{contents, IsPipe}
use tdt4186_lab.Pipe.Transfer.{WriteEnds, ReadEnds, pipewrite_ends, piperead_ends}
use tdt4186_lab.Pipe.Stream.{Event, write, read, close, opened, run, stream_in_order}

-- Two bytes, with the write counter about to wrap.
abbrev wrapping : Pipe
wrapping = record {
  ring = update (update (λ i. 0) 509 65) 510 66;
  nread = 0xffff_fffd;
  nwrite = 0xffff_ffff;
  readopen = true;
  writeopen = true;
}

wrapping-IsPipe : IsPipe wrapping
wrapping-IsPipe = omega arith

-- The pipe is full: 512 bytes, all of them 0.
abbrev full : Pipe
full = record { ring = λ i. 0; nread = 7; nwrite = 519; readopen = true; writeopen = true }

full-IsPipe : IsPipe full
full-IsPipe = omega arith

contents-wrapping : contents wrapping ≡ 65 ∷ 66 ∷ []
contents-wrapping = refl

full_sleeps : pipewrite (λ i. false) (λ i. some 1) 3 0 full ≡ Wrote.sleeps 3 0 full
unfolding pipewrite
full_sleeps = refl

abbrev script : List Event
script =
    read false 4
    ∷ write (λ i. false) (1 ∷ 2 ∷ 3 ∷ []) 3 0
    ∷ read false 2
    ∷ close true
    ∷ read false 9
    ∷ close false
    ∷ write (λ i. false) (4 ∷ []) 1 0
    ∷ []

script_runs :
    let t = run script (opened (λ i. 0)) in
    (t.received ≡ 1 ∷ 2 ∷ 3 ∷ []) × (t.sent ≡ 1 ∷ 2 ∷ 3 ∷ []) × (contents t.pipe ≡ [])
unfolding run fresh_pipe
script_runs = (refl, refl, refl)

pipewrite_ends_example :
    WriteEnds
      (λ i. false)
      (get_elem? (67 ∷ 68 ∷ []))
      2
      0
      wrapping
      (pipewrite (λ i. false) (get_elem? (67 ∷ 68 ∷ [])) 2 0 wrapping)
pipewrite_ends_example =
    pipewrite_ends (λ i. false) (get_elem? (67 ∷ 68 ∷ [])) 2 0 wrapping wrapping-IsPipe

piperead_ends_example :
    ReadEnds false (λ i. true) 5 wrapping (piperead false (λ i. true) 5 wrapping)
piperead_ends_example = piperead_ends false (λ i. true) 5 wrapping wrapping-IsPipe

stream_in_order_example :
    let t = run script (opened (λ i. 9)) in t.sent ≡ t.received ++ contents t.pipe
stream_in_order_example = stream_in_order script (λ i. 9)
