-- ===== src/Log/Header.antt =====
-- kernel/log.c: the log header as words of its block.
use tdt4186_lab.Base.{ℕ, ◌+◌, ◌<◌, ◌≡◌, refl, ◌∙◌, ap₂, List, [], ◌∷◌, arith, length, update}
use tdt4186_lab.Log.{Block, put_words, get_words, get_header, put_header}

put_words_below : (i : ℕ) (xs : List ℕ) (w : Block) (j : ℕ) → j < i → put_words i xs w j ≡ w j
unfolding put_words
put_words_below i [] w j h = refl
put_words_below i (x ∷ xs) w j h = ground (arith, put_words_below (i + 1) xs (update w i x) j)

get_words-put_words :
    (i : ℕ) (xs : List ℕ) (w : Block) → get_words (length xs) i (put_words i xs w) ≡ xs
unfolding get_words put_words
get_words-put_words i [] w = refl
get_words-put_words i (x ∷ xs) w =
    ap₂ ◌∷◌ (ground (arith, put_words_below (i + 1) xs (update w i x) i))
      (get_words-put_words (i + 1) xs (update w i x))

-- What `write_head` stores in the header block, `read_head` reads back: the number of logged
-- blocks and each of their block numbers in order, whatever the block held before.
pub get_header-put_header : (bs : List ℕ) (w : Block) → get_header (put_header bs w) ≡ bs
get_header-put_header bs w =
    ap₂ (λ n v. get_words n 1 v) (put_words_below 1 bs (update w 0 (length bs)) 0 (omega arith))
      refl
    ∙ get_words-put_words 1 bs (update w 0 (length bs))
