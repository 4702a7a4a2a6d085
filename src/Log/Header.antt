-- ===== src/Log/Header.antt =====
-- The on-disk log header of log.c: `read_head` reads back what `write_head` wrote.
use basic_os.Prelude.{
  ℕ, ◌+◌, ◌≤◌, ◌<◌, ◌^◌, ◌≡◌, refl, arith, List, [], ◌∷◌, length, get_or, set, ap₂, ◌∙◌, length-set,
  get_or-set_self, get_or-set_ne, lt→ltb,
}
use basic_os.Log.{write_entries, read_entries, head_words, head_entries}

get_or-write_entries :
    (i j : ℕ) (bs ws : List ℕ) → j ≤ i → get_or (write_entries i bs ws) j 0 ≡ get_or ws j 0
get_or-write_entries i j [] ws h = refl
get_or-write_entries i j (b ∷ bs) ws h =
    get_or-write_entries (i + 1) j bs (set ws (i + 1) b) (omega arith)
    ∙ get_or-set_ne ws (i + 1) j b 0 (omega arith)

read_entries-write_entries :
    (i : ℕ) (bs ws : List ℕ)
    → i + length bs < length ws
    → read_entries (length bs) i (write_entries i bs ws) ≡ bs
read_entries-write_entries i [] ws h = refl
read_entries-write_entries i (b ∷ bs) ws h =
    ap₂ ◌∷◌
      (get_or-write_entries (i + 1) (i + 1) bs (set ws (i + 1) b) (omega arith)
        ∙ get_or-set_self ws (i + 1) b 0 (omega arith))
      (read_entries-write_entries (i + 1) bs (set ws (i + 1) b)
        (omega (arith, length-set ws (i + 1) b)))

-- The block numbers that `write_head` puts into a header block are those that `read_head` takes
-- from it, if the block has room for them and their number is an `int`.
pub head_entries-head_words :
    (bs ws : List ℕ)
    → length bs < length ws
    → length bs < 2 ^ 31
    → head_entries (head_words bs ws) ≡ bs
unfolding head_entries head_words
head_entries-head_words bs ws h small =
    rw
      (
        get_or-write_entries 0 0 bs (set ws 0 (length bs)) (omega arith),
        get_or-set_self ws 0 (length bs) 0 (omega arith),
        lt→ltb _ _ small,
      )
      (read_entries-write_entries 0 bs (set ws 0 (length bs))
        (omega (arith, length-set ws 0 (length bs))))

pub length-write_entries : (i : ℕ) (bs ws : List ℕ) → length (write_entries i bs ws) ≡ length ws
length-write_entries i [] ws = refl
length-write_entries i (b ∷ bs) ws =
    length-write_entries (i + 1) bs (set ws (i + 1) b) ∙ length-set ws (i + 1) b

pub length-head_words : (bs ws : List ℕ) → length (head_words bs ws) ≡ length ws
unfolding head_words
length-head_words bs ws =
    length-write_entries 0 bs (set ws 0 (length bs)) ∙ length-set ws 0 (length bs)
