-- ===== src/File/Counts.antt =====
-- The reference counts of file.c: they count the descriptors, so that no live file is closed.
use basic_os.Prelude.{
  ℕ, suc, ◌+◌, ◌-◌, ◌%◌, ◌^◌, ◌<◌, ◌≡◌, ◌⊎◌, inl, inr, refl, ap, ◌∙◌, arith, false, none, some,
  List, [], ◌∷◌, ◌==◌, length, get_elem?, set, Bool-cases, Option-cases, update, length-set,
}
use mathlib.Core.Path.{subst}
use basic_os.File.{
  File, fd_none, Closing, nothing, no_refs, closing, find_free, filealloc, filedup, fileclose,
  Files, argfd, dup_into, free_fd, fdalloc, sys_dup, sys_close,
}
use basic_os.File.Holds.{
  one_for, holds, RefsCounted, holds_le, holds-set, get_elem?_in, argfd-get, free_fd-get,
  argfd-set-none, argfd-set-some, counted-set, RefsCounted-set,
}

-- `sys_close` of a descriptor that is open never panics; it frees the descriptor, keeps the counts
-- right, and closes the pipe or drops the inode of the file only if no reference to it is left.
pub sys_close-RefsCounted :
    (others : ℕ → ℕ) (fd : ℕ) (s : Files) {i : ℕ}
    → RefsCounted others s
    → argfd fd s.ofile ≡ some i
    → (after : Closing) × (s' : Files) × (sys_close fd s ≡ some (some after, s'))
      × RefsCounted others s'
      × (s'.ofile ≡ set s.ofile fd none)
      × ((after ≡ nothing) ⊎ ((others i ≡ 0) × (holds i s'.ofile ≡ 0)))
unfolding sys_close fileclose
sys_close-RefsCounted others fd s {i} r h =
    let (f, e) = get_elem?_in s.files i (r.in_table fd h) in
    let eo = argfd-get fd s.ofile h in
    let count = holds-set i fd s.ofile none eo in
    let one : one_for i (some i) ≡ 1 = ground arith in
    let live : no_refs f ≡ false =
      ground (arith, r.counted i e, r.countable i, holds_le i s.ofile, count, one) in
    elim (Bool-cases (f.ref == 1)) [
      | inl last ↦ (
        closing f,
        record {
          files = set s.files i (record f { ref = 0; type_of = fd_none });
          ofile = set s.ofile fd none;
        },
        rw (eo, e, live, last, sys_close, fileclose) refl,
        RefsCounted-set others s i fd f _ (some i) none r e eo (ground (arith, last, one))
            (λ j ne. ground arith) (λ k j g. r.in_table k (argfd-set-none fd k s.ofile g)),
        refl,
        inr (
          ground (arith, r.counted i e, last, count, one),
          ground (arith, r.counted i e, last, count, one),
        ),
      )
      | inr shared ↦ (
        nothing,
        record {
          files = set s.files i (record f { ref = f.ref - 1 });
          ofile = set s.ofile fd none;
        },
        rw (eo, e, live, shared, sys_close, fileclose) refl,
        RefsCounted-set others s i fd f _ (some i) none r e eo (ground (arith, live, one))
            (λ j ne. ground arith) (λ k j g. r.in_table k (argfd-set-none fd k s.ofile g)),
        refl,
        inl refl,
      )
    ]

-- `sys_dup` of a descriptor that is open never panics; it fails and changes nothing exactly if no
-- descriptor is free, and otherwise makes a free one refer to the same file and keeps the counts right.
pub sys_dup-RefsCounted :
    (others : ℕ → ℕ) (fd : ℕ) (s : Files) {i : ℕ}
    → RefsCounted others s
    → argfd fd s.ofile ≡ some i
    → ((free_fd s.ofile ≡ none) × (sys_dup fd s ≡ some (none, s)))
      ⊎ ((new : ℕ) × (s' : Files) × (sys_dup fd s ≡ some (some new, s'))
          × RefsCounted others s'
          × (get_elem? s.ofile new ≡ some none)
          × (s'.ofile ≡ set s.ofile new (some i)))
unfolding sys_dup fdalloc filedup
sys_dup-RefsCounted others fd s {i} r h = elim (Option-cases (free_fd s.ofile)) [
  | inl full ↦ inl (full, rw (argfd-get fd s.ofile h, full, sys_dup, fdalloc) refl)
  | inr (new, found) ↦
      let (f, e) = get_elem?_in s.files i (r.in_table fd h) in
      let eo = argfd-get fd s.ofile h in
      let en = free_fd-get s.ofile found in
      let count = holds-set i fd s.ofile none eo in
      let one : one_for i (some i) ≡ 1 = ground arith in
      let live : no_refs f ≡ false =
        ground (arith, r.counted i e, r.countable i, holds_le i s.ofile, count, one) in
      let small : f.ref < 2 ^ 31 = ground arith in
      inr (
        new,
        record {
          files = set s.files i (record f { ref = (f.ref + 1) % 2 ^ 32 });
          ofile = set s.ofile new (some i);
        },
        rw (eo, found, e, live, sys_dup, fdalloc, filedup, dup_into) refl,
        RefsCounted-set others s i new f _ none (some i) r e en (omega (arith, small, one))
            (λ j ne. ground arith)
            (λ k j g. elim (argfd-set-some new k i s.ofile g) [
              | inl old ↦ r.in_table k old
              | inr same ↦ subst (λ n. n < length s.files) same (r.in_table fd h)
            ]),
        en,
        refl,
      )
]

find_free-get :
    (fs : List File) {i : ℕ}
    → find_free fs ≡ some i
    → (f : File) × (get_elem? fs i ≡ some f) × (f.ref ≡ 0)
find_free-get [] h = absurd (cc)
find_free-get (f ∷ fs) {i} h = elim (Bool-cases (f.ref == 0)) [
  | inl free ↦
      let here : 0 ≡ i = ground (arith, free, h) in
      (f, subst (λ n. get_elem? (f ∷ fs) n ≡ some f) here refl, ground arith)
  | inr busy ↦ elim (Option-cases (find_free fs)) [
    | inl missing ↦ absurd (ground (arith, missing, busy, h))
    | inr (k, found) ↦
        let (g, e, free) = find_free-get fs found in
        let here : suc k ≡ i = ground (arith, found, busy, h) in
        (g, subst (λ n. get_elem? (f ∷ fs) n ≡ some g) here e, free)
  ]
]

filealloc-some :
    (fs : List File) {i : ℕ}
    → (filealloc fs).0 ≡ some i
    → (f : File) × (get_elem? fs i ≡ some f)
      × (f.ref ≡ 0)
      × ((filealloc fs).1 ≡ set fs i (record f { ref = 1 }))
unfolding filealloc
filealloc-some fs {i} h = elim (Option-cases (find_free fs)) [
  | inl full ↦ absurd (ground (arith, full, h))
  | inr (k, found) ↦
      let (f, e, free) = find_free-get fs found in
      let here : k ≡ i = ground (arith, found, e, h) in
      let found' : find_free fs ≡ some i = found ∙ ap some here in
      let e' : get_elem? fs i ≡ some f = subst (λ n. get_elem? fs n ≡ some f) here e in
      (f, e', free, rw (found', e', filealloc) refl)
]

-- What `filealloc` returns is no file that anyone refers to, and it has one reference then, that of
-- the caller.
pub filealloc-RefsCounted :
    (others : ℕ → ℕ) (s : Files) {i : ℕ}
    → RefsCounted others s
    → 1 + length s.ofile < 2 ^ 31
    → (filealloc s.files).0 ≡ some i
    → (others i ≡ 0)
      × (holds i s.ofile ≡ 0)
      × RefsCounted (update others i 1) (record s { files = (filealloc s.files).1 })
filealloc-RefsCounted others s {i} r room h =
    let (f, e, free, same) = filealloc-some s.files h in
    let unheld : others i + holds i s.ofile ≡ 0 = omega (arith, free, r.counted i e) in
    (
      omega (arith, unheld),
      omega (arith, unheld),
      rw same (record {
        counted = λ j {f = g} ej.
            counted-set s.files i f (record f { ref = 1 })
              (λ k. update others i 1 k + holds k s.ofile) e (ground (arith, unheld))
              (λ k z ne ez. ground (arith, r.counted k ez)) j g ej;
        countable = λ j. ground (arith, r.countable j, room);
        in_table = λ k {i = j} g.
            omega (arith, r.in_table k g, length-set s.files i (record f { ref = 1 }));
      }),
    )
