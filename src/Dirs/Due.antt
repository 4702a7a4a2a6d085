-- ===== src/Dirs/Due.antt =====
-- Inodes that count links for which `create` has entries still to make.
use basic_os.Prelude.{
  ℕ, ◌+◌, ◌%◌, ◌^◌, ◌<◌, ◌≡◌, ◌≢◌, refl, sym, ap, ◌∙◌, arith, true, false, ◌==◌, if◌then◌else◌,
  update, take, some, none, List, [], ◌∷◌,
}
use basic_os.Path.{dirsiz, Dirent}
use basic_os.Dirs.{
  Node, Fs, t_dir, dot, dot_dot, find_name, free_slot, put_entry, fits, add_entry, dirlink,
  add_link, must_link, add_dots, fresh,
}
use basic_os.Dirs.Removal.{IsLeaf}
use basic_os.Dirs.Lists.{one, count, count-add}
use basic_os.Dirs.Links.{
  is_live, weight, links, IsTyped, IsLinked, typed_lt, update-IsTyped, update_self, update_ne,
  links_same, at, nlink-add_link, links-add_entry,
}

-- Links that inodes count already, and for which entries are still to come
pub record IsDue (ninodes : ℕ) (fs : Fs) (owed : ℕ → ℕ) : Type 0 where
  pub typed : IsTyped ninodes fs
  pub due : (n : ℕ) → (fs n).nlink ≡ links ninodes fs n + owed n

pub add_link-IsDue :
    (ninodes : ℕ) (fs : Fs) (owed : ℕ → ℕ) (dp : ℕ)
    → is_live (fs dp) ≡ true
    → (fs dp).nlink + 1 < 2 ^ 16
    → IsDue ninodes fs owed
    → IsDue ninodes (add_link dp fs) (λ n. owed n + at dp n)
add_link-IsDue ninodes fs owed dp r b v =
    let l = typed_lt ninodes fs dp v.typed (ground (arith, r)) in
    let w : is_live (record (fs dp) { nlink = ((fs dp).nlink + 1) % 2 ^ 16 }) ≡ is_live (fs dp) =
      ground (arith, r, b) in
    record {
      typed =
          update-IsTyped ninodes fs dp _ l (λ z. absurd (ground (arith, r, z))) (omega arith)
            v.typed;
      due = λ n.
          let a =
            links_same ninodes fs dp (record (fs dp) { nlink = ((fs dp).nlink + 1) % 2 ^ 16 }) n l
              (ap (λ t. if t then count n (fs dp).entries else 0) w) in
          omega (arith, a, nlink-add_link fs dp n b, v.due n);
    }

pub add_entry-IsDue :
    (ninodes : ℕ) (fs : Fs) (owed : ℕ → ℕ) (dp : ℕ) (name : List ℕ) (ip : ℕ)
    → is_live (fs dp) ≡ true
    → IsDue ninodes fs (λ n. owed n + one n (record { inum = ip; name = take dirsiz name }))
    → IsDue ninodes (add_entry fs dp name ip) owed
add_entry-IsDue ninodes fs owed dp name ip r v =
    let l = typed_lt ninodes fs dp v.typed (ground (arith, r)) in
    record {
      typed = update-IsTyped ninodes fs dp _ l (v.typed.unused dp) (v.typed.bounded dp) v.typed;
      due = λ n.
          let a : (add_entry fs dp name ip n).nlink ≡ (fs n).nlink = ground arith in
          omega (arith, a, links-add_entry ninodes fs dp name ip n l r, v.due n);
    }

pub IsDue-cong :
    (ninodes : ℕ) (fs : Fs) (a b : ℕ → ℕ)
    → ((n : ℕ) → a n ≡ b n)
    → IsDue ninodes fs a
    → IsDue ninodes fs b
IsDue-cong ninodes fs a b h v = record {
  typed = v.typed;
  due = λ n. v.due n ∙ ap (λ k. links ninodes fs n + k) (h n);
}

pub fresh-IsDue :
    (ninodes : ℕ) (fs : Fs) (ip dev type major minor : ℕ)
    → ip < ninodes
    → type ≢ 0
    → (fs ip).type ≡ 0
    → IsLinked ninodes fs
    → IsDue ninodes (update fs ip (fresh dev type major minor)) (at ip)
fresh-IsDue ninodes fs ip dev type major minor l t z v = record {
  typed = update-IsTyped ninodes fs ip _ l (λ q. absurd (t q)) (omega arith) v.typed;
  due = λ n.
      let w : weight n (fresh dev type major minor) ≡ 0 = ground arith in
      let o : weight n (fs ip) ≡ 0 = ground (arith, z) in
      let a = links_same ninodes fs ip (fresh dev type major minor) n l (w ∙ sym o) in
      let b : (update fs ip (fresh dev type major minor) n).nlink ≡ (fs n).nlink + at ip n =
        ground (arith, v.typed.unused ip z) in
      omega (arith, a, b, v.linked n);
}

pub must_link_fits :
    (d : ℕ) (name : List ℕ) (m : ℕ) (fs : Fs)
    → ((fs d).type == t_dir) ≡ true
    → find_name (fs d).entries name 0 ≡ none
    → fits (free_slot (fs d).entries) ≡ true
    → m < 2 ^ 16
    → must_link d name m fs ≡ some (add_entry fs d name m)
unfolding dirlink
must_link_fits d name m fs t e f l =
    let w : m % 2 ^ 16 ≡ m = omega (arith, l) in rw (must_link, t, e, f, w) refl

pub must_link_full :
    (d : ℕ) (name : List ℕ) (m : ℕ) (fs : Fs)
    → ((fs d).type == t_dir) ≡ true
    → find_name (fs d).entries name 0 ≡ none
    → fits (free_slot (fs d).entries) ≡ false
    → must_link d name m fs ≡ none
unfolding dirlink
must_link_full d name m fs t e f = rw (must_link, t, e, f) refl

-- The two entries of a new directory
pub add_dots_lem :
    (dp ip : ℕ) (fs : Fs) (dev major minor : ℕ)
    → ip ≢ dp
    → ip ≢ 0
    → ip < 2 ^ 16
    → dp < 2 ^ 16
    → fs ip ≡ fresh dev t_dir major minor
    → add_dots dp ip fs ≡ some (add_entry (add_entry (add_link dp fs) ip dot ip) ip dot_dot dp)
unfolding find_name free_slot put_entry
add_dots_lem dp ip fs dev major minor ne nz li ld e =
    let g = add_link dp fs in
    let q : g ip ≡ fresh dev t_dir major minor = update_ne fs dp _ ip ne ∙ e in
    let h = add_entry g ip dot ip in
    let s : h ip
        ≡ record (fresh dev t_dir major minor) { entries = record { inum = ip; name = dot } ∷ [] } =
      update_self g ip _
      ∙ ap
          (λ (d : Node). record d {
            entries = put_entry d.entries (free_slot d.entries) (record { inum = ip; name = dot });
          })
          q in
    let z : (ip == 0) ≡ false = ground (arith, nz) in
    let a =
      must_link_fits ip dot ip g (ap (λ (d : Node). d.type == t_dir) q)
        (ap (λ (d : Node). find_name d.entries dot 0) q)
        (ap (λ (d : Node). fits (free_slot d.entries)) q) li in
    let b =
      must_link_fits ip dot_dot dp h (ap (λ (d : Node). d.type == t_dir) s)
        (ap (λ (d : Node). find_name d.entries dot_dot 0) s ∙ rw z refl)
        (ap (λ (d : Node). fits (free_slot d.entries)) s ∙ rw z refl) ld in
    rw (add_dots, a) b

pub count-add_entry :
    (g : Fs) (d : ℕ) (name : List ℕ) (m n : ℕ)
    → count n (add_entry g d name m d).entries
      ≡ count n (g d).entries + one n (record { inum = m; name = take dirsiz name })
count-add_entry g d name m n =
    let de : Dirent = record { inum = m; name = take dirsiz name } in
    ap (λ (k : Node). count n k.entries)
      (update_self g d
        (record (g d) { entries = put_entry (g d).entries (free_slot (g d).entries) de }))
    ∙ count-add n de (g d).entries

-- An entry for a leaf leaves it one.
pub IsLeaf-add_entry :
    (g : Fs) (dp : ℕ) (name : List ℕ) (ip : ℕ)
    → IsLeaf g dp ip
    → IsLeaf (add_entry g dp name ip) dp ip
IsLeaf-add_entry g dp name ip h =
    let q = update_ne g dp _ ip h.0 in
    let w : (add_entry g dp name ip dp).nlink ≡ (g dp).nlink =
      ap (λ (k : Node). k.nlink) (update_self g dp _) in
    (
      h.0,
      ap (λ (k : Node). k.nlink) q ∙ h.1,
      λ z. h.2 (sym w ∙ z),
      λ n. ap (λ (k : Node). count n k.entries) q ∙ h.3 n,
    )
