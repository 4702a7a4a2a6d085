-- ===== src/Dirs/Links.antt =====
-- The links to an inode: entries of directories in use that count for its `nlink`.
use basic_os.Prelude.{
  ℕ, ◌+◌, ◌-◌, ◌^◌, ◌≤◌, ◌<◌, ◌≡◌, ◌≢◌, refl, ap, ◌∙◌, arith, Bool, true, false, not, ◌&&◌, ◌==◌,
  if◌then◌else◌, take, update, some, List, [],
}
use basic_os.Path.{dirsiz, same_name}
use basic_os.Dirs.{
  Node, Fs, t_dir, dot, free_slot, put_entry, find_name, add_entry, add_link, drop_link,
  clear_entry,
}
use basic_os.Dirs.Lists.{
  one, count, count-add, count-clear, same_name_lem, same_name-take, same_name_refl,
}
use basic_os.Dirs.Sums.{sum, sum_change}

-- A directory is in use as long as it has links itself.
abbrev pub is_live : Node → Bool
is_live d = (d.type == t_dir) && not (d.nlink == 0)

abbrev pub weight : ℕ → Node → ℕ
weight n d = if is_live d then count n d.entries else 0

unfoldable pub links : ℕ → Fs → ℕ → ℕ
links ninodes fs n = sum (λ d. weight n (fs d)) ninodes

-- Inodes past the last number are free, a free inode has no links, and links are counted in 16 bits.
pub record IsTyped (ninodes : ℕ) (fs : Fs) : Type 0 where
  pub outside : (n : ℕ) → ninodes ≤ n → (fs n).type ≡ 0
  pub unused : (n : ℕ) → (fs n).type ≡ 0 → (fs n).nlink ≡ 0
  pub bounded : (n : ℕ) → (fs n).nlink < 2 ^ 16

pub record IsLinked (ninodes : ℕ) (fs : Fs) : Type 0 where
  pub typed : IsTyped ninodes fs
  pub linked : (n : ℕ) → (fs n).nlink ≡ links ninodes fs n

pub typed_lt : (ninodes : ℕ) (fs : Fs) (i : ℕ) → IsTyped ninodes fs → (fs i).type ≢ 0 → i < ninodes
typed_lt ninodes fs i t h = ground (arith, t.outside i, h)

pub update-IsTyped :
    (ninodes : ℕ) (fs : Fs) (i : ℕ) (d : Node)
    → i < ninodes
    → (d.type ≡ 0 → d.nlink ≡ 0)
    → d.nlink < 2 ^ 16
    → IsTyped ninodes fs
    → IsTyped ninodes (update fs i d)
update-IsTyped ninodes fs i d l u b t = record {
  outside = λ n h. ground (arith, t.outside n h, l, h);
  unused = λ n h. ground (arith, t.unused n, u, h);
  bounded = λ n. ground (arith, t.bounded n, b);
}

pub update_self : (fs : Fs) (i : ℕ) (d : Node) → update fs i d i ≡ d
update_self fs i d = ground arith

pub update_ne : (fs : Fs) (i : ℕ) (d : Node) (n : ℕ) → n ≢ i → update fs i d n ≡ fs n
update_ne fs i d n h = ground (arith, h)

pub links-update :
    (ninodes : ℕ) (fs : Fs) (i : ℕ) (d : Node) (n : ℕ)
    → i < ninodes
    → links ninodes (update fs i d) n + weight n (fs i) ≡ links ninodes fs n + weight n d
unfolding links
links-update ninodes fs i d n l =
    let f = λ (k : ℕ). weight n (update fs i d k) in
    let a : f i ≡ weight n d = ap (weight n) (update_self fs i d) in
    let b =
      sum_change f (λ k. weight n (fs k)) ninodes i l
        (λ k ne. ap (weight n) (update_ne fs i d k ne)) in
    omega (arith, a, b)

pub links_same :
    (ninodes : ℕ) (fs : Fs) (i : ℕ) (d : Node) (n : ℕ)
    → i < ninodes
    → weight n d ≡ weight n (fs i)
    → links ninodes (update fs i d) n ≡ links ninodes fs n
links_same ninodes fs i d n l e = omega (arith, links-update ninodes fs i d n l, e)

-- 1 at one number
abbrev pub at : ℕ → ℕ → ℕ
at i n = if i == n then 1 else 0

pub nlink-add_link :
    (fs : Fs) (i n : ℕ)
    → (fs i).nlink + 1 < 2 ^ 16
    → (add_link i fs n).nlink ≡ (fs n).nlink + at i n
nlink-add_link fs i n h = ground (arith, h)

pub nlink-drop_link :
    (fs : Fs) (i n : ℕ)
    → (fs i).nlink ≢ 0
    → (fs i).nlink < 2 ^ 16
    → (drop_link i fs n).nlink + at i n ≡ (fs n).nlink
nlink-drop_link fs i n h l = ground (arith, h, l)

pub one_added :
    (n ip : ℕ) (name : List ℕ)
    → ip ≢ 0
    → same_name dirsiz name dot ≡ false
    → one n (record { inum = ip; name = take dirsiz name }) ≡ at ip n
one_added n ip name h d =
    let a : same_name dirsiz dot (take dirsiz name) ≡ false =
      same_name-take dirsiz dot name
      ∙ same_name_lem dirsiz name name dot (same_name_refl dirsiz name) d in
    let b : (ip == 0) ≡ false = ground (arith, h) in rw (a, b) (ground arith)

pub links-add_entry :
    (ninodes : ℕ) (fs : Fs) (dp : ℕ) (name : List ℕ) (ip n : ℕ)
    → dp < ninodes
    → is_live (fs dp) ≡ true
    → links ninodes (add_entry fs dp name ip) n
      ≡ links ninodes fs n + one n (record { inum = ip; name = take dirsiz name })
links-add_entry ninodes fs dp name ip n l v =
    let d : Node = record (fs dp) {
      entries =
          put_entry (fs dp).entries (free_slot (fs dp).entries)
            (record { inum = ip; name = take dirsiz name });
    } in
    let a = links-update ninodes fs dp d n l in
    let b : weight n d ≡ count n d.entries = rw v refl in
    let c : weight n (fs dp) ≡ count n (fs dp).entries = rw v refl in
    omega
      (arith, a, b, c, count-add n (record { inum = ip; name = take dirsiz name }) (fs dp).entries)

pub links-clear_entry :
    (ninodes : ℕ) (fs : Fs) (dp : ℕ) (name : List ℕ) (slot ip n : ℕ)
    → dp < ninodes
    → is_live (fs dp) ≡ true
    → same_name dirsiz name dot ≡ false
    → find_name (fs dp).entries name 0 ≡ some (slot, ip)
    → links ninodes (clear_entry dp slot fs) n + at ip n ≡ links ninodes fs n
links-clear_entry ninodes fs dp name slot ip n l v h e =
    let d : Node = record (fs dp) {
      entries = put_entry (fs dp).entries slot (record { inum = 0; name = [] });
    } in
    let a = links-update ninodes fs dp d n l in
    let b : weight n d ≡ count n d.entries = rw v refl in
    let c : weight n (fs dp) ≡ count n (fs dp).entries = rw v refl in
    let k = (count-clear n name (fs dp).entries 0 slot ip h e).2 in
    let z : slot - 0 ≡ slot = omega arith in
    let y = ap (λ s. count n (put_entry (fs dp).entries s (record { inum = 0; name = [] }))) z in
    omega (arith, a, b, c, k, y)

-- An inode in a directory in use has links.
pub found-links :
    (ninodes : ℕ) (fs : Fs) (dp : ℕ) (name : List ℕ) (slot ip : ℕ)
    → dp < ninodes
    → is_live (fs dp) ≡ true
    → same_name dirsiz name dot ≡ false
    → find_name (fs dp).entries name 0 ≡ some (slot, ip)
    → links ninodes fs ip ≢ 0
found-links ninodes fs dp name slot ip l v h e =
    let a = links-clear_entry ninodes fs dp name slot ip ip l v h e in
    let b : at ip ip ≡ 1 = ground arith in λ z. absurd (omega (arith, a, b, z))
