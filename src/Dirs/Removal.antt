-- ===== src/Dirs/Removal.antt =====
-- The links of inodes when `sys_unlink` takes an entry out.
use basic_os.Prelude.{
  ℕ, ◌+◌, ◌-◌, ◌%◌, ◌^◌, ◌<◌, ◌≡◌, ◌≢◌, inl, inr, refl, sym, ap, ◌∙◌, arith, true, false, ◌==◌,
  if◌then◌else◌, Bool-cases, some, List,
}
use basic_os.Path.{dirsiz, same_name}
use basic_os.Dirs.{Node, Fs, t_dir, dot, find_name, drop_link, clear_entry, unlink_at}
use basic_os.Dirs.Lists.{count}
use basic_os.Dirs.Links.{
  is_live, weight, links, IsTyped, IsLinked, typed_lt, update-IsTyped, update_ne, links-update,
  links_same, at, nlink-drop_link, links-clear_entry, found-links,
}

-- A link less
drop_link-IsTyped :
    (ninodes : ℕ) (fs : Fs) (i : ℕ)
    → i < ninodes
    → (fs i).type ≢ 0
    → IsTyped ninodes fs
    → IsTyped ninodes (drop_link i fs)
drop_link-IsTyped ninodes fs i l h t =
    update-IsTyped ninodes fs i _ l (λ z. absurd (h z)) (omega arith) t

links-drop_link :
    (ninodes : ℕ) (fs : Fs) (i n : ℕ)
    → i < ninodes
    → ((fs i).type ≡ t_dir → 1 < (fs i).nlink)
    → (fs i).nlink < 2 ^ 16
    → links ninodes (drop_link i fs) n ≡ links ninodes fs n
links-drop_link ninodes fs i n l h b =
    links_same ninodes fs i _ n l
      (ap (λ t. if t then count n (fs i).entries else 0) (ground (arith, h, b)))

links-drop_last :
    (ninodes : ℕ) (fs : Fs) (i n : ℕ)
    → i < ninodes
    → ((fs i).type == t_dir) ≡ true
    → (fs i).nlink ≡ 1
    → links ninodes (drop_link i fs) n + count n (fs i).entries ≡ links ninodes fs n
links-drop_last ninodes fs i n l t o =
    let d : Node = record (fs i) { nlink = ((fs i).nlink + 2 ^ 16 - 1) % 2 ^ 16 } in
    let a = links-update ninodes fs i d n l in
    let z : (((fs i).nlink + 2 ^ 16 - 1) % 2 ^ 16 == 0) ≡ true = ground (arith, o) in
    let y : ((fs i).nlink == 0) ≡ false = ground (arith, o) in
    let b : weight n d ≡ 0 = rw (t, z) refl in
    let c : weight n (fs i) ≡ count n (fs i).entries = rw (t, y) refl in omega (arith, a, b, c)

-- An empty directory: one link, from its parent, and "..", which counts for its parent
abbrev pub IsLeaf : Fs → ℕ → ℕ → Type 0
IsLeaf fs dp ip =
    (ip ≢ dp)
    × ((fs ip).nlink ≡ 1)
    × ((fs dp).nlink ≢ 1)
    × ((n : ℕ) → count n (fs ip).entries ≡ at dp n)

module _ (ninodes : ℕ) (fs : Fs) (dp : ℕ) (name : List ℕ) (slot ip : ℕ) (v : IsLinked ninodes fs)
    (r : is_live (fs dp) ≡ true) (s : same_name dirsiz name dot ≡ false)
    (e : find_name (fs dp).entries name 0 ≡ some (slot, ip)) where
  abbrev cleared : Fs
  cleared = clear_entry dp slot fs

  dp_lt : dp < ninodes
  dp_lt = typed_lt ninodes fs dp v.typed (ground (arith, r))

  pub nlink_ip : (fs ip).nlink ≢ 0
  nlink_ip =
      λ z. absurd (found-links ninodes fs dp name slot ip dp_lt r s e (sym (v.linked ip) ∙ z))

  type_ip : (fs ip).type ≢ 0
  type_ip = λ z. absurd (nlink_ip (v.typed.unused ip z))

  ip_lt : ip < ninodes
  ip_lt = typed_lt ninodes fs ip v.typed type_ip

  cleared-IsTyped : IsTyped ninodes cleared
  cleared-IsTyped =
      update-IsTyped ninodes fs dp _ dp_lt (v.typed.unused dp) (v.typed.bounded dp) v.typed

  same_nlink : (n : ℕ) → (cleared n).nlink ≡ (fs n).nlink
  same_nlink n = ground arith

  same_type : (n : ℕ) → (cleared n).type ≡ (fs n).type
  same_type n = ground arith

  file-IsLinked : (fs ip).type ≢ t_dir → IsLinked ninodes (drop_link ip cleared)
  file-IsLinked t = record {
    typed =
        drop_link-IsTyped ninodes cleared ip ip_lt (λ z. type_ip (sym (same_type ip) ∙ z))
          cleared-IsTyped;
    linked = λ n.
        let a =
          nlink-drop_link cleared ip n (λ z. nlink_ip (sym (same_nlink ip) ∙ z))
            (cleared-IsTyped.bounded ip) in
        let b =
          links-drop_link ninodes cleared ip n ip_lt (λ q. absurd (t (sym (same_type ip) ∙ q)))
            (cleared-IsTyped.bounded ip) in
        let c = links-clear_entry ninodes fs dp name slot ip n dp_lt r s e in
        omega (arith, a, b, c, same_nlink n, v.linked n);
  }

  dir-IsLinked :
      ((fs ip).type == t_dir) ≡ true
      → IsLeaf fs dp ip
      → IsLinked ninodes (drop_link ip (drop_link dp cleared))
  dir-IsLinked t leaf =
      let g = drop_link dp cleared in
      let q : g ip ≡ fs ip = update_ne cleared dp _ ip leaf.0 ∙ update_ne fs dp _ ip leaf.0 in
      let gt =
        drop_link-IsTyped ninodes cleared dp dp_lt
          (λ z. absurd (ground (arith, r, sym (same_type dp) ∙ z))) cleared-IsTyped in
      let two : 1 < (cleared dp).nlink = ground (arith, r, leaf.2, same_nlink dp) in
      record {
        typed =
            drop_link-IsTyped ninodes g ip ip_lt
              (λ z. type_ip (sym (ap (λ (d : Node). d.type) q) ∙ z)) gt;
        linked = λ n.
            let a =
              nlink-drop_link g ip n (λ z. nlink_ip (sym (ap (λ (d : Node). d.nlink) q) ∙ z))
                (gt.bounded ip) in
            let b =
              nlink-drop_link cleared dp n (λ z. absurd (omega (arith, z, two)))
                (cleared-IsTyped.bounded dp) in
            let c =
              links-drop_last ninodes g ip n ip_lt (ap (λ (d : Node). d.type == t_dir) q ∙ t)
                (ap (λ (d : Node). d.nlink) q ∙ leaf.1) in
            let d = ap (λ (d : Node). count n d.entries) q ∙ leaf.3 n in
            let x =
              links-drop_link ninodes cleared dp n dp_lt (λ z. two) (cleared-IsTyped.bounded dp) in
            let y = links-clear_entry ninodes fs dp name slot ip n dp_lt r s e in
            omega (arith, a, b, c, d, x, y, same_nlink n, v.linked n);
      }

  pub unlink_at-IsLinked :
      ((fs ip).type ≡ t_dir → IsLeaf fs dp ip) → IsLinked ninodes (unlink_at dp slot ip fs)
  unlink_at-IsLinked leaf = elim (Bool-cases ((fs ip).type == t_dir)) [
    | inl t ↦ rw t (dir-IsLinked t (leaf (ground (arith, t))))
    | inr t ↦ rw t (file-IsLinked (ground (arith, t)))
  ]
