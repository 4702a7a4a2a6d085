-- ===== src/Vm/OnePage.antt =====
-- One page of vm.c's `allocuvm` and `copyuvm`: taken from the free list and mapped.
use basic_os.Prelude.{ℕ, suc, ◌*◌, ◌<◌, ◌≡◌, ◌≢◌, ap, arith, true, List, ◌∷◌, ◌==◌, if◌then◌else◌}
use mathlib.Core.Path.{subst}
use basic_os.Vm.{Mem, page_size, kern_base, phys_top, frame, present, pte_of, mappages}
use basic_os.Vm.Walk.{entry, IsSpace}
use basic_os.Vm.Map.{Maps, Mapped, mappages_lem, touched}
use basic_os.Vm.Shrink.{IsUser}
use basic_os.Vm.Taken.{taken}

pub map_page :
    (pgdir n p perm : ℕ) (m : Mem)
    → IsSpace pgdir m
    → n * page_size < kern_base
    → p * page_size < phys_top
    → Maps pgdir n 1 p perm m (mappages pgdir (n * page_size) page_size p perm m)
map_page pgdir n p perm m s low g =
    let e : frame (n * page_size) ≡ n = omega arith in
    let f : touched (n * page_size) page_size ≡ 1 = ap suc (omega arith) in
    let r =
      mappages_lem pgdir (n * page_size) page_size p perm m s (omega arith) (omega arith)
        (omega arith) in
    subst (λ b. Maps pgdir b 1 p perm m (mappages pgdir (n * page_size) page_size p perm m)) e
      (subst
        (λ b.
          Maps pgdir (frame (n * page_size)) b p perm m
            (mappages pgdir (n * page_size) page_size p perm m))
        f r)

pub not_taken :
    (first pgdir p : ℕ) (ws : ℕ → ℕ → ℕ) (ps : List ℕ)
    → IsUser first pgdir (record { words = ws; free = p ∷ ps })
    → (v : ℕ) → v < kern_base
    → present (entry (record { words = ws; free = p ∷ ps }) pgdir v) ≡ true
    → frame (entry (record { words = ws; free = p ∷ ps }) pgdir v) ≢ p
not_taken first pgdir p ws ps s v l h =
    let o = (s.owned v l h).0 in let f = o.not_free in λ e. ground (arith, f, e)

pub page_entry :
    (pgdir n p perm : ℕ) (f : ℕ → ℕ) (ws : ℕ → ℕ → ℕ) (ps : List ℕ) (u : Mem)
    → ((v : ℕ)
        → entry (taken p f ws ps) pgdir v ≡ entry (record { words = ws; free = p ∷ ps }) pgdir v)
    → Mapped pgdir n 1 p perm (taken p f ws ps) u
    → (v : ℕ)
    → entry u pgdir v ≡ (
        if frame v == n
        then pte_of p perm
        else entry (record { words = ws; free = p ∷ ps }) pgdir v)
page_entry pgdir n p perm f ws ps u h a v = ground (arith, a.entries v, h v)

pub kept_entry :
    (pgdir n i p perm : ℕ) (f : ℕ → ℕ) (ws : ℕ → ℕ → ℕ) (ps : List ℕ) (u : Mem)
    → i < 1
    → ((v : ℕ)
        → entry (taken p f ws ps) pgdir v ≡ entry (record { words = ws; free = p ∷ ps }) pgdir v)
    → Mapped pgdir n i p perm (taken p f ws ps) u
    → (v : ℕ) → entry u pgdir v ≡ entry (record { words = ws; free = p ∷ ps }) pgdir v
kept_entry pgdir n i p perm f ws ps u l h a v = ground (arith, a.entries v, h v, l)
