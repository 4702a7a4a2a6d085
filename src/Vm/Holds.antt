-- ===== src/Vm/Holds.antt =====
-- What a copy of an address space keeps while `copyuvm` of vm.c makes it.
use basic_os.Prelude.{ℕ, ◌<◌, ◌≡◌, ◌≢◌, inl, inr, sym, ap, ◌∙◌, arith, true, false, has}
use basic_os.Vm.{Mem, kern_base, frame, present}
use basic_os.Vm.Walk.{entry, Elsewhere, Grows}
use basic_os.Vm.Space.{ran}
use basic_os.Vm.Shrink.{IsGood, IsUser, released, entry-released, root_kept, Elsewhere-released}
use basic_os.Vm.Taken.{IsUser-released}
use basic_os.Vm.Grow.{true_not_false}
use basic_os.Vm.Space.{freevm}
use basic_os.Vm.Free.{IsOwn, freevm_lem}

-- The address space `d` is made of pages that were free in `m`, and all others are as in `m`.
pub record Holds (first d : ℕ) (m t : Mem) : Type 0 where
  pub own : IsOwn first d t
  pub user_free :
      (v : ℕ)
      → v < kern_base
      → present (entry t d v) ≡ true
      → has (frame (entry t d v)) m.free ≡ true
  pub others :
      (q : ℕ) → has q m.free ≡ false → Elsewhere d t q × ((j : ℕ) → t.words q j ≡ m.words q j)
  pub used_free : (q : ℕ) → has q t.free ≡ true → has q m.free ≡ true

pub Holds-freevm :
    (first d : ℕ) (m t : Mem)
    → 0 < first
    → Holds first d m t
    → (u : Mem) × (freevm first d t ≡ ran 0 u)
      × ((q : ℕ) → has q m.free ≡ false → (j : ℕ) → u.words q j ≡ m.words q j)
Holds-freevm first d m t pos h =
    let f = freevm_lem first d t pos h.own in
    (
      f.0,
      f.1,
      λ q n j.
          f.2 q
            (record {
              elsewhere = (h.others q n).0;
              not_user = λ v l p e.
                  true_not_false (sym (h.user_free v l p) ∙ ap (λ a. has a m.free) (sym e) ∙ n);
            })
            j
          ∙ (h.others q n).1 j,
    )

pub IsOwn-Grows :
    (first d : ℕ) (t u : Mem) → IsOwn first d t → Grows d t u → IsUser first d u → IsOwn first d u
IsOwn-Grows first d t u o g s =
    let y = o.user in
    record {
      user = s;
      root_good = o.root_good;
      table_good = λ i p. elim (g.tables i p) [
        | inl e ↦ rw e (o.table_good i (ap present (sym e) ∙ p))
        | inr e ↦ y.good _ e
      ];
    }

pub Holds-Grows :
    (first d : ℕ) (m t u : Mem)
    → Holds first d m t
    → Grows d t u
    → IsUser first d u
    → ((v : ℕ)
        → v < kern_base
        → present (entry u d v) ≡ true
        → has (frame (entry u d v)) m.free ≡ true)
    → Holds first d m u
Holds-Grows first d m t u h g s f = record {
  own = IsOwn-Grows first d t u h.own g s;
  user_free = f;
  others = λ q n. let o = h.others q n in (g.still q o.0, λ j. g.others q o.0 j ∙ o.1 j);
  used_free = λ q n. h.used_free q (g.taken q n);
}

pub Holds-released :
    (first d p : ℕ) (m t : Mem)
    → Holds first d m t
    → has p m.free ≡ true
    → Elsewhere d t p
    → IsGood first p
    → ((v : ℕ) → v < kern_base → present (entry t d v) ≡ true → frame (entry t d v) ≢ p)
    → Holds first d m (released p t)
Holds-released first d p m t h f o b ne =
    let w = h.own in
    let y = w.user in
    record {
      own = record {
        user = IsUser-released first d p t y o b ne;
        root_good = w.root_good;
        table_good = λ i. rw (root_kept d p t y.space o i) (w.table_good i);
      };
      user_free = λ v. rw (entry-released d p t y.space o v) (h.user_free v);
      others = λ q n.
          let k = h.others q n in
          let nq : q ≢ p = λ g. true_not_false (sym f ∙ ap (λ a. has a m.free) (sym g) ∙ n) in
          (Elsewhere-released d p t y.space o q k.0 nq, λ j. ground (arith, nq) ∙ k.1 j);
      used_free = λ q n. ground (arith, n, h.used_free q, f);
    }
