-- ===== src/Sem/Moves.antt =====
-- One thread moves on: how the counts of the invariant change.
use basic_os.Prelude.{ℕ, ◌≡◌, sym, ap, ◌∙◌, Bool, true, false, update}
use basic_os.Sem.{Pc, Sem, goto}
use basic_os.Sem.Locks.{
  has_mutex, has_table, IsLock, IsLock-keep, IsLock-acquire, IsLock-release, update_same,
}
use mathlib.Core.Path.{subst}
use basic_os.Sem.Wakeups.{
  decided, dozing, will_signal, takes, IsCounted, IsSound, Counted-move, true_not_false,
}

-- The steps keep the invariant.
module _ (n i : ℕ) (s : Sem) (c c' : Pc) (v : IsSound n s) (at : s.pc i ≡ c) where
  pub Sound-move :
      has_mutex c ≡ has_mutex c'
      → has_table c ≡ has_table c'
      → IsCounted s.count (update s.pc i c')
      → IsSound n (goto i c' s)
  Sound-move m t k = record {
    mutex =
        IsLock-keep has_mutex s.pc i s.locked _ (update_same has_mutex s.pc i c c' at m) v.mutex;
    lock = IsLock-keep has_table s.pc i s.table _ (update_same has_table s.pc i c c' at t) v.lock;
    counted = k;
    units = v.units;
  }

  pub Sound-lock :
      s.locked ≡ false
      → has_mutex c' ≡ true
      → has_table c ≡ has_table c'
      → IsCounted s.count (update s.pc i c')
      → IsSound n (goto i c' (record s { locked = true }))
  Sound-lock f m t k = record {
    mutex = IsLock-acquire has_mutex s.pc i c' m (subst (λ b. IsLock has_mutex b s.pc) f v.mutex);
    lock = IsLock-keep has_table s.pc i s.table _ (update_same has_table s.pc i c c' at t) v.lock;
    counted = k;
    units = v.units;
  }

  pub Sound-unlock :
      has_mutex c ≡ true
      → has_mutex c' ≡ false
      → has_table c ≡ has_table c'
      → IsCounted s.count (update s.pc i c')
      → IsSound n (goto i c' (record s { locked = false }))
  Sound-unlock h m t k = record {
    mutex = IsLock-release has_mutex s.pc i s.locked c' m (ap has_mutex at ∙ h) v.mutex;
    lock = IsLock-keep has_table s.pc i s.table _ (update_same has_table s.pc i c c' at t) v.lock;
    counted = k;
    units = v.units;
  }

  pub Sound-acquire :
      s.table ≡ false
      → has_mutex c ≡ has_mutex c'
      → has_table c' ≡ true
      → IsCounted s.count (update s.pc i c')
      → IsSound n (goto i c' (record s { table = true }))
  Sound-acquire f m t k = record {
    mutex =
        IsLock-keep has_mutex s.pc i s.locked _ (update_same has_mutex s.pc i c c' at m) v.mutex;
    lock = IsLock-acquire has_table s.pc i c' t (subst (λ b. IsLock has_table b s.pc) f v.lock);
    counted = k;
    units = v.units;
  }

  pub Sound-release :
      has_mutex c ≡ has_mutex c'
      → has_table c ≡ true
      → has_table c' ≡ false
      → IsCounted s.count (update s.pc i c')
      → IsSound n (goto i c' (record s { table = false }))
  Sound-release m h t k = record {
    mutex =
        IsLock-keep has_mutex s.pc i s.locked _ (update_same has_mutex s.pc i c c' at m) v.mutex;
    lock = IsLock-release has_table s.pc i s.table c' t (ap has_table at ∙ h) v.lock;
    counted = k;
    units = v.units;
  }

  -- A move to or from a point where a thread knows nothing of the count
  pub Counted-plain :
      decided c' ≡ false
      → takes c' ≡ false
      → dozing c' ≡ false
      → will_signal c ≡ false
      → IsCounted s.count (update s.pc i c')
  Counted-plain z k d w =
      Counted-move i c c' s.pc at s.count v.counted (λ h. no h z) (λ h. no h k) (λ h. no h d)
        (λ h. no h w)
    where
      no : {A : Type 0} {b : Bool} → b ≡ true → b ≡ false → A
      no p q = absurd (true_not_false (sym p ∙ q))
