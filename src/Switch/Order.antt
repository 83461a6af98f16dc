-- ===== src/Switch/Order.antt =====
-- src/mvls/mvls.c: env_init_dev_sort keeps the devices, but does not always order them.
use mathlib.Core.List.{Perm}
use mathlib.Core.List.{Mem, mem-cons, not-mem-nil}
use mathlib.Core.List.Perm
use mathlib.Core.Logic.Or
use native.Mathlib.Bridge.{le_prop}
use mdio_tools.Prelude.{
  ℕ, zero, suc, ◌≤◌, ◌<◌, ltb, not_lt→ltb, ap, Bool-cases, ◌≡◌, inl, inr, refl, subst, arith, List,
  [], ◌∷◌, length, All,
}
use mdio_tools.Switch.Env.{Dev, insert_dev, sort_from, dev_sort}

insert_dev-Perm : (d : Dev) (r : List Dev) → Perm (insert_dev d r) (d ∷ r)
unfolding insert_dev
insert_dev-Perm d [] = Perm.refl _
insert_dev-Perm d (i ∷ r) = elim (Bool-cases (ltb i.index d.index)) [
  | inl lt ↦ rw lt (Perm.trans (Perm.cons i (insert_dev-Perm d r)) (Perm.swap d i r))
  | inr ge ↦ rw ge (Perm.refl _)
]

sort_from-Perm : (fuel : ℕ) (ds : List Dev) → Perm (sort_from fuel ds) ds
unfolding sort_from
sort_from-Perm fuel [] = Perm.refl _
sort_from-Perm fuel (d ∷ []) = Perm.refl _
sort_from-Perm zero (d ∷ n ∷ r) = Perm.refl _
sort_from-Perm (suc fuel) (d ∷ n ∷ r) = elim (Bool-cases (ltb n.index d.index)) [
  | inl lt ↦
      rw (lt, sort_from)
        (Perm.trans (sort_from-Perm fuel (n ∷ insert_dev d r))
          (Perm.trans (Perm.cons n (insert_dev-Perm d r)) (Perm.swap d n r)))
  | inr ge ↦ rw (ge, sort_from) (Perm.cons d (sort_from-Perm fuel (n ∷ r)))
]

-- Ordering by index.
abbrev pub IsSorted : List Dev → Type 0
IsSorted [] = Unit
IsSorted (d ∷ ds) = All (λ i. d.index ≤ i.index) ds × IsSorted ds

-- The sort gives a permutation of the devices: none is lost, doubled or changed.
pub dev_sort-Perm : (ds : List Dev) → Perm (dev_sort ds) ds
unfolding dev_sort
dev_sort-Perm ds = sort_from-Perm (length ds) ds

sort_from-IsSorted : (fuel : ℕ) (ds : List Dev) → IsSorted ds → sort_from fuel ds ≡ ds
unfolding sort_from
sort_from-IsSorted fuel [] h = refl
sort_from-IsSorted fuel (d ∷ []) h = refl
sort_from-IsSorted zero (d ∷ n ∷ r) h = refl
sort_from-IsSorted (suc fuel) (d ∷ n ∷ r) h =
    rw (not_lt→ltb n.index d.index h.0.0, sort_from)
      (ap (λ (l : List Dev). d ∷ l) (sort_from-IsSorted fuel (n ∷ r) h.1))

-- Devices that are in order already stay as they are.
pub dev_sort-IsSorted : (ds : List Dev) → IsSorted ds → dev_sort ds ≡ ds
unfolding dev_sort
dev_sort-IsSorted ds h = sort_from-IsSorted (length ds) ds h

-- Two devices come out in order.
pub dev_sort_two-IsSorted : (d n : Dev) → IsSorted (dev_sort (d ∷ n ∷ []))
unfolding dev_sort
dev_sort_two-IsSorted d n = ground arith

All-Mem :
    (d : Dev) (ds : List Dev) {m : Dev}
    → All (λ i. d.index ≤ i.index) ds
    → Mem m ds
    → d.index ≤ m.index
All-Mem d [] h m = absurd (not-mem-nil m)
All-Mem d (i ∷ ds) h m = Or.elim le_prop (mem-cons.0 m) (λ e. rw e h.0) (All-Mem d ds h.1)

-- If the first device is below the second one, and one further back is lower still, the result is
-- not in order.
pub dev_sort-unsorted :
    (d n m : Dev) (r : List Dev)
    → d.index < n.index
    → Mem m r
    → m.index < d.index
    → ¬ IsSorted (dev_sort (d ∷ n ∷ r))
unfolding dev_sort sort_from
dev_sort-unsorted d n m r dn mr md sorted =
    let first : dev_sort (d ∷ n ∷ r) ≡ d ∷ sort_from (suc (length r)) (n ∷ r) =
      rw (not_lt→ltb n.index d.index (omega arith), sort_from) in
    let s : IsSorted (d ∷ sort_from (suc (length r)) (n ∷ r)) = subst IsSorted first sorted in
    let mem : Mem m (sort_from (suc (length r)) (n ∷ r)) =
      (Perm.mem_iff (sort_from-Perm (suc (length r)) (n ∷ r))).1 (mem-cons.1 (Or.inr mr)) in
    omega (arith, All-Mem d _ s.0 mem, md)
