-- ===== src/StateServer/ZoneObjects/Index.antt =====
-- The map of src/stateserver/distributed_object.h from zones to children: no zone and no child of a
-- zone twice, and what each change of it does to every zone.
use ardos.Prelude.{
  ℕ, ◌≡◌, refl, ◌∙◌, ap, true, false, not, ◌&&◌, ◌||◌, List, [], ◌∷◌, arith, ◌==◌, if◌then◌else◌,
  Bool-cases, inl, inr,
}
use ardos.Prelude.Sets.{mem, insert, remove, NoDup, mem-insert, mem-remove, NoDup-remove}
use ardos.StateServer.ZoneObjects.{
  ZoneObjects, children, zones, enter, keep_unless_empty, leave, touch_zone,
}

abbrev pub IsIndex : ZoneObjects → Type 0
IsIndex [] = Unit {0}
IsIndex ((z, cs) ∷ zs) = (mem z (zones zs) ≡ false) × (NoDup cs × IsIndex zs)

mem-zones-enter :
    (x z c : ℕ) (zs : ZoneObjects) → mem x (zones (enter z c zs)) ≡ (x == z) || mem x (zones zs)
mem-zones-enter x z c [] = refl
mem-zones-enter x z c ((y, cs) ∷ zs) = elim (Bool-cases (y == z)) [
  | inl e ↦ rw e (ground arith)
  | inr e ↦ rw (e, mem-zones-enter x z c zs) (ground arith)
]

mem-zones-touch :
    (x z : ℕ) (zs : ZoneObjects) → mem x (zones (touch_zone z zs)) ≡ (x == z) || mem x (zones zs)
mem-zones-touch x z [] = refl
mem-zones-touch x z ((y, cs) ∷ zs) = elim (Bool-cases (y == z)) [
  | inl e ↦ rw e (ground arith)
  | inr e ↦ rw (e, mem-zones-touch x z zs) (ground arith)
]

-- A zone that is not a key stays none.
absent-leave :
    (x z c : ℕ) (zs : ZoneObjects) → mem x (zones zs) ≡ false → mem x (zones (leave z c zs)) ≡ false
absent-leave x z c [] h = refl
absent-leave x z c ((y, cs) ∷ zs) h = elim (Bool-cases (y == z)) [
  | inl e ↦ rw e (kept (remove c cs))
  | inr e ↦ rw (e, absent-leave x z c zs (ground arith)) (ground arith)
]
  where
    kept : (ds : List ℕ) → mem x (zones (keep_unless_empty y ds zs)) ≡ false
    kept [] = ground arith
    kept (d ∷ ds) = h

NoDup-insert : (x : ℕ) (xs : List ℕ) → NoDup xs → NoDup (insert x xs)
NoDup-insert x xs d = elim (Bool-cases (mem x xs)) [ inl e ↦ rw e d | inr e ↦ rw e (e, d) ]

pub enter-IsIndex : (z c : ℕ) (zs : ZoneObjects) → IsIndex zs → IsIndex (enter z c zs)
enter-IsIndex z c [] i = (refl, ((refl, tt), tt))
enter-IsIndex z c ((y, cs) ∷ zs) (new, (once, i)) = elim (Bool-cases (y == z)) [
  | inl e ↦ rw e (new, (NoDup-insert c cs once, i))
  | inr e ↦ rw e (mem-zones-enter y z c zs ∙ ground arith, (once, enter-IsIndex z c zs i))
]

pub touch-IsIndex : (z : ℕ) (zs : ZoneObjects) → IsIndex zs → IsIndex (touch_zone z zs)
touch-IsIndex z [] i = (refl, (tt, tt))
touch-IsIndex z ((y, cs) ∷ zs) (new, (once, i)) = elim (Bool-cases (y == z)) [
  | inl e ↦ rw e (new, (once, i))
  | inr e ↦ rw e (mem-zones-touch y z zs ∙ ground arith, (once, touch-IsIndex z zs i))
]

kept-IsIndex :
    (z : ℕ) (cs : List ℕ) (zs : ZoneObjects)
    → mem z (zones zs) ≡ false
    → NoDup cs
    → IsIndex zs
    → IsIndex (keep_unless_empty z cs zs)
kept-IsIndex z [] zs new once i = i
kept-IsIndex z (c ∷ cs) zs new once i = (new, (once, i))

pub leave-IsIndex : (z c : ℕ) (zs : ZoneObjects) → IsIndex zs → IsIndex (leave z c zs)
leave-IsIndex z c [] i = tt
leave-IsIndex z c ((y, cs) ∷ zs) (new, (once, i)) = elim (Bool-cases (y == z)) [
  | inl e ↦ rw e (kept-IsIndex y (remove c cs) zs new (NoDup-remove c cs once) i)
  | inr e ↦ rw e (absent-leave y z c zs new, (once, leave-IsIndex z c zs i))
]

-- The children of every zone after a child entered one.
pub mem-children-enter :
    (x y z c : ℕ) (zs : ZoneObjects)
    → mem x (children y (enter z c zs)) ≡ ((y == z) && (x == c)) || mem x (children y zs)
mem-children-enter x y z c [] = ground arith
mem-children-enter x y z c ((w, cs) ∷ zs) = elim (Bool-cases (w == z)) [
  | inl e ↦ rw e (ground (arith, mem-insert x c cs))
  | inr e ↦ rw e (ground (arith, mem-children-enter x y z c zs))
]

children_absent : (z : ℕ) (zs : ZoneObjects) → mem z (zones zs) ≡ false → children z zs ≡ []
children_absent z [] h = refl
children_absent z ((y, cs) ∷ zs) h = ground (arith, children_absent z zs (ground arith))

mem-children-kept :
    (x y z : ℕ) (cs : List ℕ) (zs : ZoneObjects)
    → mem z (zones zs) ≡ false
    → mem x (children y (keep_unless_empty z cs zs))
      ≡ (if z == y then mem x cs else mem x (children y zs))
mem-children-kept x y z [] zs new = elim (Bool-cases (z == y)) [
  | inl e ↦ rw e (ap (mem x) (children_absent y zs (same e)))
  | inr e ↦ rw e refl
]
  where
    same : (z == y) ≡ true → mem y (zones zs) ≡ false
    same e = let eq : y ≡ z = ground arith in rw eq new
mem-children-kept x y z (c ∷ cs) zs new = ground arith

-- The children of every zone after a child left one.
pub mem-children-leave :
    (x y z c : ℕ) (zs : ZoneObjects)
    → IsIndex zs
    → mem x (children y (leave z c zs)) ≡ not ((y == z) && (x == c)) && mem x (children y zs)
mem-children-leave x y z c [] i = ground arith
mem-children-leave x y z c ((w, cs) ∷ zs) (new, (once, i)) = elim (Bool-cases (w == z)) [
  | inl e ↦ rw (e, mem-children-kept x y w (remove c cs) zs new, mem-remove x c cs) (ground arith)
  | inr e ↦ rw e (ground (arith, mem-children-leave x y z c zs i))
]
