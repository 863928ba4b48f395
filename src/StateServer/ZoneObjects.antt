-- ===== src/StateServer/ZoneObjects.antt =====
-- `_zoneObjects` of src/stateserver/distributed_object.h: the children of an object by their zone, in
-- the order of the iteration.
pub mod Index
use ardos.Prelude.{
  ℕ, ◌+◌, ◌≡◌, refl, Bool, true, false, not, ◌&&◌, ◌||◌, List, [], ◌∷◌, length, arith, ◌==◌,
  if◌then◌else◌, Bool-cases, inl, inr,
}
use ardos.Prelude.Sets.{mem, insert, remove, NoDup, mem-insert, mem-remove, NoDup-remove}

abbrev pub ZoneObjects : Type 0
ZoneObjects = List (ℕ × List ℕ)

-- The set of a zone, which is empty when there is none.
abbrev pub children : ℕ → ZoneObjects → List ℕ
children zone [] = []
children zone ((z, cs) ∷ zs) = let rest = children zone zs in if z == zone then cs else rest

-- The keys of the map.
abbrev pub zones : ZoneObjects → List ℕ
zones [] = []
zones ((z, cs) ∷ zs) = z ∷ zones zs

-- std::unordered_map::empty
abbrev pub has_none : ZoneObjects → Bool
has_none [] = true
has_none (z ∷ zs) = false

-- `_zoneObjects[zone].insert(child)`
abbrev pub enter : ℕ → ℕ → ZoneObjects → ZoneObjects
enter zone child [] = (zone, child ∷ []) ∷ []
enter zone child ((z, cs) ∷ zs) =
    let rest = enter zone child zs in
    if z == zone then (z, insert child cs) ∷ zs else (z, cs) ∷ rest

-- The entry of a zone after a child went: none, when no child is left.
abbrev pub keep_unless_empty : ℕ → List ℕ → ZoneObjects → ZoneObjects
keep_unless_empty z [] zs = zs
keep_unless_empty z (c ∷ cs) zs = (z, c ∷ cs) ∷ zs

-- The erasure of a child from a zone, where there is an entry of the zone.
abbrev pub leave : ℕ → ℕ → ZoneObjects → ZoneObjects
leave zone child [] = []
leave zone child ((z, cs) ∷ zs) =
    let rest = leave zone child zs in
    if z == zone then keep_unless_empty z (remove child cs) zs else (z, cs) ∷ rest

-- The reference `_zoneObjects[zone]`: a missing entry is made, with no child.
abbrev pub touch_zone : ℕ → ZoneObjects → ZoneObjects
touch_zone zone [] = (zone, []) ∷ []
touch_zone zone ((z, cs) ∷ zs) =
    let rest = touch_zone zone zs in if z == zone then (z, cs) ∷ zs else (z, cs) ∷ rest
