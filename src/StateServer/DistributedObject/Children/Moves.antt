-- ===== src/StateServer/DistributedObject/Children/Moves.antt =====
-- The children of an object of src/stateserver/distributed_object.cpp after CHANGING_LOCATION.
use ardos.Prelude.{
  ℕ, ◌^◌, ◌<◌, ◌≡◌, refl, ap, true, false, not, ◌&&◌, ◌||◌, List, [], ◌∷◌, All, arith, ◌==◌,
  if◌then◌else◌, Bool-cases, inl, inr,
}
use ardos.Prelude.Action.{◌>>=◌}
use ardos.Prelude.Sets.{mem}
use ardos.Net.DatagramIterator.Reads.{Holds}
use ardos.StateServer.ZoneObjects.{ZoneObjects, children, enter, leave}
use ardos.StateServer.ZoneObjects.Index.{IsIndex, mem-children-enter, mem-children-leave}
use ardos.StateServer.DistributedObject.{DistributedObject, Call, self, change}
use ardos.StateServer.DistributedObject.Calls.{passed_words, words, reads-given, publish-object}
use ardos.StateServer.DistributedObject.Children.{
  enter_zone, admit_child, move_child, handle_changing_location,
}

-- The map after a child came from one place to another.
abbrev moved_zones : ℕ → ℕ → ℕ → ℕ → ℕ → ℕ → ZoneObjects → ZoneObjects
moved_zones me child new_parent new_zone old_parent old_zone zs =
    let gone = if old_parent == me then leave old_zone child zs else zs in
    if new_parent == me then enter new_zone child gone else gone

admit_child-object :
    (o : DistributedObject) (child zone : ℕ) (c : Call)
    → (admit_child o child zone c).1.object ≡ enter_zone zone child c.object
unfolding admit_child change
admit_child-object o child zone c =
    publish-object _ (record c { object = enter_zone zone child c.object })

move_child-zones :
    (o : DistributedObject) (child new_parent new_zone old_parent old_zone : ℕ) (c : Call)
    → ((new_parent == old_parent) && (new_zone == old_zone)) ≡ false
    → (move_child o child new_parent new_zone old_parent old_zone c).1.object.zone_objects
      ≡ moved_zones o.do_id child new_parent new_zone old_parent old_zone c.object.zone_objects
unfolding move_child change
move_child-zones o child new_parent new_zone old_parent old_zone c other =
    elim (Bool-cases (new_parent == o.do_id)) [
      | inl here ↦ elim (Bool-cases (old_parent == o.do_id)) [
        | inl mine ↦
            rw (here, mine, differs here mine)
              (ap (λ (o : DistributedObject). o.zone_objects)
                (admit_child-object o child new_zone (record c {
                  object = record c.object {
                    zone_objects = leave old_zone child c.object.zone_objects;
                  };
                })))
        | inr strange ↦
            rw (here, strange)
              (ap (λ (o : DistributedObject). o.zone_objects)
                (admit_child-object o child new_zone c))
      ]
      | inr there ↦ elim (Bool-cases (old_parent == o.do_id)) [
        | inl mine ↦ rw (there, mine) refl
        | inr strange ↦ rw (there, strange) refl
      ]
    ]
  where
    differs :
        (new_parent == o.do_id) ≡ true
        → (old_parent == o.do_id) ≡ true
        → (new_zone == old_zone) ≡ false
    differs here mine = ground arith

mem-moved_zones :
    (me child new_parent new_zone old_parent old_zone x y : ℕ) (zs : ZoneObjects)
    → IsIndex zs
    → mem x (children y (moved_zones me child new_parent new_zone old_parent old_zone zs)) ≡ (
        ((x == child) && ((new_parent == me) && (y == new_zone)))
        || (mem x (children y zs) && not ((x == child) && ((old_parent == me) && (y == old_zone)))))
mem-moved_zones me child new_parent new_zone old_parent old_zone x y zs i =
    elim (Bool-cases (new_parent == me)) [
      | inl here ↦ elim (Bool-cases (old_parent == me)) [
        | inl mine ↦
            rw
              (
                here,
                mine,
                mem-children-enter x y new_zone child (leave old_zone child zs),
                mem-children-leave x y old_zone child zs i,
              )
              (ground arith)
        | inr strange ↦ rw (here, strange, mem-children-enter x y new_zone child zs) (ground arith)
      ]
      | inr there ↦ elim (Bool-cases (old_parent == me)) [
        | inl mine ↦ rw (there, mine, mem-children-leave x y old_zone child zs i) (ground arith)
        | inr strange ↦ rw (there, strange) (ground arith)
      ]
    ]

-- The five values of the message.
abbrev pub change_words : ℕ → ℕ → ℕ → ℕ → ℕ → List ℕ
change_words child new_parent new_zone old_parent old_zone =
    child ∷ new_parent ∷ new_zone ∷ old_parent ∷ old_zone ∷ []

pub handle_changing_location-eq :
    (child new_parent new_zone old_parent old_zone : ℕ) (c : Call)
    → let vs = change_words child new_parent new_zone old_parent old_zone in
      All (λ v. v < 2 ^ 32) vs
      → Holds c.dgi (words vs)
      → handle_changing_location c
        ≡ move_child c.object child new_parent new_zone old_parent old_zone (passed_words vs c)
unfolding handle_changing_location self
handle_changing_location-eq child new_parent new_zone old_parent old_zone c f h =
    reads-given (change_words child new_parent new_zone old_parent old_zone)
      (λ a b d e g. self >>= λ o. move_child o a b d e g) c f h

-- A CHANGING_LOCATION message that says that an object went from one place to another one leaves every
-- other child in its zone; the object that moved is then in its new zone, where that is a zone of this
-- object, and in every zone in which it was before, but the one it left.
pub mem-children-handle_changing_location :
    (child new_parent new_zone old_parent old_zone : ℕ) (c : Call) (x y : ℕ)
    → All (λ v. v < 2 ^ 32) (change_words child new_parent new_zone old_parent old_zone)
    → Holds c.dgi (words (change_words child new_parent new_zone old_parent old_zone))
    → IsIndex c.object.zone_objects
    → ((new_parent == old_parent) && (new_zone == old_zone)) ≡ false
    → mem x (children y (handle_changing_location c).1.object.zone_objects) ≡ (
        ((x == child) && ((new_parent == c.object.do_id) && (y == new_zone)))
        || (mem x (children y c.object.zone_objects)
            && not ((x == child) && ((old_parent == c.object.do_id) && (y == old_zone)))))
mem-children-handle_changing_location child new_parent new_zone old_parent old_zone c x y f h i
      other =
    rw (handle_changing_location-eq child new_parent new_zone old_parent old_zone c f h) (
      rw
        (move_child-zones c.object child new_parent new_zone old_parent old_zone
          (passed_words (change_words child new_parent new_zone old_parent old_zone) c) other)
        (mem-moved_zones c.object.do_id child new_parent new_zone old_parent old_zone x y
          c.object.zone_objects i))
