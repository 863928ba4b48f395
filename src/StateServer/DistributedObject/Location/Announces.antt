-- ===== src/StateServer/DistributedObject/Location/Announces.antt =====
-- The CHANGING_LOCATION message of HandleLocationChange in src/stateserver/distributed_object.cpp.
use ardos.Prelude.{
  ℕ, suc, ◌+◌, ◌%◌, ◌^◌, ◌≤◌, ◌<◌, ◌≡◌, refl, sym, ap, subst, ◌∙◌, Bool, true, false, ◌&&◌, List,
  [], ◌∷◌, ◌++◌, length, length-append, append_assoc, All, arith, ◌==◌, if◌then◌else◌, Bool-cases,
  inl, inr, ==_iff,
}
use ardos.Prelude.Words.{le_bytes}
use ardos.Prelude.Sets.{mem, insert, mem-insert}
use ardos.Prelude.Action.{ok, pure, ◌>>◌}
use ardos.Dc.{Dc}
use ardos.Net.Datagram.{Datagram, header_to, header_to_all, add_uint32, add_location}
use ardos.Net.Datagram.Writes.{Writes-seq}
use ardos.Net.Datagram.Adds.{
  header_bytes, header_to-Writes, header_to_all-Writes, add_uint32-Writes, add_location-Writes,
}
use ardos.Net.Header.{IsChannel, length-header_bytes}
use ardos.StateServer.Messages.{
  location_as_channel, stateserver_object_changing_location, stateserver_object_get_ai,
}
use ardos.StateServer.DistributedObject.{DistributedObject, Effect, published, Call, self, change}
use ardos.StateServer.DistributedObject.Calls.{IsMessage, publish-Published, words}
use ardos.StateServer.DistributedObject.Children.Moves.{change_words}
use ardos.StateServer.DistributedObject.Location.{
  insert_channel, keepers, parent_targets, zone_targets, ask_ai, announce_location, relocate,
  change_location, handle_location_change,
}
use ardos.StateServer.DistributedObject.Keeps.{Quiet, Keeps, Keeps-if, Keeps-pure}
use ardos.StateServer.DistributedObject.Keeps.Moved.{after_join, moved, move-eq}
use ardos.StateServer.DistributedObject.Keeps.Entries.{send_location_entry-Keeps}

-- An effect stands in a log.
abbrev pub Logged : Effect → List Effect → Type 0
Logged e l = (front : List Effect) × ((back : List Effect) × (l ≡ front ++ e ∷ back))

Logged-append : (e d : Effect) (l : List Effect) → Logged e l → Logged e (l ++ d ∷ [])
Logged-append e d l (front, (back, h)) =
    (front, (back ++ d ∷ [], rw h (append_assoc front (e ∷ back) (d ∷ []))))

-- A set of at most `n` channels.
abbrev pub AreFew : ℕ → List ℕ → Type 0
AreFew n cs = (length cs ≤ n) × All IsChannel cs

AreFew-insert : (n c : ℕ) (cs : List ℕ) → IsChannel c → AreFew n cs → AreFew (suc n) (insert c cs)
AreFew-insert n c cs small (few, all) = elim (Bool-cases (mem c cs)) [
  | inl e ↦ rw e (omega (arith, few), all)
  | inr e ↦ rw e (omega (arith, few), (small, all))
]

AreFew-insert_channel :
    (n c : ℕ) (cs : List ℕ) → IsChannel c → AreFew n cs → AreFew (suc n) (insert_channel c cs)
AreFew-insert_channel n c cs small (few, all) = elim (Bool-cases (c == 0)) [
  | inl e ↦ rw e (omega (arith, few), all)
  | inr e ↦ rw e (AreFew-insert n c cs small (few, all))
]

-- The members of an object within their C++ types.
pub record InRange (o : DistributedObject) : Type 0 where
  pub id : o.do_id < 2 ^ 32
  pub parent : o.parent_id < 2 ^ 32
  pub zone : o.zone_id < 2 ^ 32
  pub ai : o.ai_channel < 2 ^ 64
  pub owner : o.owner_channel < 2 ^ 64

location-IsChannel : (p z : ℕ) → p < 2 ^ 32 → z < 2 ^ 32 → IsChannel (location_as_channel p z)
unfolding location_as_channel
location-IsChannel p z f g = omega (arith, f, g)

keepers-AreFew : (o : DistributedObject) → InRange o → AreFew 2 (keepers o)
unfolding keepers
keepers-AreFew o r =
    AreFew-insert_channel 1 o.owner_channel (insert_channel o.ai_channel []) r.owner
      (AreFew-insert_channel 0 o.ai_channel [] r.ai (omega arith, tt))

place-AreFew :
    (o : DistributedObject)
    → InRange o
    → AreFew 4 (insert (location_as_channel o.parent_id o.zone_id) (insert o.parent_id (keepers o)))
place-AreFew o r =
    AreFew-insert 3 (location_as_channel o.parent_id o.zone_id) (insert o.parent_id (keepers o))
      (location-IsChannel o.parent_id o.zone_id r.parent r.zone)
      (AreFew-insert 2 o.parent_id (keepers o) (omega (arith, r.parent)) (keepers-AreFew o r))

pub parent_targets-AreFew :
    (o : DistributedObject) (parent : ℕ)
    → InRange o
    → parent < 2 ^ 32
    → AreFew 5 (parent_targets o parent)
unfolding parent_targets
parent_targets-AreFew o parent r small = elim (Bool-cases (o.parent_id == 0)) [
  | inl e ↦ rw e (
      let (few, all) = keepers-AreFew o r in
      AreFew-insert_channel 4 parent (keepers o) (omega (arith, small)) (omega (arith, few), all))
  | inr e ↦ rw e (AreFew-insert_channel 4 parent _ (omega (arith, small)) (place-AreFew o r))
]

pub zone_targets-AreFew : (o : DistributedObject) → InRange o → AreFew 5 (zone_targets o)
unfolding zone_targets
zone_targets-AreFew o r = let (few, all) = place-AreFew o r in (omega (arith, few), all)

pub mem-parent_targets :
    (o : DistributedObject) (parent : ℕ)
    → (parent == 0) ≡ false
    → mem parent (parent_targets o parent) ≡ true
unfolding parent_targets
mem-parent_targets o parent h = rw (h, mem-insert parent parent _) (ground arith)

pub mem-zone_targets : (o : DistributedObject) → mem o.parent_id (zone_targets o) ≡ true
unfolding zone_targets
mem-zone_targets o =
    rw
      (
        mem-insert o.parent_id (location_as_channel o.parent_id o.zone_id)
            (insert o.parent_id (keepers o)),
        mem-insert o.parent_id o.parent_id (keepers o),
      )
      (ground arith)

-- The call was heard: a message with these bytes is in its log, and the location is as it was.
abbrev pub Said : List ℕ → Call → Call → Type 0
Said xs c c' =
    (dg : Datagram) × (IsMessage dg xs
      × (Logged (published dg) c'.log
          × ((c'.object.parent_id ≡ c.object.parent_id) × (c'.object.zone_id ≡ c.object.zone_id))))

Said-Quiet :
    (dg : Datagram) (p z : ℕ)
    → Quiet (λ o l. Logged (published dg) l × ((o.parent_id ≡ p) × (o.zone_id ≡ z)))
Said-Quiet dg p z = record {
  sends =
      λ {o} {l} other (logged, at). (Logged-append (published dg) (published other) l logged, at);
  touches = λ field s. s;
}

module _ (dc : Dc) where
  pub announce_location-Said :
      (old : DistributedObject) (targets : List ℕ) (parent zone : ℕ) (c : Call)
      → length targets ≤ 5
      → Said
          (header_bytes targets old.do_id stateserver_object_changing_location
            ++ words (change_words old.do_id parent zone old.parent_id old.zone_id))
          c
          (announce_location dc old targets parent zone c).1
  unfolding announce_location change
  announce_location-Said old targets parent zone c few =
      let payload = words (change_words old.do_id parent zone old.parent_id old.zone_id) in
      let header = header_bytes targets old.do_id stateserver_object_changing_location in
      let sent =
        publish-Published
          (header_to_all targets old.do_id stateserver_object_changing_location
            >> (add_uint32 old.do_id
                >> (add_location parent zone >> add_location old.parent_id old.zone_id)))
          (header ++ payload)
          (record c { object = record c.object { parent_synchronized = false } })
          (Writes-seq _ _ _ _
            (header_to_all-Writes targets old.do_id stateserver_object_changing_location)
            (Writes-seq _ _ _ _ (add_uint32-Writes old.do_id) (
              Writes-seq _ _ _ _ (add_location-Writes parent zone)
                (add_location-Writes old.parent_id old.zone_id))))
          (omega (
            arith,
            length-append header payload,
            length-header_bytes targets old.do_id stateserver_object_changing_location,
            few,
          )) in
      (
        sent.0,
        (
          sent.1.1,
          rw (sent.1.0) (
              Keeps.kept
                (Keeps-if (parent == 0) (Keeps-pure tt) (
                  send_location_entry-Keeps dc _
                    (Said-Quiet sent.0 c.object.parent_id c.object.zone_id)
                    (location_as_channel parent zone)))
                _ ((c.log, ([], refl)), (refl, refl))),
        ),
      )

-- The second part of a move does not throw, and leaves the identity and the location alone.
pub after_join-Passes :
    (parent : ℕ) (c : Call)
    → (parent == 0) ≡ false
    → (c' : Call) × ((after_join parent c ≡ (ok tt, c'))
        × ((c'.object.parent_id ≡ c.object.parent_id) × (c'.object.zone_id ≡ c.object.zone_id)))
unfolding ask_ai self change
after_join-Passes parent c h = elim (Bool-cases c.object.ai_explicitly_set) [
  | inl e ↦ (c, (rw (h, e) refl, (refl, refl)))
  | inr e ↦
      let asked = record c {
        object = record c.object { next_context = (c.object.next_context + 1) % 2 ^ 32 };
      } in
      let sent =
        publish-Published
          (header_to c.object.parent_id c.object.do_id stateserver_object_get_ai
            >> add_uint32 c.object.next_context)
          (header_bytes (c.object.parent_id ∷ []) c.object.do_id stateserver_object_get_ai
            ++ le_bytes 4 c.object.next_context)
          asked
          (Writes-seq _ _ _ _
            (header_to-Writes c.object.parent_id c.object.do_id stateserver_object_get_ai)
            (add_uint32-Writes c.object.next_context))
          (omega arith) in
      (
        record asked { log = asked.log ++ published sent.0 ∷ [] },
        (
          rw h (ap (λ (b : Bool). (if b then pure {S = Call} tt else ask_ai) c) e ∙ sent.1.0),
          (refl, refl),
        ),
      )
]

module _ (dc : Dc) where
  -- HandleLocationChange to another place under a parent that there is and that is not the object: the
  -- object is then there, and its message on that, to the parent and at most four others, is in its log.
  pub handle_location_change-Said :
      (parent zone sender : ℕ) (c : Call)
      → InRange c.object
      → parent < 2 ^ 32
      → (parent == 0) ≡ false
      → (parent == c.object.do_id) ≡ false
      → ((parent == c.object.parent_id) && (zone == c.object.zone_id)) ≡ false
      → (targets : List ℕ) × ((mem parent targets ≡ true)
          × (AreFew 5 targets
              × Said
                  (header_bytes targets c.object.do_id stateserver_object_changing_location
                    ++ words (
                        change_words c.object.do_id parent zone c.object.parent_id
                          c.object.zone_id))
                  (record c { object = relocate parent zone c.object })
                  (handle_location_change dc parent zone sender c).1))
  unfolding handle_location_change change_location self change
  handle_location_change-Said parent zone sender c r small some not_self differs =
      elim (Bool-cases (parent == c.object.parent_id)) [
        | inl same ↦
            let o = c.object in
            let here : parent ≡ o.parent_id = (==_iff parent o.parent_id).0 same in
            let away : (zone == o.zone_id) ≡ false = ground arith in
            let few = zone_targets-AreFew o r in
            (
              zone_targets o,
              (
                subst (λ p. mem p (zone_targets o) ≡ true) (sym here) (mem-zone_targets o),
                (
                  few,
                  rw (not_self, same, away)
                      (announce_location-Said dc o (zone_targets o) parent zone
                        (record c { object = relocate parent zone o }) few.0),
                ),
              ),
            )
        | inr other ↦
            let o = c.object in
            let targets = parent_targets o parent in
            let few = parent_targets-AreFew o parent r small in
            let (c', (joins, at)) = after_join-Passes parent (moved parent zone c) some in
            let said = announce_location-Said dc o targets parent zone c' few.0 in
            (
              targets,
              (
                mem-parent_targets o parent some,
                (
                  few,
                  rw
                      (
                        not_self,
                        other,
                        move-eq parent zone (announce_location dc o targets parent zone) c,
                        joins,
                      )
                      (
                        said.0,
                        (said.1.0, (said.1.1.0, (said.1.1.1.0 ∙ at.0, said.1.1.1.1 ∙ at.1))),
                      ),
                ),
              ),
            )
      ]
