-- ===== src/StateServer/DistributedObject/Handshake.antt =====
-- How an object and its new parent agree, src/stateserver/distributed_object.cpp: HandleLocationChange
-- at the one, CHANGING_LOCATION at the other, and LOCATION_ACK back.
use ardos.Prelude.{
  ℕ, ◌^◌, ◌≤◌, ◌<◌, ◌≡◌, refl, sym, ap, subst, ◌∙◌, true, false, ◌&&◌, List, [], ◌∷◌, ◌++◌, length,
  All, arith, ◌==◌, Bool-cases, inl, inr,
}
use ardos.Prelude.Sets.{mem}
use ardos.Prelude.Action.{Action, Result, ok, err, pure, ◌>>=◌, ◌>>◌, continue}
use ardos.Dc.{Dc}
use ardos.Net.Datagram.{Datagram, header_to, add_uint32}
use ardos.Net.Datagram.Writes.{Writes-seq}
use ardos.Net.Datagram.Adds.{header_bytes, header_to-Writes, add_uint32-Writes}
use ardos.Net.DatagramIterator.{DatagramIterator, advance, get_uint16, get_uint64, seek_payload}
use ardos.Net.DatagramIterator.Reads.{Holds, Holds-append}
use ardos.Net.Header.{IsChannel, length-header_bytes, read_header-at}
use ardos.Net.Items.{start}
use ardos.StateServer.Messages.{
  stateserver_object_changing_location, stateserver_object_location_ack,
}
use ardos.StateServer.ZoneObjects.{children, leave}
use ardos.StateServer.ZoneObjects.Index.{mem-children-enter}
use ardos.StateServer.DistributedObject.{DistributedObject, published, Call, from_dgi, change}
use ardos.StateServer.DistributedObject.Calls.{
  IsMessage, words, reads-given, passed_words, publish-Published,
}
use ardos.StateServer.DistributedObject.Location.{
  acknowledge, handle_location_ack, handle_location_change,
}
use ardos.StateServer.DistributedObject.Children.{enter_zone, admit_child, move_child}
use ardos.StateServer.DistributedObject.Children.Moves.{change_words, handle_changing_location-eq}
use ardos.StateServer.DistributedObject.Handle.{handle_message, handle_datagram}
use ardos.StateServer.DistributedObject.Location.Announces.{
  Logged, AreFew, InRange, handle_location_change-Said,
}

third :
    {C D : Type 0} (r : Result C × DatagramIterator) (c : Call) (k : C → D)
    (j : D → Action Call (Unit {0}))
    → continue (r.0, record c { dgi = r.1 }) (λ t. j (k t))
      ≡ continue
          ((continue r (λ t. pure (k t))).0, record c { dgi = (continue r (λ t. pure (k t))).1 })
          j
third (ok t, it) c k j = refl
third (err e, it) c k j = refl

second :
    {B C D : Type 0} (r : Result B × DatagramIterator) (c : Call) (m : Action DatagramIterator C)
    (k : B → C → D) (j : D → Action Call (Unit {0}))
    → continue (r.0, record c { dgi = r.1 }) (λ s. from_dgi m >>= λ t. j (k s t))
      ≡ continue
          (
            (continue r (λ s. m >>= λ t. pure (k s t))).0,
            record c { dgi = (continue r (λ s. m >>= λ t. pure (k s t))).1 },
          )
          j
unfolding from_dgi
second (ok s, it) c m k j = third (m it) c (k s) j
second (err e, it) c m k j = refl

first :
    {A B C D : Type 0} (r : Result A × DatagramIterator) (c : Call) (l : Action DatagramIterator B)
    (m : Action DatagramIterator C) (k : B → C → D) (j : D → Action Call (Unit {0}))
    → continue
        (r.0, record c { dgi = r.1 })
        (λ _. from_dgi l >>= λ s. from_dgi m >>= λ t. j (k s t))
      ≡ continue
          (
            (continue r (λ _. l >>= λ s. m >>= λ t. pure (k s t))).0,
            record c { dgi = (continue r (λ _. l >>= λ s. m >>= λ t. pure (k s t))).1 },
          )
          j
unfolding from_dgi
first (ok a, it) c l m k j = second (l it) c m k j
first (err e, it) c l m k j = refl

module _ (dc : Dc) where
  -- A message with a header as the constructors of Datagram write it comes to its case, with the
  -- iterator behind the header.
  pub handle_datagram-eq :
      (c : Call) (dg : Datagram) (cs : List ℕ) (sender msg_type : ℕ) (payload : List ℕ)
      → All IsChannel cs
      → length cs ≤ 255
      → IsChannel sender
      → msg_type < 2 ^ 16
      → Holds (start dg) (header_bytes cs sender msg_type ++ payload)
      → let it = advance (length (header_bytes cs sender msg_type)) (start dg) in
        (handle_datagram dc (record c { dgi = start dg })
          ≡ handle_message dc sender msg_type (record c { dgi = it }))
        × Holds it payload
  unfolding handle_datagram from_dgi
  handle_datagram-eq c dg cs sender msg_type payload f few g t h =
      let (front, back) = Holds-append (start dg) (header_bytes cs sender msg_type) payload h in
      (
        first (seek_payload (start dg)) c get_uint64 get_uint16 (λ s u. (s, u))
              (λ p. handle_message dc p.0 p.1)
            ∙ ap
                (λ (r : Result (ℕ × ℕ) × DatagramIterator).
                  continue (r.0, record c { dgi = r.1 }) (λ p. handle_message dc p.0 p.1))
                (read_header-at dg cs sender msg_type f few g t front)
            ∙ ap
                (λ (n : ℕ).
                  handle_message dc sender msg_type (record c { dgi = advance n (start dg) }))
                (sym (length-header_bytes cs sender msg_type)),
        back,
      )

  abbrev pub changing_bytes : List ℕ → ℕ → ℕ → ℕ → ℕ → ℕ → List ℕ
  changing_bytes targets child parent zone old_parent old_zone =
      header_bytes targets child stateserver_object_changing_location
      ++ words (change_words child parent zone old_parent old_zone)

  abbrev pub ack_bytes : ℕ → ℕ → ℕ → List ℕ
  ack_bytes child parent zone =
      header_bytes (child ∷ []) parent stateserver_object_location_ack ++ words (parent ∷ zone ∷ [])

  -- The answer to a child that comes into a zone.
  admit_child-Published :
      (o : DistributedObject) (child zone : ℕ) (c : Call)
      → (dg : Datagram) × ((admit_child o child zone c ≡ (
        ok tt,
        record c { object = enter_zone zone child c.object; log = c.log ++ published dg ∷ [] },
      ))
          × IsMessage dg (ack_bytes child o.do_id zone))
  unfolding admit_child change
  admit_child-Published o child zone c =
      publish-Published
        (header_to child o.do_id stateserver_object_location_ack
          >> (add_uint32 o.do_id >> add_uint32 zone))
        (ack_bytes child o.do_id zone) (record c { object = enter_zone zone child c.object })
        (Writes-seq _ _ _ _ (header_to-Writes child o.do_id stateserver_object_location_ack)
          (Writes-seq _ _ _ _ (add_uint32-Writes o.do_id) (add_uint32-Writes zone)))
        (omega arith)

  -- An object that gets the acknowledgement of its location takes it.
  handle_datagram-ack :
      (to : ℕ) (c : Call) (ack : Datagram)
      → to < 2 ^ 32
      → c.object.parent_id < 2 ^ 32
      → c.object.zone_id < 2 ^ 32
      → IsMessage ack (ack_bytes to c.object.parent_id c.object.zone_id)
      → (handle_datagram dc (record c { dgi = start ack })).1.object
        ≡ record c.object { parent_synchronized = true }
  unfolding handle_message handle_location_ack acknowledge change
  handle_datagram-ack to c ack f g h m =
      let o = c.object in
      let header = header_bytes (to ∷ []) o.parent_id stateserver_object_location_ack in
      let (eq, rest) =
        handle_datagram-eq c ack (to ∷ []) o.parent_id stateserver_object_location_ack
          (words (o.parent_id ∷ o.zone_id ∷ [])) (omega (arith, f), tt) (omega arith)
          (omega (arith, g)) (omega arith) m.holds in
      let at = record c { dgi = advance (length header) (start ack) } in
      rw
        (
          eq,
          reads-given (o.parent_id ∷ o.zone_id ∷ []) (λ p z. change (acknowledge p z)) at
              (g, (h, tt)) rest,
        )
        (ground arith)

  -- A parent that hears of a child that comes into one of its zones has it there, and answers.
  handle_datagram-changing :
      (targets : List ℕ) (child zone old_parent old_zone : ℕ) (c : Call) (dg : Datagram)
      → AreFew 5 targets
      → All (λ v. v < 2 ^ 32) (change_words child c.object.do_id zone old_parent old_zone)
      → ((c.object.do_id == old_parent) && (zone == old_zone)) ≡ false
      → IsMessage dg (changing_bytes targets child c.object.do_id zone old_parent old_zone)
      → let c' = (handle_datagram dc (record c { dgi = start dg })).1 in
        (mem child (children zone c'.object.zone_objects) ≡ true)
        × ((ack : Datagram) × (Logged (published ack) c'.log
              × IsMessage ack (ack_bytes child c.object.do_id zone)))
  unfolding handle_message move_child change
  handle_datagram-changing targets child zone old_parent old_zone c dg few f differs m =
      let o = c.object in
      let vs = change_words child o.do_id zone old_parent old_zone in
      let header = header_bytes targets child stateserver_object_changing_location in
      let (eq, rest) =
        handle_datagram-eq c dg targets child stateserver_object_changing_location (words vs) few.1
          (omega (arith, few.0)) (omega (arith, f.0)) (omega arith) m.holds in
      let at = record c { dgi = advance (length header) (start dg) } in
      let parse = handle_changing_location-eq child o.do_id zone old_parent old_zone at f rest in
      rw (eq, parse)
        (elim (Bool-cases (old_parent == o.do_id)) [
          | inl mine ↦
              let left = record (passed_words vs at) {
                object = record o { zone_objects = leave old_zone child o.zone_objects };
              } in
              let (ack, (run, message)) = admit_child-Published o child zone left in
              let here : (o.do_id == o.do_id) ≡ true = ground arith in
              let away : (zone == old_zone) ≡ false = ground arith in
              rw (here, mine, away, run)
                (
                  mem-children-enter child zone zone child (leave old_zone child o.zone_objects)
                      ∙ ground arith,
                  (ack, ((c.log, ([], refl)), message)),
                )
          | inr strange ↦
              let (ack, (run, message)) = admit_child-Published o child zone (passed_words vs at) in
              let here : (o.do_id == o.do_id) ≡ true = ground arith in
              rw (here, strange, run)
                (
                  mem-children-enter child zone zone child o.zone_objects ∙ ground arith,
                  (ack, ((c.log, ([], refl)), message)),
                )
        ])

  -- When an object within the ranges of its types is sent to another place, under a parent that there
  -- is and that is not the object itself, it publishes a message to that parent; the parent that handles
  -- it, whatever it knew before, then has the object in the new zone and publishes an answer; and the
  -- object that handles the answer is synchronized with its parent.
  pub location-handshake :
      (sender zone : ℕ) (c p : Call)
      → InRange c.object
      → p.object.do_id < 2 ^ 32
      → zone < 2 ^ 32
      → (p.object.do_id == 0) ≡ false
      → (p.object.do_id == c.object.do_id) ≡ false
      → ((p.object.do_id == c.object.parent_id) && (zone == c.object.zone_id)) ≡ false
      → let moved = (handle_location_change dc p.object.do_id zone sender c).1 in
        (targets : List ℕ) × ((said : Datagram) × ((mem p.object.do_id targets ≡ true)
            × (IsMessage said (
                  changing_bytes targets c.object.do_id p.object.do_id zone c.object.parent_id
                    c.object.zone_id)
                × (Logged (published said) moved.log
                    × (let told = (handle_datagram dc (record p { dgi = start said })).1 in
                        (mem c.object.do_id (children zone told.object.zone_objects) ≡ true)
                        × ((ack : Datagram) × (Logged (published ack) told.log
                              × ((handle_datagram dc
                                    (record moved { dgi = start ack })).1.object.parent_synchronized
                                  ≡ true))))))))
  location-handshake sender zone c p r small low some not_self differs =
      let o = c.object in
      let (targets, (at, (few, (said, (message, (logged, (under, within))))))) =
        handle_location_change-Said dc p.object.do_id zone sender c r small some not_self differs in
      let (inside, (ack, (answered, answer))) =
        handle_datagram-changing targets o.do_id zone o.parent_id o.zone_id p said few
          (r.id, (small, (low, (r.parent, (r.zone, tt))))) differs message in
      let moved = (handle_location_change dc p.object.do_id zone sender c).1 in
      (
        targets,
        (
          said,
          (
            at,
            (
              message,
              (
                logged,
                (
                  inside,
                  (
                    ack,
                    (
                      answered,
                      ap (λ (o : DistributedObject). o.parent_synchronized)
                          (handle_datagram-ack o.do_id moved ack r.id
                            (subst (λ n. n < 2 ^ 32) (sym under) small)
                            (subst (λ n. n < 2 ^ 32) (sym within) low)
                            (subst (λ n. IsMessage ack (ack_bytes o.do_id n moved.object.zone_id))
                              (sym under)
                              (subst (λ n. IsMessage ack (ack_bytes o.do_id p.object.do_id n))
                                (sym within) answer))),
                    ),
                  ),
                ),
              ),
            ),
          ),
        ),
      )
