-- ===== src/StateServer/Server/Consistent.antt =====
-- The objects of src/stateserver/state_server.cpp by their identifiers, whatever datagrams come to the
-- server and to its objects.
use ardos.Prelude.{
  ℕ, ◌≡◌, refl, sym, ap, subst, ◌∙◌, Bool, true, false, Option, none, some, List, [], ◌∷◌, ◌++◌,
  arith, ◌==◌, if◌then◌else◌, Bool-cases, inl, inr,
}
use ardos.Prelude.Action.{Action, Result, ok, err, pure, ◌>>=◌, continue}
use ardos.Dc.{Dc}
use ardos.Net.Datagram.{Datagram}
use ardos.Net.DatagramIterator.{DatagramIterator, get_uint16, get_uint32, get_uint64, seek_payload}
use ardos.Net.Items.{start}
use ardos.StateServer.Messages.{
  stateserver_create_object_with_required, stateserver_create_object_with_required_other,
  stateserver_delete_ai_objects,
}
use ardos.StateServer.DistributedObject.{
  DistributedObject, Effect, published, subscribed, unsubscribed, removed, stopped, Call,
}
use ardos.StateServer.DistributedObject.Life.{
  construct, init_object, new_object, unpack_required, unpack_other,
}
use ardos.StateServer.DistributedObject.Handle.{handle_datagram}
use ardos.StateServer.DistributedObject.Keeps.Life.{init_object-Keeps}
use ardos.StateServer.DistributedObject.Keeps.Handle.{handle_datagram-Keeps}
use ardos.StateServer.DistributedObject.History.Identity.{IsItself, IsItself-Stable}
use ardos.StateServer.Server.{
  Objects, find_object, put_object, StateServer, Work, receiving, alter, new_server,
  remove_distributed_object, keep_object, start_object, generate, handle_generate,
  handle_server_message, handle_server_datagram, apply_removals, handled_by, deliver_to_object,
}
use ardos.StateServer.Server.Identifiers.{
  AreConsistent, IsOrderly, IsOrderly-refl, put-IsOrderly, put-AreConsistent, erase-AreConsistent,
}
use ardos.StateServer.Server.Safe.{
  IsSafe, IsSafe-pure, IsSafe-current, IsSafe-receiving, ◌then_safe◌, IsSafe-if, IsSafe-catch_eof,
  handle_delete_ai-IsSafe,
}

-- Every value that a call returns has the property.
record Yields {ℓ} {A : Type ℓ} (R : A → Type 0) (m : Action DatagramIterator A) : Type ℓ where
  pub each : (it it' : DatagramIterator) (a : A) → m it ≡ (ok a, it') → R a

module _ {ℓ κ} {A : Type ℓ} {B : Type κ} {R : B → Type 0} where
  yields_last :
      (r : Result A × DatagramIterator) (f : A → Action DatagramIterator B)
      → ((a : A) → Yields R (f a))
      → (it' : DatagramIterator) (b : B) → continue r f ≡ (ok b, it')
      → R b
  yields_last (ok a, it) f kf it' b h = (kf a).each it it' b h
  yields_last (err e, it) f kf it' b h =
      absurd (cc (ap (λ (r : Result B × DatagramIterator). r.0) h))

  Yields-bind :
      (m : Action DatagramIterator A) (f : A → Action DatagramIterator B)
      → ((a : A) → Yields R (f a))
      → Yields R (m >>= f)
  Yields-bind m f kf = record { each = λ it it' b h. yields_last (m it) f kf it' b h }

Yields-pure {ℓ} :
    {A : Type ℓ} {R : A → Type 0} (a : A) → R a → Yields R (pure {S = DatagramIterator} a)
Yields-pure {A = A} {R = R} a ra = record {
  each = λ it it' b h.
      let first = ap (λ (r : Result A × DatagramIterator). r.0) h in
      let same : a ≡ b = cc first in subst R same ra;
}

-- What happens to a server: a datagram for itself, or one for an object.
pub data Event : Type 0 where
  for_server : Datagram → Event
  for_object : ℕ → Datagram → Event

module _ (dc : Dc) where
  construct-Yields :
      (do_id parent zone dclass : ℕ) (other : Bool)
      → Yields
          (λ (o : DistributedObject). o.do_id ≡ do_id)
          (construct dc do_id parent zone dclass other)
  unfolding construct new_object
  construct-Yields do_id parent zone dclass other =
      Yields-bind (unpack_required dc (dc.inherited_fields dclass) []) _ λ required.
        Yields-bind
          (if other
            then (get_uint16 >>= λ count. unpack_other dc (dc.field_by_index dclass) count [])
            else pure [])
          _
          λ ram. Yields-bind seek_payload _ λ _.
            Yields-bind get_uint64 _ λ sender.
              Yields-pure (new_object dc do_id dclass required ram parent zone sender) refl

  kept_object :
      (do_id : ℕ) (r : Result (Unit {0}) × Call) (w : Work)
      → r.1.object.do_id ≡ do_id
      → find_object do_id w.server.dist_objs ≡ none
      → IsOrderly w.server.dist_objs (keep_object dc do_id r w).1.server.dist_objs
  unfolding alter
  kept_object do_id (ok u, c) w same new = put-IsOrderly do_id c.object w.server.dist_objs same new
  kept_object do_id (err e, c) w same new = IsOrderly-refl w.server.dist_objs

  start_object-IsOrderly :
      (do_id : ℕ) (o : DistributedObject) (w : Work)
      → o.do_id ≡ do_id
      → find_object do_id w.server.dist_objs ≡ none
      → IsOrderly w.server.dist_objs (start_object dc do_id o w).1.server.dist_objs
  unfolding start_object
  start_object-IsOrderly do_id o w same new =
      let c : Call = record { object = o; log = subscribed do_id ∷ []; dgi = w.dgi } in
      kept_object do_id (init_object dc c) w
        ((init_object-Keeps dc (IsItself dc do_id) (IsItself-Stable dc do_id)).kept c (same, tt)).0
        new

  receiving-IsOrderly {ℓ κ} :
      {A : Type ℓ} {B : Type κ} (R : A → Type 0) (m : Action DatagramIterator A)
      (f : A → Action Work B) (w : Work)
      → Yields R m
      → ((a : A) (it : DatagramIterator)
          → R a
          → IsOrderly w.server.dist_objs (f a (record w { dgi = it })).1.server.dist_objs)
      → IsOrderly w.server.dist_objs ((receiving m >>= f) w).1.server.dist_objs
  unfolding receiving
  receiving-IsOrderly {A = A} R m f w y kf = last (m w.dgi) refl
    where
      last :
          (r : Result A × DatagramIterator)
          → m w.dgi ≡ r
          → IsOrderly w.server.dist_objs
              (continue (r.0, record w { dgi = r.1 }) f).1.server.dist_objs
      last (ok a, it) h = kf a it (y.each w.dgi it a h)
      last (err e, it) h = IsOrderly-refl w.server.dist_objs

  generate-IsOrderly :
      (do_id parent zone : ℕ) (other : Bool) (o : Option DistributedObject) (dclass : Option ℕ)
      (w : Work)
      → find_object do_id w.server.dist_objs ≡ o
      → IsOrderly w.server.dist_objs
          (generate dc do_id parent zone other o dclass w).1.server.dist_objs
  unfolding generate
  generate-IsOrderly do_id parent zone other (some o) dclass w h = IsOrderly-refl w.server.dist_objs
  generate-IsOrderly do_id parent zone other none none w h = IsOrderly-refl w.server.dist_objs
  generate-IsOrderly do_id parent zone other none (some dclass) w h =
      receiving-IsOrderly (λ (o : DistributedObject). o.do_id ≡ do_id) _ _ w
        (construct-Yields do_id parent zone dclass other)
        (λ o it same. start_object-IsOrderly do_id o (record w { dgi = it }) same h)

  handle_generate-IsSafe : (other : Bool) → IsSafe (handle_generate dc other)
  unfolding handle_generate
  handle_generate-IsSafe other = IsSafe-receiving get_uint32 then_safe λ do_id.
      IsSafe-receiving get_uint32 then_safe λ parent. IsSafe-receiving get_uint32 then_safe λ zone.
      IsSafe-receiving get_uint16 then_safe λ dc_id.
      IsSafe-current _ λ w. generate-IsOrderly do_id parent zone other _ _ w refl

  handle_server_datagram-IsSafe : IsSafe (handle_server_datagram dc)
  unfolding handle_server_datagram handle_server_message
  handle_server_datagram-IsSafe = IsSafe-receiving seek_payload then_safe λ _.
      IsSafe-catch_eof (
        IsSafe-receiving get_uint64 then_safe λ sender.
        IsSafe-receiving get_uint16 then_safe λ msg_type.
        IsSafe-if (msg_type == stateserver_create_object_with_required)
          (handle_generate-IsSafe false)
          (IsSafe-if (msg_type == stateserver_create_object_with_required_other)
            (handle_generate-IsSafe true)
            (IsSafe-if (msg_type == stateserver_delete_ai_objects) (handle_delete_ai-IsSafe sender)
              (IsSafe-pure tt))))
      then_safe λ _. IsSafe-pure tt

  removals_consistent :
      (es : List Effect) (server : StateServer)
      → AreConsistent server.dist_objs
      → AreConsistent (apply_removals dc es server).dist_objs
  unfolding remove_distributed_object
  removals_consistent [] server a = a
  removals_consistent (removed do_id ∷ es) server a =
      removals_consistent es (remove_distributed_object do_id server)
        (erase-AreConsistent do_id server.dist_objs a)
  removals_consistent (published dg ∷ es) server a = removals_consistent es server a
  removals_consistent (subscribed c ∷ es) server a = removals_consistent es server a
  removals_consistent (unsubscribed c ∷ es) server a = removals_consistent es server a
  removals_consistent (stopped ∷ es) server a = removals_consistent es server a

  pub found_id :
      (k : ℕ) (os : Objects) (o : DistributedObject)
      → AreConsistent os
      → find_object k os ≡ some o
      → o.do_id ≡ k
  found_id k [] o a h = absurd (cc h)
  found_id k ((j, p) ∷ os) o (new, (same, a)) h = elim (Bool-cases (k == j)) [
    | inl e ↦
        let it : p ≡ o = (let h' = rw e at h in cc h') in
        let eq : k ≡ j = ground arith in
        sym (ap (λ (o : DistributedObject). o.do_id) it) ∙ same ∙ sym eq
    | inr e ↦ found_id k os o a (rw e at h)
  ]

  -- HandleDatagram of an object of the server.
  abbrev pub handled : DistributedObject → Datagram → Call
  handled o dg = (handle_datagram dc (record { object = o; log = []; dgi = start dg })).1

  pub handled-IsItself :
      (k : ℕ) (o : DistributedObject) (dg : Datagram)
      → o.do_id ≡ k
      → IsItself dc k (handled o dg).object (handled o dg).log
  handled-IsItself k o dg same =
      (handle_datagram-Keeps dc (IsItself dc k) (IsItself-Stable dc k)).kept
        (record { object = o; log = []; dgi = start dg }) (same, tt)

  handled_by-AreConsistent :
      (o : Option DistributedObject) (k : ℕ) (dg : Datagram) (server : StateServer)
      → find_object k server.dist_objs ≡ o
      → AreConsistent server.dist_objs
      → AreConsistent (handled_by dc o k dg server).dist_objs
  handled_by-AreConsistent none k dg server h a = a
  handled_by-AreConsistent (some o) k dg server h a =
      let c = handled o dg in
      removals_consistent c.log
        (record server {
          dist_objs = put_object k c.object server.dist_objs;
          effects = server.effects ++ c.log;
        })
        (put-AreConsistent k c.object server.dist_objs
          (handled-IsItself k o dg (found_id k server.dist_objs o a h)).0 a)

  deliver_to_object-AreConsistent :
      (k : ℕ) (dg : Datagram) (server : StateServer)
      → AreConsistent server.dist_objs
      → AreConsistent (deliver_to_object dc k dg server).dist_objs
  unfolding deliver_to_object
  deliver_to_object-AreConsistent k dg server a = handled_by-AreConsistent _ k dg server refl a

  abbrev pub step : Event → StateServer → StateServer
  step (for_server dg) server =
      (handle_server_datagram dc (record { server = server; dgi = start dg })).1.server
  step (for_object do_id dg) server = deliver_to_object dc do_id dg server

  abbrev pub steps : List Event → StateServer → StateServer
  steps [] server = server
  steps (e ∷ es) server = steps es (step e server)

  steps_consistent :
      (es : List Event) (server : StateServer)
      → AreConsistent server.dist_objs
      → AreConsistent (steps es server).dist_objs
  steps_consistent [] server a = a
  steps_consistent (for_server dg ∷ es) server a = steps_consistent es _ (
      (handle_server_datagram-IsSafe.kept (record { server = server; dgi = start dg })).consistent
        a)
  steps_consistent (for_object do_id dg ∷ es) server a =
      steps_consistent es _ (deliver_to_object-AreConsistent do_id dg server a)

  pub steps-AreConsistent :
      (channel : ℕ) (es : List Event) → AreConsistent (steps es (new_server channel)).dist_objs
  unfolding new_server
  steps-AreConsistent channel es = steps_consistent es (new_server channel) tt
