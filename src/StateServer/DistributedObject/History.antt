-- ===== src/StateServer/DistributedObject/History.antt =====
-- An object of src/stateserver/distributed_object.cpp from its construction on: Init, and then any row
-- of datagrams. A throw out of HandleDatagram leaves the object as it is at the throw.
pub mod Children
pub mod Location
pub mod Identity
use ardos.Prelude.{ℕ, true, not, ◌==◌, if_ind, List, [], ◌∷◌}
use ardos.Prelude.Action.{Action}
use ardos.Dc.{Dc}
use ardos.Net.Datagram.{Datagram}
use ardos.Net.DatagramIterator.{DatagramIterator}
use ardos.Net.Items.{start}
use ardos.StateServer.FieldMap.{FieldMap}
use ardos.StateServer.DistributedObject.{DistributedObject, Effect, subscribed, Call}
use ardos.StateServer.DistributedObject.Fields.{save_field}
use ardos.StateServer.DistributedObject.Location.{acknowledge}
use ardos.StateServer.DistributedObject.Life.{init_object, construct_with, new_object}
use ardos.StateServer.DistributedObject.Handle.{handle_datagram}
use ardos.StateServer.DistributedObject.Keeps.{Stable}
use ardos.StateServer.DistributedObject.Keeps.Life.{init_object-Keeps}
use ardos.StateServer.DistributedObject.Keeps.Handle.{handle_datagram-Keeps}

module _ (dc : Dc) where
  -- HandleDatagram for one datagram after another, each with an iterator of its own.
  abbrev pub serve : List Datagram → Call → Call
  serve [] c = c
  serve (dg ∷ dgs) c = serve dgs (handle_datagram dc (record c { dgi = start dg })).1

  -- A new object that subscribed to its channel, behind Init, which reads no datagram.
  abbrev pub born : DistributedObject → Datagram → Call
  born o dg =
      (init_object dc (record { object = o; log = subscribed o.do_id ∷ []; dgi = start dg })).1

  pub serve-Stable :
      (P : DistributedObject → List Effect → Type 0)
      → Stable dc P
      → (dgs : List Datagram) (c : Call) → P c.object c.log
      → P (serve dgs c).object (serve dgs c).log
  serve-Stable P st [] c p = p
  serve-Stable P st (dg ∷ dgs) c p =
      serve-Stable P st dgs (handle_datagram dc (record c { dgi = start dg })).1
        ((handle_datagram-Keeps dc P st).kept (record c { dgi = start dg }) p)

  pub born-Stable :
      (P : DistributedObject → List Effect → Type 0)
      → Stable dc P
      → (o : DistributedObject) (dg : Datagram) → P o (subscribed o.do_id ∷ [])
      → P (born o dg).object (born o dg).log
  born-Stable P st o dg p =
      (init_object-Keeps dc P st).kept
        (record { object = o; log = subscribed o.do_id ∷ []; dgi = start dg }) p

  pub save_field_ind :
      (Q : DistributedObject → Type 0) (field : ℕ) (bytes : List ℕ) (o : DistributedObject)
      → ((fs : FieldMap) → Q (record o { required_fields = fs }))
      → ((fs : FieldMap) → Q (record o { ram_fields = fs }))
      → Q o
      → Q (save_field dc field bytes o)
  unfolding save_field
  save_field_ind Q field bytes o required ram same =
      if_ind Q (dc.is_required field) (λ _. required _)
        (λ _. if_ind Q (dc.is_ram field) (λ _. ram _) (λ _. same))

pub acknowledge_ind :
    (Q : DistributedObject → Type 0) (parent zone : ℕ) (o : DistributedObject)
    → Q (record o { parent_synchronized = true })
    → Q o
    → Q (acknowledge parent zone o)
unfolding acknowledge
acknowledge_ind Q parent zone o done same =
    if_ind Q (not (parent == o.parent_id)) (λ _. same)
      (λ _. if_ind Q (not (zone == o.zone_id)) (λ _. same) (λ _. done))
