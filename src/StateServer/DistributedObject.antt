-- ===== src/StateServer/DistributedObject.antt =====
-- src/stateserver/distributed_object.h: the state of an object, and the calls that leave it. What a
-- handler publishes, subscribes to and gives up is kept as a log: no handler is called back.
pub mod Calls
pub mod Entries
pub mod Fields
pub mod Location
pub mod Ai
pub mod Children
pub mod Life
pub mod Handle
pub mod Keeps
pub mod History
pub mod Handshake
use ardos.Prelude.{ℕ, Bool, List, [], ◌∷◌, ◌++◌}
use ardos.Prelude.Action.{Action, Result, ok, err, pure, modify, ◌>>=◌, continue}
use ardos.Net.Datagram.{Datagram, empty}
use ardos.Net.DatagramIterator.{DatagramIterator}
use ardos.StateServer.FieldMap.{FieldMap}
use ardos.StateServer.ZoneObjects.{ZoneObjects}

pub record DistributedObject : Type 0 where
  pub do_id : ℕ
  pub parent_id : ℕ
  pub zone_id : ℕ
  pub dclass : ℕ
  pub required_fields : FieldMap
  pub ram_fields : FieldMap
  pub zone_objects : ZoneObjects
  pub ai_channel : ℕ
  pub owner_channel : ℕ
  pub next_context : ℕ
  pub ai_explicitly_set : Bool
  pub parent_synchronized : Bool
  pub pending_parent : ℕ
  pub pending_zone : ℕ
  pub pending_sender : ℕ

-- PublishDatagram, SubscribeChannel, UnsubscribeChannel and Shutdown of the subscriber, and
-- RemoveDistributedObject of the state server that has the object.
pub data Effect : Type 0 where
  published : Datagram → Effect
  subscribed unsubscribed removed : ℕ → Effect
  stopped : Effect

-- A member function at work: the object, its log, and the iterator of the datagram that it handles.
pub record Call : Type 0 where
  pub object : DistributedObject
  pub log : List Effect
  pub dgi : DatagramIterator

unfoldable pub from_dgi {ℓ} : {A : Type ℓ} → Action DatagramIterator A → Action Call A
from_dgi m c = let r = m c.dgi in (r.0, record c { dgi = r.1 })

unfoldable pub change : (DistributedObject → DistributedObject) → Action Call (Unit {0})
change f = modify λ (c : Call). record c { object = f c.object }

-- The members, as they are now.
unfoldable pub self : Action Call DistributedObject
self c = (ok c.object, c)

unfoldable pub note : Effect → Action Call (Unit {0})
note e = modify λ (c : Call). record c { log = c.log ++ e ∷ [] }

-- More Add calls on a datagram that is not published yet.
abbrev pub filled : Result (Unit {0}) × Datagram → Action Call Datagram
filled (ok _, dg) c = (ok dg, c)
filled (err e, dg) c = (err e, c)

unfoldable pub fill : Action Datagram (Unit {0}) → Datagram → Action Call Datagram
fill m dg = filled (m dg)

-- A datagram made by these Add calls, and its PublishDatagram.
unfoldable pub publish : Action Datagram (Unit {0}) → Action Call (Unit {0})
publish m = do dg ← fill m empty; note (published dg)
