-- ===== src/StateServer/Server.antt =====
-- src/stateserver/state_server.cpp: the objects of a state server, and its own messages. `_distObjs`
-- has pointers to the objects: each one stands here with its state.
pub mod Identifiers
pub mod Safe
pub mod Consistent
pub mod Delivery
use ardos.Prelude.{
  ℕ, Bool, true, false, ◌&&◌, Option, none, some, List, [], ◌∷◌, ◌++◌, ◌==◌, if◌then◌else◌,
}
use ardos.Prelude.Action.{Action, Result, ok, err, pure, modify, gets, ◌>>=◌, ◌>>◌, catch_eof}
use ardos.Dc.{Dc}
use ardos.Net.Datagram.{Datagram, empty, header_to_all, add_uint64}
use ardos.Net.DatagramIterator.{DatagramIterator, get_uint16, get_uint32, get_uint64, seek_payload}
use ardos.Net.Items.{start}
use ardos.StateServer.Messages.{
  bchan_stateservers, stateserver_create_object_with_required,
  stateserver_create_object_with_required_other, stateserver_delete_ai_objects,
}
use ardos.StateServer.DistributedObject.{
  DistributedObject, Effect, published, subscribed, removed, Call,
}
use ardos.StateServer.DistributedObject.Life.{construct, init_object}
use ardos.StateServer.DistributedObject.Handle.{handle_datagram}

abbrev pub Objects : Type 0
Objects = List (ℕ × DistributedObject)

abbrev pub find_object : ℕ → Objects → Option DistributedObject
find_object k [] = none
find_object k ((j, o) ∷ os) = let rest = find_object k os in if k == j then some o else rest

abbrev pub put_object : ℕ → DistributedObject → Objects → Objects
put_object k o [] = (k, o) ∷ []
put_object k o ((j, p) ∷ os) =
    let rest = put_object k o os in if k == j then (k, o) ∷ os else (j, p) ∷ rest

abbrev pub erase_object : ℕ → Objects → Objects
erase_object k [] = []
erase_object k ((j, o) ∷ os) =
    let rest = erase_object k os in if k == j then rest else (j, o) ∷ rest

pub record StateServer : Type 0 where
  pub channel : ℕ
  pub dist_objs : Objects
  -- What the server and its objects published and subscribed to.
  pub effects : List Effect

-- A member function of the server at work, with the iterator of the datagram that it handles.
pub record Work : Type 0 where
  pub server : StateServer
  pub dgi : DatagramIterator

unfoldable pub receiving {ℓ} : {A : Type ℓ} → Action DatagramIterator A → Action Work A
receiving m w = let r = m w.dgi in (r.0, record w { dgi = r.1 })

unfoldable pub current : Action Work StateServer
current w = (ok w.server, w)

unfoldable pub alter : (StateServer → StateServer) → Action Work (Unit {0})
alter f = modify λ (w : Work). record w { server = f w.server }

-- StateServer::StateServer, for the channel of the configuration
unfoldable pub new_server : ℕ → StateServer
new_server channel = record {
  channel = channel;
  dist_objs = [];
  effects = subscribed channel ∷ subscribed bchan_stateservers ∷ [];
}

-- StateServer::RemoveDistributedObject
unfoldable pub remove_distributed_object : ℕ → StateServer → StateServer
remove_distributed_object do_id server = record server {
  dist_objs = erase_object do_id server.dist_objs;
}

-- The objects that an AI manages by its own word.
unfoldable pub managed_by : ℕ → Objects → List ℕ
managed_by ai [] = []
managed_by ai ((do_id, o) ∷ os) =
    let rest = managed_by ai os in
    if (o.ai_channel == ai) && o.ai_explicitly_set then do_id ∷ rest else rest

abbrev pub publish_built : Result (Unit {0}) × Datagram → Action Work (Unit {0})
publish_built (ok _, dg) w = (
  ok tt,
  record w { server = record w.server { effects = w.server.effects ++ published dg ∷ [] } },
)
publish_built (err e, dg) w = (err e, w)

unfoldable pub handle_delete_ai : ℕ → Action Work (Unit {0})
unfolding get_uint64 managed_by header_to_all add_uint64
handle_delete_ai sender = do
  ai ← receiving get_uint64
  server ← current
  publish_built (
      (do
        header_to_all (managed_by ai server.dist_objs) sender stateserver_delete_ai_objects
        add_uint64 ai)
        empty)

-- A call of the object ends: what it published goes to the log of the server.
abbrev pub logged : List Effect → Action Work (Unit {0})
logged log = alter λ server. record server { effects = server.effects ++ log }

module _ (dc : Dc) where
  -- Init of a new object, which subscribed to its channel; then it is one of the server's.
  abbrev pub keep_object : ℕ → Result (Unit {0}) × Call → Action Work (Unit {0})
  keep_object do_id (ok _, c) = do
    logged c.log
    alter λ server. record server { dist_objs = put_object do_id c.object server.dist_objs }
  keep_object do_id (err e, c) = do logged c.log; λ w. (err e, w)

  unfoldable pub start_object : ℕ → DistributedObject → Action Work (Unit {0})
  unfolding init_object
  start_object do_id o w =
      keep_object do_id
        (init_object dc (record { object = o; log = subscribed do_id ∷ []; dgi = w.dgi })) w

  -- The tests of HandleGenerate, by what stands under the identifier and for the class.
  unfoldable pub generate :
      ℕ → ℕ → ℕ → Bool → Option DistributedObject → Option ℕ → Action Work (Unit {0})
  unfolding construct start_object
  generate do_id parent zone other (some o) dclass = pure tt
  generate do_id parent zone other none none = pure tt
  generate do_id parent zone other none (some dclass) = do
    o ← receiving (construct dc do_id parent zone dclass other)
    start_object do_id o

  unfoldable pub handle_generate : Bool → Action Work (Unit {0})
  unfolding get_uint32 get_uint16 generate
  handle_generate other = do
    do_id ← receiving get_uint32
    parent ← receiving get_uint32
    zone ← receiving get_uint32
    dc_id ← receiving get_uint16
    server ← current
    generate do_id parent zone other (find_object do_id server.dist_objs) (dc.get_class dc_id)

  -- The switch over the message type.
  unfoldable pub handle_server_message : Action Work (Unit {0})
  unfolding get_uint64 get_uint16 handle_generate handle_delete_ai
  handle_server_message = do
    sender ← receiving get_uint64
    msg_type ← receiving get_uint16
    if msg_type == stateserver_create_object_with_required
        then handle_generate false
        else if msg_type == stateserver_create_object_with_required_other
        then handle_generate true
        else if msg_type == stateserver_delete_ai_objects
        then handle_delete_ai sender
        else pure tt

  -- StateServer::HandleDatagram
  unfoldable pub handle_server_datagram : Action Work (Unit {0})
  unfolding seek_payload handle_server_message
  handle_server_datagram = do
    receiving seek_payload
    catch_eof handle_server_message >>= λ _. pure tt

  -- A datagram for an object of the server: HandleDatagram of the object, with the calls on the
  -- server that it makes.
  abbrev pub apply_removals : List Effect → StateServer → StateServer
  apply_removals [] server = server
  apply_removals (removed do_id ∷ es) server =
      apply_removals es (remove_distributed_object do_id server)
  apply_removals (e ∷ es) server = apply_removals es server

  abbrev pub after_call : ℕ → Call → StateServer → StateServer
  after_call do_id c server = apply_removals c.log (record server {
    dist_objs = put_object do_id c.object server.dist_objs;
    effects = server.effects ++ c.log;
  })

  abbrev pub handled_by : Option DistributedObject → ℕ → Datagram → StateServer → StateServer
  handled_by none do_id dg server = server
  handled_by (some o) do_id dg server =
      after_call do_id (handle_datagram dc (record { object = o; log = []; dgi = start dg })).1
        server

  unfoldable pub deliver_to_object : ℕ → Datagram → StateServer → StateServer
  unfolding handle_datagram remove_distributed_object
  deliver_to_object do_id dg server =
      handled_by (find_object do_id server.dist_objs) do_id dg server
