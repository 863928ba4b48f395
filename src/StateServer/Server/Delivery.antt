-- ===== src/StateServer/Server/Delivery.antt =====
-- What a datagram for one object of src/stateserver/state_server.cpp does to all of them.
use ardos.Prelude.{Bool, true, false, Option, none, some, List, [], ◌∷◌, if◌then◌else◌}
use ardos.Dc.{Dc}
use ardos.Net.Datagram.{Datagram}
use ardos.StateServer.DistributedObject.{DistributedObject, Effect, removed}
use ardos.StateServer.Server.{StateServer}
use ardos.StateServer.Server.Consistent.{handled}

-- Whether an object took itself out of the map.
abbrev pub has_removed : List Effect → Bool
has_removed [] = false
has_removed (removed d ∷ es) = true
has_removed (e ∷ es) = has_removed es

module _ (dc : Dc) where
  -- What an object that gets a datagram leaves in its place.
  abbrev pub remains : Option DistributedObject → Datagram → Option DistributedObject
  remains none dg = none
  remains (some o) dg =
      if has_removed (handled dc o dg).log then none else some (handled dc o dg).object
