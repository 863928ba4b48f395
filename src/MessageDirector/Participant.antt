-- ===== src/MessageDirector/Participant.antt =====
-- src/messagedirector/md_participant.cpp: a participant that is connected by a socket. Of
-- NetworkClient it uses the flag that stops a second Shutdown. `handle` is HandleDatagram of the
-- subscribers of the process; it does not change the participant's own members.
pub mod Control
use ardos.Prelude.{
  ℕ, ◌+◌, ◌^◌, ◌<◌, ◌≤◌, ◌≡◌, refl, sym, ap, ◌∙◌, Bool, true, false, List, [], ◌∷◌, ◌++◌, length,
  ◌==◌, if◌then◌else◌, arith,
}
use ardos.Prelude.Action.{
  Action, Result, ok, err, overflow, eof, invalid, stuck, pure, raise, modify, continue, ◌>>=◌,
  ◌>>◌,
}
use ardos.Net.Datagram.{Datagram}
use ardos.Net.DatagramIterator.{
  DatagramIterator, get_uint8, get_uint16, get_uint64, get_string, get_datagram,
}
use ardos.Net.Items.{start}
use ardos.MessageDirector.Subscriber
use ardos.MessageDirector.Subscriber.{
  subscribe_channel, unsubscribe_channel, subscribe_range, unsubscribe_range,
}
use ardos.MessageDirector.Publish.{Node, Handler, publish_datagram}

pub record Participant : Type 0 where
  pub node : Node
  pub conn_name : List ℕ
  pub post_removes : List Datagram
  pub disconnected : Bool

-- The control messages, and what is none.
pub data Command : Type 0 where
  add_channel remove_channel : ℕ → Command
  add_range remove_range : ℕ → ℕ → Command
  add_post_remove : ℕ → Datagram → Command
  clear_post_removes : Command
  set_con_name : List ℕ → Command
  unknown : ℕ → Command
  routed : Command

-- The switch of HandleClientDatagram: what each case reads.
unfoldable pub read_control : ℕ → Action DatagramIterator Command
unfolding get_uint64 get_datagram get_string
read_control msg_type =
    if msg_type == 9000
    then (do c ← get_uint64; pure (add_channel c))
    else if msg_type == 9001
    then (do c ← get_uint64; pure (remove_channel c))
    else if msg_type == 9002
    then (do min ← get_uint64; max ← get_uint64; pure (add_range min max))
    else if msg_type == 9003
    then (do min ← get_uint64; max ← get_uint64; pure (remove_range min max))
    else if msg_type == 9010
    then (do sender ← get_uint64; dg ← get_datagram; pure (add_post_remove sender dg))
    else if msg_type == 9011
    then pure clear_post_removes
    else if msg_type == 9012
    then (do name ← get_string; pure (set_con_name name))
    else pure (unknown msg_type)

-- All that HandleClientDatagram reads, each case before it acts.
unfoldable pub read_command : Action DatagramIterator Command
unfolding read_control get_uint8 get_uint16 get_uint64
read_command = get_uint8 >>= λ channels.
    if channels == 1
    then (get_uint64 >>= λ channel.
        if channel == 1 then (do msg_type ← get_uint16; read_control msg_type) else pure routed)
    else pure routed

abbrev pub on_director : (Subscriber.Director → Subscriber.Director) → Participant → Participant
on_director f p = record p { node = record p.node { director = f p.node.director } }

module _ (handle : Handler) where
  -- A post remove that is cut off or too long is dropped, and the loop of Shutdown goes on; every other
  -- exception leaves it.
  unfoldable pub dropping : Result (Unit {0}) × Node → Result (Unit {0}) × Node
  dropping (ok _, node) = (ok tt, node)
  dropping (err overflow, node) = (ok tt, node)
  dropping (err eof, node) = (ok tt, node)
  dropping (err invalid, node) = (err invalid, node)
  dropping (err stuck, node) = (err stuck, node)

  -- The loop of Shutdown over the post removes.
  unfoldable pub publish_post_removes : List Datagram → Action Node (Unit {0})
  unfolding publish_datagram dropping
  publish_post_removes [] = pure tt
  publish_post_removes (dg ∷ dgs) = do
    λ (node : Node). dropping (publish_datagram handle dg node)
    publish_post_removes dgs

  -- The end of Shutdown, behind that loop.
  unfoldable pub leave_director : ℕ → Result (Unit {0}) × Node → Action Participant (Unit {0})
  unfolding Subscriber.shutdown
  leave_director s (ok _, node) p =
      (ok tt, on_director (Subscriber.shutdown s) (record p { node = node }))
  leave_director s (err e, node) p = (err e, record p { node = node })

  -- MDParticipant::Shutdown, where `s` is the participant as a subscriber
  unfoldable pub shutdown : ℕ → Action Participant (Unit {0})
  unfolding publish_post_removes leave_director
  shutdown s p =
      if p.disconnected
      then (ok tt, p)
      else leave_director s (publish_post_removes p.post_removes p.node)
          (record p { disconnected = true })

  -- The end of HandleClientDatagram for a message that is not for the control channel. It catches the
  -- end of a datagram alone.
  unfoldable pub route : ℕ → Result (Unit {0}) × Node → Action Participant (Unit {0})
  unfolding shutdown
  route s (ok _, node) p = (ok tt, record p { node = node })
  route s (err overflow, node) p = (err overflow, record p { node = node })
  route s (err eof, node) p = shutdown s (record p { node = node })
  route s (err invalid, node) p = (err invalid, record p { node = node })
  route s (err stuck, node) p = (err stuck, record p { node = node })

  unfoldable pub obey : ℕ → Datagram → Command → Action Participant (Unit {0})
  unfolding subscribe_channel unsubscribe_channel subscribe_range unsubscribe_range route
      publish_datagram
  obey s dg (add_channel c) = modify (on_director (subscribe_channel s c))
  obey s dg (remove_channel c) = modify (on_director (unsubscribe_channel s c))
  obey s dg (add_range min max) = modify (on_director (subscribe_range s (min, max)))
  obey s dg (remove_range min max) = modify (on_director (unsubscribe_range s (min, max)))
  obey s dg (add_post_remove sender removed) =
      modify λ (p : Participant). record p { post_removes = p.post_removes ++ removed ∷ [] }
  obey s dg clear_post_removes = modify λ (p : Participant). record p { post_removes = [] }
  obey s dg (set_con_name name) = modify λ (p : Participant). record p { conn_name = name }
  obey s dg (unknown msg_type) = pure tt
  obey s dg routed = λ (p : Participant). route s (publish_datagram handle dg p.node) p

  unfoldable pub handle_read :
      ℕ → Datagram → Result Command × DatagramIterator → Action Participant (Unit {0})
  unfolding obey shutdown
  handle_read s dg (ok command, it) = obey s dg command
  handle_read s dg (err overflow, it) = raise overflow
  handle_read s dg (err eof, it) = shutdown s
  handle_read s dg (err invalid, it) = raise invalid
  handle_read s dg (err stuck, it) = raise stuck

  -- MDParticipant::HandleClientDatagram
  unfoldable pub handle_client_datagram : ℕ → Datagram → Action Participant (Unit {0})
  unfolding read_command handle_read
  handle_client_datagram s dg = handle_read s dg (read_command (start dg))
