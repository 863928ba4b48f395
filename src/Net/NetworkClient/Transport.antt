-- ===== src/Net/NetworkClient/Transport.antt =====
-- NetworkClient of src/net/network_client.cpp against TcpTransportConnection of
-- src/net/tcp_transport.cpp.
use ardos.Prelude.{
  ℕ, zero, suc, ◌+◌, ◌≡◌, refl, ap, ◌∙◌, Bool, true, false, not, ◌&&◌, ◌||◌, List, [], ◌∷◌, ◌++◌,
  length, take, drop, if◌then◌else◌, arith,
}
use ardos.Prelude.Words.{le_bytes, le_value}
use ardos.Net.TcpTransport
use ardos.Net.TcpTransport.{
  TcpConnection, close_socket, clear_queue, frame, high_water_bytes, Event, sends, closes, wrote,
  ended, destroyed, received, write_front, pump_write, take_frames, deliver, process_buffer,
  handle_data, is_one_frame,
}
use ardos.Net.NetworkClient.{
  NetworkClient, pump_front, pump, shut_down, send_datagram, take_datagrams, take_data, data_event,
  write_event, close_event, lose, destruct, client_step,
}

-- A client as a connection of the transport.
abbrev pub view : NetworkClient → TcpConnection
view c = record {
  read_buffer = c.data_buf;
  write_queue = c.write_queue;
  queued_bytes = c.queued_bytes;
  closed = c.disconnected;
  is_writing = c.is_writing;
  socket_closed = c.socket_closed;
  alive = c.alive;
  has_handler = true;
  delivered = c.handled;
  disconnects = c.disconnects;
  written = c.written;
  closes = c.closes;
}

view-if :
    (b : Bool) (x y : NetworkClient) → view (if b then x else y) ≡ (if b then view x else view y)
view-if true x y = refl
view-if false x y = refl

pump-view : (c : NetworkClient) → view (pump c) ≡ pump_write (view c)
unfolding pump pump_write
pump-view c =
    view-if (c.is_writing || c.socket_closed) c (pump_front c.write_queue c)
    ∙ ap (λ d. if c.is_writing || c.socket_closed then view c else d) (front c.write_queue)
  where
    front : (q : List (List ℕ)) → view (pump_front q c) ≡ write_front q (view c)
    front [] = refl
    front (f ∷ q) = refl

shut_down-view : (c : NetworkClient) → view (shut_down c) ≡ TcpTransport.close (view c)
unfolding shut_down TcpTransport.close
shut_down-view c = ground arith

take_datagrams-take_frames :
    (rounds : ℕ) (buffer : List ℕ) → take_datagrams rounds buffer ≡ take_frames rounds buffer
unfolding take_datagrams take_frames
take_datagrams-take_frames zero buffer = refl
take_datagrams-take_frames (suc rounds) buffer =
    rw (take_datagrams-take_frames rounds (drop (2 + le_value (take 2 buffer)) buffer))
      (ground arith)

send_datagram-view :
    (dg : List ℕ) (c : NetworkClient) → view (send_datagram dg c) ≡ TcpTransport.send dg (view c)
unfolding send_datagram TcpTransport.send
send_datagram-view dg c = ground (
  arith,
  shut_down-view c,
  pump-view (record c {
    write_queue = c.write_queue ++ ((le_bytes 2 (length dg) ++ dg) ∷ []);
    queued_bytes = c.queued_bytes + (2 + length dg);
  }),
)

data_event-view :
    (bytes : List ℕ) (c : NetworkClient)
    → view (data_event bytes c) ≡ TcpTransport.on_data bytes (view c)
unfolding data_event take_data TcpTransport.on_data handle_data deliver process_buffer
data_event-view bytes c =
    let same = take_datagrams-take_frames (length (c.data_buf ++ bytes)) (c.data_buf ++ bytes) in
    ground arith

write_event-view : (c : NetworkClient) → view (write_event c) ≡ TcpTransport.on_write (view c)
unfolding write_event TcpTransport.on_write
write_event-view c = ground (arith, pump-view (record c { is_writing = false }))

destruct-view : (c : NetworkClient) → view (destruct c) ≡ TcpTransport.destroy (view c)
unfolding destruct TcpTransport.destroy
destruct-view c = ground (arith, shut_down-view c)

close_event-view :
    (c : NetworkClient)
    → view (close_event c) ≡ (
        if c.alive && not c.disconnected
        then clear_queue (TcpTransport.on_close (view c))
        else view c)
unfolding close_event lose shut_down TcpTransport.on_close TcpTransport.handle_close
close_event-view c = ground arith

-- What the transport does at an event, but for the queue at a disconnect, which it keeps.
abbrev pub transport_step : TcpConnection → Event → TcpConnection
transport_step t ended =
    if t.alive && not t.closed then clear_queue (TcpTransport.step t ended) else t
transport_step t e = TcpTransport.step t e

-- At every call and every event, a NetworkClient whose subclass shuts it down when it hears of a
-- disconnect does what a TcpTransportConnection does that is in the same state and has a handler: the
-- same messages handed over, buffers written and sockets closed; only at a disconnect it drops its
-- queue too.
pub client_step-transport_step :
    (c : NetworkClient) (e : Event) → view (client_step c e) ≡ transport_step (view c) e
unfolding client_step TcpTransport.step
client_step-transport_step c (sends dg) = send_datagram-view dg c
client_step-transport_step c closes = shut_down-view c
client_step-transport_step c wrote = write_event-view c
client_step-transport_step c ended = close_event-view c
client_step-transport_step c destroyed = destruct-view c
client_step-transport_step c (received bytes) = data_event-view bytes c
