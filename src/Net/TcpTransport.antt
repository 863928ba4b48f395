-- ===== src/Net/TcpTransport.antt =====
-- TcpTransportConnection of src/net/tcp_transport.cpp. What it tells its handler and its socket is
-- kept as logs: the messages delivered, the disconnects reported, the buffers written and the number
-- of times the socket was closed. The handler does not call back into the connection.
pub mod Frames
pub mod Chunks
pub mod WriteQueue
use ardos.Prelude.{
  ℕ, zero, suc, ◌+◌, ◌-◌, ◌*◌, ◌^◌, Bool, true, false, not, ◌&&◌, ◌||◌, List, [], ◌∷◌, ◌++◌, length,
  take, drop, ltb, leb, ◌==◌, if◌then◌else◌,
}
use ardos.Prelude.Words.{le_bytes, le_value}

-- kHighWaterBytes.
abbrev pub high_water_bytes : ℕ
high_water_bytes = 4 * 1024 * 1024

pub record TcpConnection : Type 0 where
  pub read_buffer : List ℕ
  pub write_queue : List (List ℕ)
  pub queued_bytes : ℕ
  pub closed : Bool
  pub is_writing : Bool
  pub socket_closed : Bool
  pub alive : Bool
  -- Whether the weak pointer to the handler can be locked.
  pub has_handler : Bool
  pub delivered : List (List ℕ)
  pub disconnects : ℕ
  pub written : List (List ℕ)
  pub closes : ℕ

-- A connection that was just accepted and given its handler.
abbrev pub fresh : TcpConnection
fresh = record {
  read_buffer = [];
  write_queue = [];
  queued_bytes = 0;
  closed = false;
  is_writing = false;
  socket_closed = false;
  alive = true;
  has_handler = true;
  delivered = [];
  disconnects = 0;
  written = [];
  closes = 0;
}

-- `_socket->close(); _socketClosed = true;`, unless the socket was closed before.
abbrev pub close_socket : TcpConnection → TcpConnection
close_socket c =
    if c.socket_closed then c else record c { socket_closed = true; closes = c.closes + 1 }

abbrev pub clear_queue : TcpConnection → TcpConnection
clear_queue c = record c { write_queue = []; queued_bytes = 0 }

-- The step of PumpWrite that takes the front of the queue.
unfoldable pub write_front : List (List ℕ) → TcpConnection → TcpConnection
write_front [] c = c
write_front (front ∷ rest) c = record c {
  write_queue = rest;
  queued_bytes = c.queued_bytes - length front;
  is_writing = true;
  written = c.written ++ (front ∷ []);
}

-- TcpTransportConnection::PumpWrite
unfoldable pub pump_write : TcpConnection → TcpConnection
unfolding write_front
pump_write c = if c.is_writing || c.socket_closed then c else write_front c.write_queue c

-- TcpTransportConnection::Close
unfoldable pub close : TcpConnection → TcpConnection
close c =
    if c.closed
    then c
    else let c' = clear_queue (record c { closed = true }) in
      if c.is_writing then c' else close_socket c'

-- A message behind its length in a uint16_t.
abbrev pub frame : List ℕ → List ℕ
frame bytes = le_bytes 2 (length bytes) ++ bytes

-- TcpTransportConnection::Send. The socket is never null after the construction.
unfoldable pub send : List ℕ → TcpConnection → TcpConnection
unfolding pump_write close
send bytes c =
    if c.closed
    then c
    else if ltb (2 ^ 16 - 1) (length bytes)
    then c
    else if ltb high_water_bytes (c.queued_bytes + (2 + length bytes))
    then close c
    else pump_write (record c {
      write_queue = c.write_queue ++ (frame bytes ∷ []);
      queued_bytes = c.queued_bytes + (2 + length bytes);
    })

-- TcpTransportConnection::HandleClose
unfoldable pub handle_close : TcpConnection → TcpConnection
handle_close c = if c.closed then c else record c {
  closed = true;
  socket_closed = true;
  disconnects = c.disconnects + (if c.has_handler then 1 else 0);
}

-- TcpTransportConnection::DeliverMessage, for each of `messages` in turn.
unfoldable pub deliver : List (List ℕ) → TcpConnection → TcpConnection
deliver messages c = if c.has_handler then record c { delivered = c.delivered ++ messages } else c

-- The loop of ProcessBuffer: the messages that it delivers, in order, and the bytes that it leaves.
-- A round removes two bytes at least, so the size of the buffer is enough for `rounds`.
unfoldable pub take_frames : ℕ → List ℕ → List (List ℕ) × List ℕ
take_frames zero buffer = ([], buffer)
take_frames (suc rounds) buffer =
    let size = le_value (take 2 buffer) in
    let rest = take_frames rounds (drop (2 + size) buffer) in
    if ltb 2 (length buffer)
    then (if ltb (length buffer) (size + 2)
        then ([], buffer)
        else (take size (drop 2 buffer) ∷ rest.0, rest.1))
    else ([], buffer)

-- TcpTransportConnection::ProcessBuffer
unfoldable pub process_buffer : TcpConnection → TcpConnection
unfolding take_frames deliver
process_buffer c =
    let taken = take_frames (length c.read_buffer) c.read_buffer in
    deliver taken.0 (record c { read_buffer = taken.1 })

-- The test of HandleData for a chunk that is one whole datagram.
abbrev pub is_one_frame : List ℕ → Bool
is_one_frame bytes = leb 2 (length bytes) && (le_value (take 2 bytes) == length bytes - 2)

-- TcpTransportConnection::HandleData
unfoldable pub handle_data : List ℕ → TcpConnection → TcpConnection
unfolding deliver process_buffer
handle_data bytes c =
    if length c.read_buffer == 0 && is_one_frame bytes
    then deliver (drop 2 bytes ∷ []) c
    else process_buffer (record c { read_buffer = c.read_buffer ++ bytes })

-- The lambda of the data event.
unfoldable pub on_data : List ℕ → TcpConnection → TcpConnection
unfolding handle_data
on_data bytes c = if not c.alive || c.closed then c else handle_data bytes c

-- The lambda of the write event.
unfoldable pub on_write : TcpConnection → TcpConnection
unfolding pump_write
on_write c =
    if c.alive
    then (if c.closed
        then close_socket (clear_queue (record c { is_writing = false }))
        else pump_write (record c { is_writing = false }))
    else c

-- The lambdas of the error, end and close events.
unfoldable pub on_close : TcpConnection → TcpConnection
unfolding handle_close
on_close c = if c.alive then handle_close c else c

-- The destructor.
unfoldable pub destroy : TcpConnection → TcpConnection
unfolding close
destroy c = record (close_socket (close c)) { alive = false }

-- What happens to a connection: a call of Send or Close by its owner, or an event of the loop.
pub data Event : Type 0 where
  sends : List ℕ → Event
  closes wrote ended destroyed : Event
  received : List ℕ → Event

unfoldable pub step : TcpConnection → Event → TcpConnection
unfolding send close on_write on_close destroy on_data
step c (sends bytes) = send bytes c
step c closes = close c
step c wrote = on_write c
step c ended = on_close c
step c destroyed = destroy c
step c (received bytes) = on_data bytes c

unfoldable pub run : TcpConnection → List Event → TcpConnection
unfolding step
run c [] = c
run c (e ∷ es) = run (step c e) es
