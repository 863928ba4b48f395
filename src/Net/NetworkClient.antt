-- ===== src/Net/NetworkClient.antt =====
-- src/net/network_client.cpp. The subclass logs the datagrams that it is handed, does not call back,
-- and shuts the client down when it hears of a disconnect, as MDParticipant does. A datagram is the
-- bytes that it holds; `_socket` is never null.
pub mod Transport
use ardos.Prelude.{
  ℕ, zero, suc, ◌+◌, ◌-◌, ◌*◌, ◌^◌, Bool, true, false, not, ◌&&◌, ◌||◌, List, [], ◌∷◌, ◌++◌, length,
  take, drop, ltb, leb, ◌==◌, if◌then◌else◌,
}
use ardos.Prelude.Words.{le_bytes, le_value}
use ardos.Net.TcpTransport.{Event, sends, closes, wrote, ended, destroyed, received}

pub record NetworkClient : Type 0 where
  pub data_buf : List ℕ
  pub write_queue : List (List ℕ)
  pub queued_bytes : ℕ
  pub disconnected : Bool
  pub is_writing : Bool
  pub socket_closed : Bool
  pub alive : Bool
  pub handled : List (List ℕ)
  pub disconnects : ℕ
  pub written : List (List ℕ)
  pub closes : ℕ

-- kHighWaterBytes
abbrev pub high_water_mark : ℕ
high_water_mark = 4 * 1024 * 1024

abbrev pub close_once : NetworkClient → NetworkClient
close_once c =
    if c.socket_closed then c else record c { socket_closed = true; closes = c.closes + 1 }

-- The step of PumpWrite that takes the front of the queue.
unfoldable pub pump_front : List (List ℕ) → NetworkClient → NetworkClient
pump_front [] c = c
pump_front (front ∷ rest) c = record c {
  write_queue = rest;
  queued_bytes = c.queued_bytes - length front;
  is_writing = true;
  written = c.written ++ (front ∷ []);
}

-- NetworkClient::PumpWrite
unfoldable pub pump : NetworkClient → NetworkClient
unfolding pump_front
pump c = if c.is_writing || c.socket_closed then c else pump_front c.write_queue c

-- NetworkClient::Shutdown
unfoldable pub shut_down : NetworkClient → NetworkClient
shut_down c =
    if c.disconnected
    then c
    else let c' = record c { disconnected = true; write_queue = []; queued_bytes = 0 } in
      if c.is_writing then c' else close_once c'

-- NetworkClient::SendDatagram
unfoldable pub send_datagram : List ℕ → NetworkClient → NetworkClient
unfolding pump shut_down
send_datagram dg c =
    if c.disconnected
    then c
    else if ltb (2 ^ 16 - 1) (length dg)
    then c
    else if ltb high_water_mark (c.queued_bytes + (2 + length dg))
    then shut_down c
    else pump (record c {
      write_queue = c.write_queue ++ ((le_bytes 2 (length dg) ++ dg) ∷ []);
      queued_bytes = c.queued_bytes + (2 + length dg);
    })

-- NetworkClient::HandleClose, with the HandleDisconnect of the subclass
unfoldable pub lose : NetworkClient → NetworkClient
unfolding shut_down
lose c =
    if c.disconnected
    then c
    else shut_down (record c { socket_closed = true; disconnects = c.disconnects + 1 })

-- The loop of NetworkClient::ProcessBuffer: the datagrams that it hands over and the bytes that it
-- leaves. A round removes two bytes at least.
unfoldable pub take_datagrams : ℕ → List ℕ → List (List ℕ) × List ℕ
take_datagrams zero buffer = ([], buffer)
take_datagrams (suc rounds) buffer =
    let size = le_value (take 2 buffer) in
    let rest = take_datagrams rounds (drop (2 + size) buffer) in
    if ltb 2 (length buffer)
    then (if leb (size + 2) (length buffer)
        then (take size (drop 2 buffer) ∷ rest.0, rest.1)
        else ([], buffer))
    else ([], buffer)

-- NetworkClient::HandleData
unfoldable pub take_data : List ℕ → NetworkClient → NetworkClient
unfolding take_datagrams
take_data bytes c =
    if length c.data_buf == 0
      && (leb 2 (length bytes) && (le_value (take 2 bytes) == length bytes - 2))
    then record c { handled = c.handled ++ (drop 2 bytes ∷ []) }
    else let buffer = c.data_buf ++ bytes in
      let taken = take_datagrams (length buffer) buffer in
      record c { data_buf = taken.1; handled = c.handled ++ taken.0 }

-- The lambdas of the data and of the write event.
unfoldable pub data_event : List ℕ → NetworkClient → NetworkClient
unfolding take_data
data_event bytes c = if not c.alive || c.disconnected then c else take_data bytes c

unfoldable pub write_event : NetworkClient → NetworkClient
unfolding pump
write_event c =
    if c.alive
    then (if c.disconnected
        then close_once (record c { is_writing = false; write_queue = []; queued_bytes = 0 })
        else pump (record c { is_writing = false }))
    else c

-- The lambdas of the error, end and close events.
unfoldable pub close_event : NetworkClient → NetworkClient
unfolding lose
close_event c = if c.alive then lose c else c

-- The destructor.
unfoldable pub destruct : NetworkClient → NetworkClient
unfolding shut_down
destruct c = record (close_once (shut_down c)) { alive = false }

-- A call of the owner, or an event of the loop.
unfoldable pub client_step : NetworkClient → Event → NetworkClient
unfolding send_datagram shut_down write_event close_event destruct data_event
client_step c (sends dg) = send_datagram dg c
client_step c closes = shut_down c
client_step c wrote = write_event c
client_step c ended = close_event c
client_step c destroyed = destruct c
client_step c (received bytes) = data_event bytes c
