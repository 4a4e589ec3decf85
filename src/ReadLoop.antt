-- ===== src/ReadLoop.antt =====
-- pkg/utils/tcp_connection: the read loops of server.go and client.go (handleDataEvents) over a
-- buffer of 1536 bytes, with onTcpDataReceived as their data callback. A read is an event: what the
-- socket returned. The Go contract of Read is that it fills at most the free part of the buffer.
pub mod Buffers
pub mod Chunks
pub mod Runs
use dsoftbus_go.Base.{
  ℕ, zero, suc, ◌+◌, ◌-◌, if◌then◌else◌, ltb, leb, List, [], ◌∷◌, ◌++◌, map, length, take, drop,
  Option, none, some,
}
use dsoftbus_go.Base.Int.{ℤ, pos, negsuc}
use dsoftbus_go.Receive.{Delivery, on_tcp_data_received}
use mathlib.Core.Option

abbrev pub default_buf_size : ℕ
default_buf_size = 1536

pub record Buffer : Type 0 where
  pub bytes : List ℕ
  pub used : ℕ

pub data ReadResult : Type 0 where
  continue : Buffer → List Delivery → ReadResult
  close_bad : List Delivery → ReadResult
  close_overflow : List Delivery → ReadResult

-- The last test of the loop body: is the buffer full?
abbrev pub check_overflow : Buffer → List Delivery → ReadResult
check_overflow b ds = if leb (length b.bytes) b.used then close_overflow ds else continue b ds

-- `copy(buf, buf[processed:processed+used])`, if there is anything to move.
abbrev pub move_to_front : List ℕ → ℕ → ℕ → Buffer
move_to_front bytes processed used = record {
  bytes = if ltb 0 used then take used (drop processed bytes) ++ drop used bytes else bytes;
  used = used;
}

unfoldable pub after_callback : List ℕ → ℕ → ℤ × List Delivery → ReadResult
after_callback bytes used (pos zero, ds) = check_overflow (record { bytes = bytes; used = used }) ds
after_callback bytes used (pos (suc n), ds) =
    check_overflow (move_to_front bytes (suc n) (used - suc n)) ds
after_callback bytes used (negsuc n, ds) = close_bad ds

-- The bytes that a read returned stand behind the used ones.
unfoldable pub process_read : Buffer → List ℕ → Option ReadResult
process_read b chunk =
    let used = b.used + length chunk in
    let bytes = take b.used b.bytes ++ (chunk ++ drop used b.bytes) in
    Option.map (after_callback bytes used) (on_tcp_data_received bytes used)

pub data Conn : Type 0 where
  serving : Buffer → Conn
  closed : Conn

-- `failed` is a read error or the end of the stream.
pub data ReadEvent : Type 0 where
  stopped failed : ReadEvent
  received : List ℕ → ReadEvent

pub data Callback : Type 0 where
  delivered : Delivery → Callback
  disconnected : Callback

abbrev server_after : ReadResult → Conn × List Callback
server_after (continue b ds) = (serving b, map delivered ds)
server_after (close_bad ds) = (closed, map delivered ds ++ disconnected ∷ [])
server_after (close_overflow ds) = (closed, map delivered ds ++ disconnected ∷ [])

unfoldable pub server_step : Conn → ReadEvent → Option (Conn × List Callback)
server_step closed ev = some (closed, [])
server_step (serving b) stopped = some (closed, disconnected ∷ [])
server_step (serving b) failed = some (closed, disconnected ∷ [])
server_step (serving b) (received []) = some (closed, disconnected ∷ [])
server_step (serving b) (received (x ∷ chunk)) =
    Option.map server_after (process_read b (x ∷ chunk))

-- The client's loop ends without a callback: only Close reports the end.
abbrev client_after : ReadResult → Conn × List Callback
client_after (continue b ds) = (serving b, map delivered ds)
client_after (close_bad ds) = (closed, map delivered ds)
client_after (close_overflow ds) = (closed, map delivered ds)

unfoldable pub client_step : Conn → ReadEvent → Option (Conn × List Callback)
client_step closed ev = some (closed, [])
client_step (serving b) stopped = some (closed, [])
client_step (serving b) failed = some (closed, [])
client_step (serving b) (received []) = some (closed, [])
client_step (serving b) (received (x ∷ chunk)) =
    Option.map client_after (process_read b (x ∷ chunk))
