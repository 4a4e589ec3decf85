-- ===== src/Lib.antt =====
-- dsoftbus-go: the authentication transport of a soft bus, the key agreement that runs over it, the
-- sessions and transmission on top, and the codec of its discovery messages.
--
-- A device listens on TCP and dials others. pkg/utils/tcp_connection gives every socket a virtual
-- descriptor and runs a read loop on it. What the loop has read goes to onTcpDataReceived
-- (pkg/authentication/auth_tcp_connection.go), which cuts packets out and routes each by its module: to a
-- channel listener (auth_channel.go) or to the socket callback, which is the connection manager
-- (auth_connection.go). An authentication session (auth_session.go) first exchanges device ids over such a
-- connection and then runs the HiChain protocol (pkg/device_auth/hichain), whose messages it passes on and
-- whose session key it hands to the session key manager (session_key_manager.go). The authentication manager
-- (auth_manager.go) binds a request, its connection, its session and its keys, and the bus center
-- (pkg/bus_center) joins networks through it. With a key the peers
-- encrypt (pkg/utils/crypto/aes_gcm.go). The older transmission (pkg/transmission) runs HiChain over its own
-- listener and then opens data sessions. Devices find each other with CoAP messages (pkg/discovery/coap).
--
-- Files, and what they model:
--   Types       pkg/authentication/types.go: constants, heads, GenConnId (gen_conn_id) and its inverses
--   Packet      auth_tcp_connection.go: PackSocketPkt, UnpackSocketPkt
--   Receive     auth_tcp_connection.go: onTcpDataReceived; Receive/Frames is the specification, a
--               relation between bytes and packets that has no buffer
--   ReadLoop    pkg/utils/tcp_connection/server.go and client.go: handleDataEvents
--   Channel     auth_channel.go: the registry of listeners (RegAuthChannelListener and others)
--   Route       auth_tcp_connection.go: processSocketData, onTcpConnected, onTcpDisconnected
--   Conn        auth_connection.go: AuthConnInit, ConnectAuthDevice, the socket callbacks and others
--   Fds         pkg/utils/tcp_connection/manager.go: AllocateFd, RegisterConn, UnregisterConn and others
--   Post        auth_tcp_connection.go: SocketPostBytes, SocketDisconnectDevice; auth_channel.go:
--               AuthPostChannelData, AuthCloseChannel
--   Crypto      pkg/utils/crypto/aes_gcm.go over a cipher that is a parameter
--   SessionKey  session_key_manager.go: every method of SessionKeyManager
--   HiChain     pkg/device_auth/hichain: hichain.go, protocol.go, pake_v1_ec.go, key_store.go, utils.go and
--               types.go; Hex, Field and Pake are the computations, Handlers and Exchange the steps of the
--               two sides, Store the key store, Dispatch the entry points
--   BusCenter   pkg/bus_center: bus_center.go, net_builder.go, net_ledger.go and types.go
--   SessionContext  pkg/context/session_context.go
--   AuthSession auth_session.go: the table of sessions and the events of one session
--   AuthManager auth_manager.go: Events has the callbacks of the connection layer, Service and ById
--               the operations of the application, Getters the queries
--   Transmission    pkg/transmission: the authentication messages, their replies and the data sessions
--   Coap        pkg/discovery/coap/coap_adapter.go: COAP_SoftBusEncode, COAP_SoftBusDecode, BuildSendPkt
--   Base        numbers, bytes, bits, texts, lists and maps that these share
--
-- A Go function is a definition with its name in small letters and underscores. A global variable or a
-- receiver is an argument, and its new value a part of the result. A pair of a value and an error is a
-- Result; where an error leaves a changed state behind, the error carries that state. A call of a callback
-- or of the socket layer is an event in the result. Clocks, random bytes and answers of the network are
-- arguments. Strings of the key agreement and of transmission are lists of bytes. Maps are association
-- lists: where Go's order of iteration is any, what is shown holds for each order. int32, int64, uint32 and
-- uint64 wrap as in Go; a byte is a number. Locks are not modelled: each operation is one step, and ConnStep
-- (Conn/Reachable) splits the ones that release the lock in between.
--
-- Hashes, ciphers, signatures, scalar multiplication and JSON, which the code takes from Go's library, are
-- parameters: the fields of a record of primitives, with what the code relies on as hypotheses of the
-- theorems that need it. HiChain/Toy fills that record with small functions, on which the tests run.
--
-- Bounds: recv_loop has fuel `used + 1`, and each packet takes 25 bytes at least. read_options has the
-- length of the message as fuel, and each option takes a byte at least. Numbers are written to bytes with
-- the number itself as fuel, and each byte divides it by 256. exp_mod reads 256 binary digits of its
-- exponent, and the exponents of the field are below 2 ^ 255. Every other loop recurses on its data.
--
-- Not modelled: sockets and goroutines, logging, configuration, the network monitor and the commands, which
-- are input and output; device_auth.go and the discovery service, which stand on the parts modelled here.
-- A node that the bus center stores is a value, so no change comes through a pointer that the caller keeps. A
-- CoAP buffer has no capacity beyond its length, and a decoder that fails gives only its error.
pub mod Base
pub mod Types
pub mod Packet
pub mod Receive
pub mod ReadLoop
pub mod BusCenter
pub mod Channel
pub mod Route
pub mod Crypto
pub mod SessionKey
pub mod Conn
pub mod Fds
pub mod Coap
pub mod Post
pub mod HiChain
pub mod SessionContext
pub mod AuthManager
pub mod AuthSession
pub mod Transmission
