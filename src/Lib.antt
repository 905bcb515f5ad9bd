-- ===== src/Lib.antt =====
-- Rin, the Windows core: a mesh of trusted devices on a local network.
--
-- A packet is a line of JSON with a signed and usually encrypted payload. TcpTransport takes a line
-- from a connection, has its signature checked, acknowledges it and hands the packet to MeshEngine,
-- which decrypts the payload, under the session key of the two devices when the packet names this
-- device and under the mesh key otherwise, and acts on it: clipboard, browser, files, revocation.
-- Beacons on UDP enter devices into the table, which PersistenceStore copies to SQLite, and
-- MeshAuditLogger keeps the last events of all this.
--
-- Files of this library, and what each models:
--   Protocol, Protocol/Names, Protocol/Wire, Protocol/Payloads: src/protocol.cpp and
--     include/rin/protocol.hpp; Protocol/Json is the JSON library as the code calls it.
--   Crypto/Base64: src/base64.cpp. Crypto/Hex, Hkdf, Keys, Signature, Payload: src/crypto.cpp, a
--     function of CryptoEngine to a definition of its name; Crypto/OpenSsl is the library below.
--   Audit, Audit/Entries: src/audit_logger.cpp, a log_... method to a definition.
--   Persistence, Persistence/Rows: src/persistence.cpp, a method to a definition of its name.
--   Device, World: the structs and the state of include/rin/mesh_engine.hpp and
--     include/rin/file_transfer.hpp.
--   Files/Paths, Storage, Receive, Complete: src/file_transfer.cpp, the receiving side;
--     its send_file is in Mesh/SendFile, over the senders of the engine.
--   Transport: src/transport.cpp, the TCP side; Transport/Server: its accept thread, with start and
--     stop, as the steps of their threads; Transport/Beacon: UdpBeacon of the same file, a
--     round of its listening loop and the text that its other loop sends.
--   Mesh/Devices, Inbox, Inbox/Dispatch, Outbox, Identity, Identity/Handshake, Service:
--     src/mesh_engine.cpp; Mesh/Runs joins its operations to runs.
--   QrCode, QrCode/Bitmap: src/qr_code.cpp. Camera: src/camera_qr_scanner.cpp, as the steps of its
--     threads; Camera/Luma has the pixels, also of qr_to_hbitmap in src/win32_shell.cpp.
--   Console: src/main.cpp.
--   Shell, Shell/Labels, Symbols, Messages, FirstLaunch, Program: src/win32_shell.cpp, a method or a
--     message to a definition.
--   The modules below these hold their theorems, and Samples the concrete values at which the
--   theorems are applied. Base holds what all share: lists, texts, integers, maps, exceptions.
--
-- Texts are lists of bytes, `int` and `int64_t` are integers with a range where one matters, maps
-- are association lists, exceptions are values of Exn, and a method that changes its object and may
-- throw is a function of the state to a result and a state. Locks guard single accesses, so an
-- operation is one step, but for the scanner and the TCP server, whose threads take a step between
-- any two accesses to their flags. The clock does not move during an operation.
--
-- OpenSSL and nlohmann::json are parameters, with what their documentation says as named laws;
-- libqrencode (its symbols have at most 177 modules a side and a byte for each), ZXing and
-- MultiByteToWideChar are parameters as well.
-- What the outside answers is an argument: random bytes, nonces, SQLite, the file system, the
-- network, the clipboard, the shell. Samples/ToySsl and Samples/JsonTree fill both parameters.
--
-- Fuel: the loop of hkdf_expand runs on the number of bytes that are wanted, of which each round
-- yields at least one; decimal digits run on the number itself. Sequence numbers do not wrap.
--
-- Not modelled: sockets; the threads of the beacon with their running flag; the progress callback of
-- send_file; the choice of a camera; the greetings and the help of the console; the sizes, styles and
-- titles of the windows, and the messages that are handled while a message box is open; the local
-- time of an audit event.
pub mod Base
pub mod Protocol
pub mod Crypto
pub mod Audit
pub mod Device
pub mod Persistence
pub mod World
pub mod Files
pub mod Transport
pub mod Mesh
pub mod QrCode
pub mod Camera
pub mod Console
pub mod Samples
pub mod Shell
