-- ===== src/Audit/Entries.antt =====
-- The named helpers of MeshAuditLogger, one for each decision of the pipeline: what each logs.
use rin_windows.Base.{
  Str, lit, ℤ, to_string, Bool, Option, none, some, ◌++◌, length, take, leb, if◌then◌else◌,
}
use rin_windows.Audit.{
  AuditLevel, info, handshake_level, security_success, security_warning, security_error,
  AuditCategory, connection, discovery_udp, handshake, decryption_ecdh, decryption_broadcast,
  signature_verification, Entry,
}

-- log(level, category, message) with the default arguments.
unfoldable pub plain : ℤ → AuditLevel → AuditCategory → Str → Option Str → Entry
plain now level category message peer_name = record {
  now = now;
  level = level;
  category = category;
  message = message;
  peer_name = peer_name;
  peer_key = none;
  details = none;
  error = none;
}

unfoldable pub connection_attempt : ℤ → Str → Str → ℤ → Option Str → Entry
unfolding plain
connection_attempt now rail target_ip port = plain now info connection (
    lit "Initiating connection over "
    ++ rail
    ++ lit " to "
    ++ target_ip
    ++ lit ":"
    ++ to_string port)

unfoldable pub connection_established : ℤ → Str → Str → ℤ → Option Str → Entry
unfolding plain
connection_established now rail target_ip port = plain now info connection (
    lit "Connection established over "
    ++ rail
    ++ lit " with "
    ++ target_ip
    ++ lit ":"
    ++ to_string port)

unfoldable pub connection_failed : ℤ → Str → Str → ℤ → Str → Option Str → Entry
connection_failed now rail target_ip port error peer_name = record {
  now = now;
  level = security_warning;
  category = connection;
  message =
      lit "Connection failed over " ++ rail ++ lit " to " ++ target_ip ++ lit ":" ++ to_string port;
  peer_name = peer_name;
  peer_key = none;
  details = none;
  error = some error;
}

unfoldable pub udp_beacon_discovered : ℤ → Str → Str → ℤ → Option Str → Entry
unfolding plain
udp_beacon_discovered now device_name host port mesh_name =
    plain now info discovery_udp
      (lit "UDP beacon discovered peer '"
        ++ device_name
        ++ lit "' at "
        ++ host
        ++ lit ":"
        ++ to_string port
        ++ lit " (Mesh: "
        ++ (elim mesh_name [ none ↦ lit "any" | some m ↦ m ])
        ++ lit ")")
      none

abbrev token_preview : Option Str → Str
token_preview none = lit "auto"
token_preview (some token) = if leb 8 (length token) then take 8 token ++ lit "..." else lit "auto"

unfoldable pub handshake_initiated : ℤ → Str → Str → Option Str → Entry
handshake_initiated now target_ip peer_name ephemeral_token = record {
  now = now;
  level = handshake_level;
  category = handshake;
  message = lit "Beginning cryptographic handshake with " ++ target_ip;
  peer_name = some peer_name;
  peer_key = none;
  details = some (lit "Token: " ++ token_preview ephemeral_token);
  error = none;
}

unfoldable pub handshake_completed : ℤ → Str → Str → Str → Entry
handshake_completed now peer_name peer_key rail = record {
  now = now;
  level = handshake_level;
  category = handshake;
  message = lit "Cryptographic handshake completed successfully over " ++ rail;
  peer_name = some peer_name;
  peer_key = some peer_key;
  details = none;
  error = none;
}

unfoldable pub ecdh_decryption_success : ℤ → ℤ → Str → Str → Str → Entry
ecdh_decryption_success now seq sender_name sender_key session_id = record {
  now = now;
  level = security_success;
  category = decryption_ecdh;
  message = lit "Targeted packet #" ++ to_string seq ++ lit " decrypted via ECDH session key";
  peer_name = some sender_name;
  peer_key = some sender_key;
  details = some (lit "Session: " ++ take 12 session_id);
  error = none;
}

unfoldable pub ecdh_decryption_failure : ℤ → ℤ → Str → Str → Str → Str → Entry
ecdh_decryption_failure now seq sender_name sender_key session_id error = record {
  now = now;
  level = security_error;
  category = decryption_ecdh;
  message = lit "Targeted ECDH decryption failed on packet #" ++ to_string seq ++ lit ": " ++ error;
  peer_name = some sender_name;
  peer_key = some sender_key;
  details = some (
      lit "Session: "
      ++ session_id
      ++ lit ". Tag authentication mismatch or invalid peer public key.");
  error = some error;
}

unfoldable pub broadcast_decryption_success : ℤ → ℤ → Str → Str → Entry
unfolding plain
broadcast_decryption_success now seq packet_type sender_name =
    plain now security_success decryption_broadcast
      (lit "Broadcast "
        ++ packet_type
        ++ lit " packet #"
        ++ to_string seq
        ++ lit " decrypted via 256-bit Mesh Master Key")
      (some sender_name)

unfoldable pub broadcast_decryption_failure : ℤ → ℤ → Str → Str → Str → Entry
broadcast_decryption_failure now seq packet_type sender_name error = record {
  now = now;
  level = security_error;
  category = decryption_broadcast;
  message =
      lit "Mesh Master Key decryption failed for "
      ++ packet_type
      ++ lit " #"
      ++ to_string seq
      ++ lit ": "
      ++ error;
  peer_name = some sender_name;
  peer_key = none;
  details = some (lit "Dropped unauthenticated/corrupted broadcast packet.");
  error = some error;
}

abbrev verification_entry : ℤ → AuditLevel → Str → Str → Str → Option Str → Entry
verification_entry now level message sender_name sender_key details = record {
  now = now;
  level = level;
  category = signature_verification;
  message = message;
  peer_name = some sender_name;
  peer_key = some sender_key;
  details = details;
  error = none;
}

unfoldable pub signature_verification_entry : ℤ → Bool → Str → Str → ℤ → Entry
signature_verification_entry now is_valid sender_name sender_key seq =
    if is_valid
    then verification_entry now security_success
        (lit "Strict ECDSA signature verified for packet #" ++ to_string seq) sender_name sender_key
        none
    else verification_entry now security_error
        (lit "ECDSA signature validation FAILED for packet #"
          ++ to_string seq
          ++ lit " from "
          ++ sender_name)
        sender_name sender_key (some (lit "Packet rejected. Possible tampering or key mismatch."))
