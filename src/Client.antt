-- ===== src/Client.antt =====
-- src/client_posix.c: messages over a socket that moves bytes in parts. The operating system answers
-- each call by an `Io`; a list of answers is a run of it, and a call that has no answer waits.
pub mod Transfer
pub mod Messages
mod Tests
use openrsp.Base.{
  ℕ, zero, suc, ◌+◌, ◌-◌, ◌*◌, ◌/◌, ◌%◌, Bool, true, false, not, ◌&&◌, ◌||◌, ltb, ◌==◌,
  if◌then◌else◌, List, [], ◌∷◌, ◌++◌, Option, none, some, length, take, drop,
}

-- The answer of one read or write: so many bytes moved, or an error.
pub data Io : Type 0 where
  moved : ℕ → Io
  interrupted timed_out broken : Io

-- OPENRSP_CLIENT_OK, OPENRSP_CLIENT_ERROR, OPENRSP_CLIENT_TIMEOUT
pub data Code : Type 0 where
  ok error timeout : Code

pub record Moved : Type 0 where
  pub code : Code
  pub count : ℕ
  pub left : List Io

abbrev ended : Code → ℕ → List Io → Option Moved
ended code transferred script = some (record { code = code; count = transferred; left = script })

-- `transferred` counts what was moved before, of which `bytes` are left. A socket never moves more
-- than it is asked for.
unfoldable pub transfer_exact : Bool → List Io → ℕ → ℕ → Option Moved
transfer_exact writing script zero transferred = ended ok transferred script
transfer_exact writing [] (suc left) transferred = none
transfer_exact writing (interrupted ∷ script) (suc left) transferred =
    transfer_exact writing script (suc left) transferred
transfer_exact writing (broken ∷ script) (suc left) transferred = ended error transferred script
transfer_exact writing (timed_out ∷ script) (suc left) transferred =
    ended (if not writing && transferred == 0 then timeout else error) transferred script
transfer_exact writing (moved zero ∷ script) (suc left) transferred = ended error transferred script
transfer_exact writing (moved (suc n) ∷ script) (suc left) transferred =
    transfer_exact writing script (left - n)
      (transferred + (if ltb left n then suc left else suc n))

-- A scalar field of a message, in the byte order of the hosts that the library is built for.
abbrev pub bytes_of : ℕ → ℕ → List ℕ
bytes_of zero x = []
bytes_of (suc width) x = (x % 256) ∷ bytes_of width (x / 256)

abbrev pub value_of : List ℕ → ℕ
value_of [] = 0
value_of (b ∷ bs) = b + 256 * value_of bs

-- openrsp_message_header
pub record Header : Type 0 where
  pub magic : ℕ
  pub version : ℕ
  pub kind : ℕ
  pub sequence : ℕ
  pub payload_bytes : ℕ

abbrev pub header_bytes : ℕ
header_bytes = 16

-- OPENRSP_PROTOCOL_MAGIC and OPENRSP_PROTOCOL_VERSION
abbrev pub protocol_magic : ℕ
protocol_magic = 0x4f525350

abbrev pub protocol_version : ℕ
protocol_version = 9

unfoldable pub encode : Header → List ℕ
encode h =
    bytes_of 4 h.magic
    ++ (bytes_of 2 h.version
        ++ (bytes_of 2 h.kind ++ (bytes_of 4 h.sequence ++ bytes_of 4 h.payload_bytes)))

unfoldable pub decode : List ℕ → Header
decode bs = record {
  magic = value_of (take 4 bs);
  version = value_of (take 2 (drop 4 bs));
  kind = value_of (take 2 (drop 6 bs));
  sequence = value_of (take 4 (drop 8 bs));
  payload_bytes = value_of (take 4 (drop 12 bs));
}

-- What a call leaves: its code, the bytes that went out, and the answers not used.
pub record Sent : Type 0 where
  pub code : Code
  pub wire : List ℕ
  pub left : List Io

abbrev pub is_ok : Code → Bool
is_ok ok = true
is_ok error = false
is_ok timeout = false

-- One direction of `transfer_exact`, with the buffer.
abbrev pub sent_of : List ℕ → Option Moved → Option Sent
sent_of buffer none = none
sent_of buffer (some m) = some (record { code = m.code; wire = take m.count buffer; left = m.left })

unfoldable pub write_all : List Io → List ℕ → Option Sent
write_all script buffer = sent_of buffer (transfer_exact true script (length buffer) 0)

abbrev pub and_payload : Sent → Option Sent → Option Sent
and_payload h none = none
and_payload h (some p) = some (record { code = p.code; wire = h.wire ++ p.wire; left = p.left })

abbrev pub after_header : List ℕ → Option Sent → Option Sent
after_header payload none = none
after_header payload (some h) =
    if not (is_ok h.code)
    then some (record { code = error; wire = h.wire; left = h.left })
    else and_payload h (write_all h.left payload)

-- `openrsp_client_send`, by a client that is there. The payload's length is below 2 ^ 32.
unfoldable pub send : List Io → ℕ → ℕ → List ℕ → Option Sent
send script command sequence payload = after_header payload (
    write_all script (
      encode (record {
        magic = protocol_magic;
        version = protocol_version;
        kind = command;
        sequence = sequence;
        payload_bytes = length payload;
      })))

-- What a call leaves: its code, the bytes that came, those that are still in the socket, and the
-- answers not used.
pub record Got : Type 0 where
  pub code : Code
  pub buffer : List ℕ
  pub wire : List ℕ
  pub left : List Io

abbrev pub got_of : List ℕ → Option Moved → Option Got
got_of wire none = none
got_of wire (some m) =
    some (record {
      code = m.code;
      buffer = take m.count wire;
      wire = drop m.count wire;
      left = m.left;
    })

unfoldable pub read_all : List Io → List ℕ → ℕ → Option Got
read_all script wire bytes = got_of wire (transfer_exact false script bytes 0)

pub record Message : Type 0 where
  pub code : Code
  pub header : Header
  pub payload : List ℕ
  pub wire : List ℕ
  pub left : List Io

-- The checks of a header, before its payload is read.
abbrev pub is_foreign : Header → ℕ → Bool
is_foreign h capacity =
    not (h.magic == protocol_magic)
    || not (h.version == protocol_version)
    || ltb capacity h.payload_bytes

abbrev pub failed : Code → Header → Got → Message
failed code h g = record { code = code; header = h; payload = []; wire = g.wire; left = g.left }

-- Any failure in the payload is OPENRSP_CLIENT_ERROR.
abbrev pub with_payload : Header → Option Got → Option Message
with_payload h none = none
with_payload h (some p) = some (record {
  code = if is_ok p.code then ok else error;
  header = h;
  payload = p.buffer;
  wire = p.wire;
  left = p.left;
})

abbrev pub with_header : ℕ → Option Got → Option Message
with_header capacity none = none
with_header capacity (some g) =
    if not (is_ok g.code)
    then some (failed g.code (decode g.buffer) g)
    else if is_foreign (decode g.buffer) capacity
    then some (failed error (decode g.buffer) g)
    else with_payload (decode g.buffer) (read_all g.left g.wire (decode g.buffer).payload_bytes)

-- `openrsp_client_receive` into a buffer of `capacity` bytes.
unfoldable pub receive : List Io → List ℕ → ℕ → Option Message
receive script wire capacity = with_header capacity (read_all script wire header_bytes)
