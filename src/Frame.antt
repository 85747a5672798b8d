-- ===== src/Frame.antt =====
-- src/frame.rs: the frame kinds, the header of twelve bytes, and the reading and writing of whole
-- frames over anything that implements `Read` or `Write`.
pub mod Codec
pub mod Streams
pub mod Sending
pub mod Receiving
pub mod RoundTrip
pub mod Bijection
pub mod Partial
use sockd.Common.{
  ℕ, List, ◌∷◌, ◌++◌, ltb, ◌==◌, if◌then◌else◌, not, length, get_or, take, drop, codes,
}
use sockd.Common.Words.{u32_max, to_be_bytes_16, to_be_bytes_32, from_be_bytes}
use sockd.Text.{Text}
use sockd.Outcome.{Result, ok, err, Exec, pure, lift, mapping_err, raise, and_then, ◌>>=◌, ◌>>◌}
use sockd.Error.{
  Error, IoError, io, invalid_frame_magic, unsupported_frame_version, unknown_frame_kind,
  payload_too_large,
}

abbrev pub magic : ℕ
magic = 0x534f434b

abbrev pub version : ℕ
version = 1

abbrev pub header_len : ℕ
header_len = 12

pub data FrameKind : Type 0 where
  request response ping pong error shutdown shutdown_ack : FrameKind

unfoldable pub label : FrameKind → Text
label request = codes "request"
label response = codes "response"
label ping = codes "ping"
label pong = codes "pong"
label error = codes "error"
label shutdown = codes "shutdown"
label shutdown_ack = codes "shutdown-ack"

-- `self.kind as u8`, the numbers of the `enum`
unfoldable pub kind_code : FrameKind → ℕ
kind_code request = 1
kind_code response = 2
kind_code ping = 3
kind_code pong = 4
kind_code error = 5
kind_code shutdown = 6
kind_code shutdown_ack = 7

-- `FrameKind::try_from(u8)`
unfoldable pub kind_of : ℕ → Result FrameKind Error
kind_of value =
    if value == 1
    then ok request
    else if value == 2
    then ok response
    else if value == 3
    then ok ping
    else if value == 4
    then ok pong
    else if value == 5
    then ok error
    else if value == 6
    then ok shutdown
    else if value == 7
    then ok shutdown_ack
    else err (unknown_frame_kind value)

pub record Frame : Type 0 where
  pub kind : FrameKind
  pub flags : ℕ
  pub payload : List ℕ

pub record Header : Type 0 where
  pub kind : FrameKind
  pub flags : ℕ
  pub payload_len : ℕ

-- `Header::encode`
unfoldable pub encode : Header → List ℕ
unfolding kind_code
encode h =
    to_be_bytes_32 magic
    ++ (version ∷ kind_code h.kind ∷ to_be_bytes_16 h.flags ++ to_be_bytes_32 h.payload_len)

-- `Header::decode`; the array of twelve bytes is a list of that length.
unfoldable pub decode : List ℕ → Result Header Error
unfolding kind_of
decode buf =
    let found = from_be_bytes (take 4 buf) in
    if not (found == magic)
    then err (invalid_frame_magic found)
    else let found_version = get_or buf 4 0 in
      if not (found_version == version)
      then err (unsupported_frame_version found_version)
      else and_then (kind_of (get_or buf 5 0)) λ kind. ok (record {
        kind = kind;
        flags = from_be_bytes (take 2 (drop 6 buf));
        payload_len = from_be_bytes (take 4 (drop 8 buf));
      })

-- `std::io::Read`, as far as it is used, on a state that holds the reader.
pub record Read (W : Type 0) : Type 0 where
  pub read_exact : ℕ → Exec W IoError (List ℕ)

-- `std::io::Write`
pub record Write (W : Type 0) : Type 0 where
  pub write_all : List ℕ → Exec W IoError (Unit {0})
  pub flush : Exec W IoError (Unit {0})

module _ {W : Type 0} where
  unfoldable pub read_frame : Read W → ℕ → Exec W Error Frame
  read_frame reader max_payload_len = do
    header_buf ← mapping_err io (reader.read_exact header_len)
    header ← lift (decode header_buf)
    if ltb max_payload_len header.payload_len
        then raise (payload_too_large header.payload_len max_payload_len)
        else do
          payload ← mapping_err io (reader.read_exact header.payload_len)
          pure (record { kind = header.kind; flags = header.flags; payload = payload })

  unfoldable pub write_frame_with_flags : Write W → FrameKind → ℕ → List ℕ → Exec W Error (Unit {0})
  write_frame_with_flags writer kind flags payload =
      if ltb u32_max (length payload)
      then raise (payload_too_large (length payload) u32_max)
      else do
        mapping_err io (
            writer.write_all
              (encode (record { kind = kind; flags = flags; payload_len = length payload })))
        mapping_err io (writer.write_all payload)
        mapping_err io writer.flush

  unfoldable pub write_frame : Write W → FrameKind → List ℕ → Exec W Error (Unit {0})
  unfolding write_frame_with_flags
  write_frame writer kind payload = write_frame_with_flags writer kind 0 payload
