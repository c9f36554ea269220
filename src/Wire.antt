-- ===== src/Wire.antt =====
-- agent/internal/guest/vsockwire/proto.go: the framed protocol between the host and the daemon in
-- a guest. A writer is a state with a parameter `write`, a reader the bytes that a connection will
-- still deliver before it ends; `json.Marshal` is the argument `payload`.
pub mod Frames
pub mod Examples
use pandastack_ai.Common.{
  ℕ, ◌+◌, ◌*◌, ◌/◌, ◌%◌, ◌^◌, Bool, true, false, not, ◌&&◌, ◌||◌, Option, none, some, List, [], ◌∷◌,
  ◌++◌, length, take, drop, ltb, ◌==◌, if◌then◌else◌,
}

abbrev pub Bytes : Type 0
Bytes = List ℕ

-- `Magic`, "PD".
abbrev pub magic_0 : ℕ
magic_0 = 80

abbrev pub magic_1 : ℕ
magic_1 = 68

-- 16 MiB.
abbrev pub max_payload : ℕ
max_payload = 16 * 2 ^ 20

abbrev pub header_len : ℕ
header_len = 7

pub data WriteError : Type 0 where
  marshal_failed too_large header_failed payload_failed : WriteError

-- `binary.BigEndian.PutUint32` of `uint32(n)`.
unfoldable pub put_uint32 : ℕ → Bytes
put_uint32 n =
    (n / 2 ^ 24 % 2 ^ 8) ∷ ((n / 2 ^ 16 % 2 ^ 8) ∷ ((n / 2 ^ 8 % 2 ^ 8) ∷ ((n % 2 ^ 8) ∷ [])))

unfoldable pub header : ℕ → ℕ → Bytes
header op n = magic_0 ∷ (magic_1 ∷ ((op % 2 ^ 8) ∷ put_uint32 n))

module _ {W : Type 0} (write : Bytes → W → Bool × W) where
  abbrev pub after_payload : Bool × W → Option WriteError × W
  after_payload (true, w) = (none, w)
  after_payload (false, w) = (some payload_failed, w)

  abbrev pub after_header : Bytes → Bool × W → Option WriteError × W
  after_header payload (true, w) = after_payload (write payload w)
  after_header payload (false, w) = (some header_failed, w)

  -- The first component is none for a nil error.
  unfoldable pub write_frame : ℕ → Option Bytes → W → Option WriteError × W
  unfolding header
  write_frame op none w = (some marshal_failed, w)
  write_frame op (some payload) w =
      let sent = after_header payload (write (header op (length payload)) w) in
      if ltb max_payload (length payload) then (some too_large, w) else sent

pub data ReadError : Type 0 where
  no_header bad_magic oversized no_payload : ReadError

-- A frame, its payload, and the bytes left; or the error.
pub data Read : Type 0 where
  frame : ℕ → Bytes → Bytes → Read
  read_err : ReadError → Read

-- The payload of `io.ReadFull`, if there are that many bytes.
unfoldable pub read_payload : ℕ → ℕ → Bytes → Read
read_payload op n bs =
    if ltb max_payload n
    then read_err oversized
    else (if ltb (length bs) n then read_err no_payload else frame op (take n bs) (drop n bs))

-- The header is the first seven bytes; fewer make `io.ReadFull` fail.
unfoldable pub read_frame : Bytes → Read
unfolding read_payload
read_frame (m0 ∷ m1 ∷ op ∷ a ∷ b ∷ c ∷ d ∷ bs) =
    let body = read_payload op (a * 2 ^ 24 + b * 2 ^ 16 + c * 2 ^ 8 + d) bs in
    if not (m0 == magic_0) || not (m1 == magic_1) then read_err bad_magic else body
read_frame _ = read_err no_header
