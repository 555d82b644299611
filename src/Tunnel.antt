-- ===== src/Tunnel.antt =====
-- crates/tunnel/src/message.rs: the messages that open a stream of a tunnel. A stream is the list of
-- the bytes in it; a `String` is the list of its bytes, of which `is_utf8` holds.
pub mod Roundtrip
mod Examples
use Prim.Native.Nat.{zero, suc}
use lapdev.Base.{
  ℕ, ◌+◌, ◌*◌, ◌/◌, ◌%◌, min, Bool, true, false, ◌&&◌, not, Option, none, some, List, [], ◌∷◌, ◌++◌,
  ltb, leb, ◌==◌, nat_key, if◌then◌else◌, length, take, drop,
}
use lapdev.Base.Map.{unwrap_or}

pub data TunnelError : Type 0 where
  transport : TunnelError
  connection_closed : TunnelError
  target_host_too_long : TunnelError
  unsupported_protocol : TunnelError
  target_host_too_large : TunnelError
  invalid_host_encoding : TunnelError
  error_message_too_large : TunnelError

pub data Result {ℓ} (A : Type ℓ) : Type ℓ where
  ok : A → Result A
  err : TunnelError → Result A

-- What is read from a stream, and the stream behind it.
abbrev pub Read {ℓ} : Type ℓ → Type ℓ
Read A = List ℕ → Result (A × List ℕ)

abbrev pub and_then {ℓ κ} :
    {A : Type ℓ} {B : Type κ} → Result (A × List ℕ) → (A → Read B) → Result (B × List ℕ)
and_then (err e) next = err e
and_then (ok (a, stream)) next = next a stream

-- The ranges of the bytes that follow a first byte in UTF-8.
abbrev following : ℕ → Option (List (ℕ × ℕ))
following b =
    if ltb b 0x80
    then some []
    else if ltb b 0xc2
    then none
    else if ltb b 0xe0
    then some ((0x80, 0xbf) ∷ [])
    else if b == 0xe0
    then some ((0xa0, 0xbf) ∷ (0x80, 0xbf) ∷ [])
    else if b == 0xed
    then some ((0x80, 0x9f) ∷ (0x80, 0xbf) ∷ [])
    else if ltb b 0xf0
    then some ((0x80, 0xbf) ∷ (0x80, 0xbf) ∷ [])
    else if b == 0xf0
    then some ((0x90, 0xbf) ∷ (0x80, 0xbf) ∷ (0x80, 0xbf) ∷ [])
    else if ltb b 0xf4
    then some ((0x80, 0xbf) ∷ (0x80, 0xbf) ∷ (0x80, 0xbf) ∷ [])
    else if b == 0xf4
    then some ((0x80, 0x8f) ∷ (0x80, 0xbf) ∷ (0x80, 0xbf) ∷ [])
    else none

abbrev pub expects : List (ℕ × ℕ) → List ℕ → Bool
expects [] [] = true
expects [] (b ∷ bytes) = elim (following b) [ none ↦ false | some ranges ↦ expects ranges bytes ]
expects (range ∷ ranges) [] = false
expects ((first, last) ∷ ranges) (b ∷ bytes) = leb first b && leb b last && expects ranges bytes

-- String::from_utf8(bytes).is_ok()
unfoldable pub is_utf8 : List ℕ → Bool
is_utf8 bytes = expects [] bytes

pub record TunnelTarget : Type 0 where
  pub host : List ℕ
  pub port : ℕ

pub data Protocol : Type 0 where
  tcp : Protocol
  udp : Protocol

pub record StreamOpenRequest : Type 0 where
  pub protocol : Protocol
  pub target : TunnelTarget

pub record StreamOpenResponse : Type 0 where
  pub success : Bool
  pub error : Option (List ℕ)

unfoldable pub as_u8 : Protocol → ℕ
as_u8 tcp = 0
as_u8 udp = 1

-- Protocol::try_from
unfoldable pub try_from : ℕ → Option Protocol
try_from value = if value == 0 then some tcp else (if value == 1 then some udp else none)

abbrev pub max_host_len : ℕ
max_host_len = 65535

abbrev pub max_error_len : ℕ
max_error_len = 65535

abbrev pub write_u16 : ℕ → List ℕ
write_u16 n = n / 256 ∷ n % 256 ∷ []

abbrev pub read_u8 : Read ℕ
read_u8 [] = err transport
read_u8 (b ∷ stream) = ok (b, stream)

abbrev pub read_u16 : Read ℕ
read_u16 (a ∷ b ∷ stream) = ok (a * 256 + b, stream)
read_u16 _ = err transport

unfoldable pub read_exact_into : ℕ → Read (List ℕ)
read_exact_into n stream =
    if ltb (length stream) n then err connection_closed else ok (take n stream, drop n stream)

-- The bytes written, or the error.
unfoldable pub write_stream_open_request : Protocol → TunnelTarget → Result (List ℕ)
write_stream_open_request protocol target =
    if ltb max_host_len (length target.host)
    then err target_host_too_long
    else ok (
        as_u8 protocol
        ∷ (write_u16 (length target.host % 65536) ++ (target.host ++ write_u16 target.port)))

unfoldable pub read_stream_open_request : Read StreamOpenRequest
read_stream_open_request stream = and_then (read_u8 stream) (λ value stream. elim (try_from value) [
  | none ↦ err unsupported_protocol
  | some protocol ↦ and_then (read_u16 stream) (λ host_len stream.
      if ltb max_host_len host_len
      then err target_host_too_large
      else and_then (read_exact_into host_len stream) (λ host stream.
        if not (is_utf8 host)
        then err invalid_host_encoding
        else and_then (read_u16 stream) (λ port stream.
          ok (
            record { protocol = protocol; target = record { host = host; port = port } },
            stream,
          ))))
])

-- b"remote open failed"
abbrev pub remote_open_failed : List ℕ
remote_open_failed =
    114 ∷ 101 ∷ 109 ∷ 111 ∷ 116 ∷ 101 ∷ 32 ∷ 111 ∷ 112 ∷ 101 ∷ 110 ∷ 32 ∷ 102 ∷ 97 ∷ 105 ∷ 108 ∷ 101
    ∷ 100 ∷ []

unfoldable pub write_stream_open_response : Bool → Option (List ℕ) → List ℕ
write_stream_open_response success error =
    let message = unwrap_or remote_open_failed error in
    let len = min (length message) max_error_len in
    if success then 1 ∷ [] else 0 ∷ (write_u16 (len % 65536) ++ take len message)

unfoldable pub read_stream_open_response : Read StreamOpenResponse
read_stream_open_response stream = and_then (read_u8 stream) (λ value stream.
    if not (value == 0)
    then ok (record { success = true; error = none }, stream)
    else and_then (read_u16 stream) (λ len stream.
      if ltb max_error_len len
      then err error_message_too_large
      else and_then (read_exact_into len stream) (λ buf stream. ok (
        record { success = false; error = some (if is_utf8 buf then buf else remote_open_failed) },
        stream,
      ))))
