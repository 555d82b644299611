-- ===== src/Http.antt =====
-- crates/kube-rpc/src/http_parser.rs: reading the head of an HTTP request from a stream.
-- The stream is a parameter. Its `read` is given the room in the chunk and yields bytes, no bytes at
-- the end of the stream, or an error; under a deadline it can also be late.
pub mod Search
pub mod Reading
mod Examples
use Prim.Native.Nat.{zero, suc}
use lapdev.Base.{
  ℕ, ◌+◌, ◌-◌, ◌≤◌, ◌≡◌, min, Bool, true, false, Option, none, some, List, [], ◌∷◌, ◌++◌, ◌==◌,
  nat_key, leb, ltb, if◌then◌else◌, length, take, drop, any,
}
use lapdev.Net.{same_octets}

abbrev pub max_header_size : ℕ
max_header_size = 8192

abbrev pub read_chunk_size : ℕ
read_chunk_size = 1024

abbrev pub header_end_marker : List ℕ
header_end_marker = 13 ∷ 10 ∷ 13 ∷ 10 ∷ []

pub data ReadResult : Type 0 where
  bytes : List ℕ → ReadResult
  failed : ReadResult
  late : ReadResult

abbrev pub chunk_of : ReadResult → List ℕ
chunk_of (bytes chunk) = chunk
chunk_of _ = []

pub data HeaderReadStatus : Type 0 where
  complete : HeaderReadStatus
  timed_out : HeaderReadStatus
  unexpected_eof : HeaderReadStatus
  too_large : HeaderReadStatus
  read_error : HeaderReadStatus
  out_of_fuel : HeaderReadStatus

-- `slice::windows`
abbrev pub windows {ℓ} : {A : Type ℓ} → ℕ → List A → List (List A)
windows n [] = []
windows n (x ∷ xs) =
    let rest = windows n xs in if leb n (length (x ∷ xs)) then take n (x ∷ xs) ∷ rest else rest

unfoldable pub headers_complete : List ℕ → List ℕ → Bool
headers_complete buffer marker =
    any (λ window. same_octets window marker) (windows (length marker) buffer)

abbrev pub search_start : ℕ → ℕ
search_start prev_len = if leb 3 prev_len then prev_len - 3 else 0

-- The room in the next chunk.
abbrev pub read_len : List ℕ → ℕ
read_len buffer = min (max_header_size - length buffer) read_chunk_size

-- What is used of a stream in the state `R`: `read`, `read` under `timeout` for a duration, and the
-- clock.
pub record Reader (R : Type 0) : Type 0 where
  pub read : ℕ → R → ReadResult × R
  pub read_within : ℕ → ℕ → R → ReadResult × R
  pub now : R → ℕ

-- What is relied on: no more bytes are read than there is room for.
pub record ReaderLaws {R : Type 0} (reader : Reader R) : Type 0 where
  pub read_bound : (room : ℕ) (stream : R) → length (chunk_of (reader.read room stream).0) ≤ room
  pub read_within_bound :
      (time room : ℕ) (stream : R)
      → length (chunk_of (reader.read_within time room stream).0) ≤ room

-- One round of the loop after the read; `rest` is what further rounds end with.
unfoldable pub after_read :
    {R : Type 0}
    → ReadResult
    → List ℕ
    → R
    → HeaderReadStatus × List ℕ × R
    → HeaderReadStatus × List ℕ × R
after_read late buffer next rest = (timed_out, buffer, next)
after_read failed buffer next rest = (read_error, buffer, next)
after_read (bytes []) buffer next rest = (unexpected_eof, buffer, next)
after_read (bytes (b ∷ chunk)) buffer next rest =
    let longer = buffer ++ b ∷ chunk in
    if headers_complete (drop (search_start (length buffer)) longer) header_end_marker
    then (complete, longer, next)
    else rest

module _ {R : Type 0} (reader : Reader R) (deadline : Option ℕ) where
  unfoldable pub read_chunk_with_deadline : ℕ → R → ReadResult × R
  read_chunk_with_deadline room stream = if room == 0 then (bytes [], stream) else elim deadline [
    | some deadline ↦
        if ltb (reader.now stream) deadline
        then reader.read_within (deadline - reader.now stream) room stream
        else (late, stream)
    | none ↦ reader.read room stream
  ]

  -- The loop; the result is the status or the kind of error, the buffer and the stream.
  unfoldable pub read_loop : ℕ → List ℕ → R → HeaderReadStatus × List ℕ × R
  read_loop zero buffer stream = (out_of_fuel, buffer, stream)
  read_loop (suc fuel) buffer stream =
      let (result, next) = read_chunk_with_deadline (read_len buffer) stream in
      let rest = read_loop fuel (buffer ++ chunk_of result) next in
      if ltb (length buffer) max_header_size
      then after_read result buffer next rest
      else (too_large, buffer, stream)

  unfoldable pub read_http_headers_with_deadline : List ℕ → R → HeaderReadStatus × List ℕ × R
  read_http_headers_with_deadline buffer stream =
      if headers_complete buffer header_end_marker
      then (complete, buffer, stream)
      else read_loop (suc max_header_size) buffer stream
