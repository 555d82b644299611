-- ===== src/Http/Reading.antt =====
-- crates/kube-rpc/src/http_parser.rs: what reading the head of a request ends with.
use Prim.Native.Nat.{zero, suc}
use lapdev.Base.{
  min, ltb→lt, ltb→le, ◌==◌, nat_key, nat_eq_iff, ℕ, ◌+◌, ◌-◌, ◌≤◌, ◌<◌, ◌≡◌, refl, sym, ◌∙◌, Bool,
  true, false, not, ◌&&◌, Bool-cases, inl, inr, Option, none, some, List, [], ◌∷◌, ◌++◌, arith, ltb,
  length, take, length-append, take-append,
}
use lapdev.Http.{
  ReadResult, bytes, failed, late, chunk_of, HeaderReadStatus, complete, timed_out, unexpected_eof,
  too_large, read_error, out_of_fuel, Reader, ReaderLaws, max_header_size, header_end_marker,
  headers_complete, read_len, read_chunk_with_deadline, after_read, read_loop,
  read_http_headers_with_deadline,
}
use lapdev.Http.Search.{search_from_end}

abbrev is_complete : HeaderReadStatus → Bool
is_complete complete = true
is_complete _ = false

abbrev is_too_large : HeaderReadStatus → Bool
is_too_large too_large = true
is_too_large _ = false

abbrev is_settled : HeaderReadStatus → Bool
is_settled out_of_fuel = false
is_settled _ = true

-- `last` is an end of reading that began with `buffer`.
pub record IsRead {R : Type 0} (buffer : List ℕ) (last : HeaderReadStatus × List ℕ × R)
    : Type 0 where
  pub settled : is_settled last.0 ≡ true
  pub ended : is_complete last.0 ≡ headers_complete last.1 header_end_marker
  pub bounded : length last.1 ≤ max_header_size
  pub kept : take (length buffer) last.1 ≡ buffer
  pub full : (is_too_large last.0 && ltb (length last.1) max_header_size) ≡ false

-- What one reading from the stream answers, with room for some bytes and by a deadline.
pub data Answers {R : Type 0} (reader : Reader R) : Option ℕ → ℕ → R → ReadResult × R → Type 0 where
  unlimited : (room : ℕ) (stream : R) → Answers reader none room stream (reader.read room stream)
  in_time :
      (deadline room : ℕ) (stream : R)
      → reader.now stream < deadline
      → Answers reader
          (some deadline)
          room
          stream
          (reader.read_within (deadline - reader.now stream) room stream)
  passed :
      (deadline room : ℕ) (stream : R)
      → deadline ≤ reader.now stream
      → Answers reader (some deadline) room stream (late, stream)

-- What an answer without bytes ends the reading with.
abbrev pub status_of : ReadResult → Option HeaderReadStatus
status_of late = some timed_out
status_of failed = some read_error
status_of (bytes []) = some unexpected_eof
status_of (bytes (b ∷ chunk)) = none

-- Reading a head from a stream, described by the answers of the stream: every byte that it yields is
-- put behind the buffer, and the whole buffer is looked through for the end of a head.
pub data Reads {R : Type 0} (reader : Reader R) (deadline : Option ℕ)
    : List ℕ → R → HeaderReadStatus × List ℕ × R → Type 0 where
  found :
      (buffer : List ℕ) (stream : R)
      → headers_complete buffer header_end_marker ≡ true
      → Reads reader deadline buffer stream (complete, buffer, stream)
  filled_up :
      (buffer : List ℕ) (stream : R)
      → headers_complete buffer header_end_marker ≡ false
      → 8192 ≤ length buffer
      → Reads reader deadline buffer stream (too_large, buffer, stream)
  cut_off :
      (buffer : List ℕ) (stream next : R) (result : ReadResult) (status : HeaderReadStatus)
      → headers_complete buffer header_end_marker ≡ false
      → length buffer < 8192
      → Answers reader deadline (min (8192 - length buffer) 1024) stream (result, next)
      → status_of result ≡ some status
      → Reads reader deadline buffer stream (status, buffer, next)
  more :
      (buffer : List ℕ) (stream next : R) (b : ℕ) (chunk : List ℕ)
      (last : HeaderReadStatus × List ℕ × R)
      → headers_complete buffer header_end_marker ≡ false
      → length buffer < 8192
      → Answers reader deadline (min (8192 - length buffer) 1024) stream (bytes (b ∷ chunk), next)
      → Reads reader deadline (buffer ++ b ∷ chunk) next last
      → Reads reader deadline buffer stream last

take_all {ℓ} : {A : Type ℓ} (xs : List A) → take (length xs) xs ≡ xs
take_all [] = refl
take_all (x ∷ xs) = ground (arith, take_all xs)

-- What begins with an extension of a list begins with the list.
take_extended {ℓ} :
    {A : Type ℓ} (xs ys zs : List A)
    → take (length (xs ++ ys)) zs ≡ xs ++ ys
    → take (length xs) zs ≡ xs
take_extended [] ys zs h = refl
take_extended (x ∷ xs) ys [] h = ground arith
take_extended (x ∷ xs) ys (z ∷ zs) h = ground (arith, take_extended xs ys zs)

-- Reading that stops with the buffer as it is.
stopped :
    {R : Type 0} (status : HeaderReadStatus) (buffer : List ℕ) (stream : R)
    → (is_settled status && not (is_complete status)) ≡ true
    → (is_too_large status && ltb (length buffer) max_header_size) ≡ false
    → headers_complete buffer header_end_marker ≡ false
    → length buffer ≤ max_header_size
    → IsRead buffer (status, buffer, stream)
stopped status buffer stream end full missing fits = record {
  settled = ground arith;
  ended = ground arith;
  bounded = fits;
  kept = take_all buffer;
  full = full;
}

-- Reading that goes on with a longer buffer.
longer-IsRead :
    {R : Type 0} (buffer chunk : List ℕ) (last : HeaderReadStatus × List ℕ × R)
    → IsRead (buffer ++ chunk) last
    → IsRead buffer last
longer-IsRead buffer chunk last h = record {
  settled = h.settled;
  ended = h.ended;
  bounded = h.bounded;
  kept = take_extended buffer chunk last.1 h.kept;
  full = h.full;
}

after_read-IsRead :
    {R : Type 0} (result : ReadResult) (buffer : List ℕ) (next : R)
    (rest : HeaderReadStatus × List ℕ × R)
    → headers_complete buffer header_end_marker ≡ false
    → length buffer + length (chunk_of result) ≤ max_header_size
    → (headers_complete (buffer ++ chunk_of result) header_end_marker ≡ false
        → 0 < length (chunk_of result)
        → IsRead (buffer ++ chunk_of result) rest)
    → IsRead buffer (after_read result buffer next rest)
unfolding after_read
after_read-IsRead late buffer next rest missing fits onwards =
    stopped timed_out buffer next refl refl missing (omega arith)
after_read-IsRead failed buffer next rest missing fits onwards =
    stopped read_error buffer next refl refl missing (omega arith)
after_read-IsRead (bytes []) buffer next rest missing fits onwards =
    stopped unexpected_eof buffer next refl refl missing (omega arith)
after_read-IsRead (bytes (b ∷ chunk)) buffer next rest missing fits onwards =
    let longer = buffer ++ b ∷ chunk in
    let search = search_from_end buffer (b ∷ chunk) missing in
    elim (Bool-cases (headers_complete longer header_end_marker)) [
      | inl there ↦
          rw (search ∙ there, after_read)
            (record {
              settled = refl;
              ended = sym there;
              bounded = ground (arith, length-append buffer (b ∷ chunk));
              kept = take-append buffer (b ∷ chunk);
              full = refl;
            })
      | inr absent ↦
          rw (search ∙ absent, after_read)
            (longer-IsRead buffer (b ∷ chunk) rest (onwards absent (omega arith)))
    ]

module _ {R : Type 0} (reader : Reader R) (laws : ReaderLaws reader) (deadline : Option ℕ) where
  chunk_bound :
      (room : ℕ) (stream : R)
      → length (chunk_of (read_chunk_with_deadline reader deadline room stream).0) ≤ room
  unfolding read_chunk_with_deadline
  chunk_bound room stream =
      elim deadline
        as (λ d. length (chunk_of (read_chunk_with_deadline reader d room stream).0) ≤ room) [
          | none ↦ ground (arith, laws.read_bound room stream)
          | some d ↦ ground (arith, laws.read_within_bound (d - reader.now stream) room stream)
        ]

  read_chunk-Answers :
      (room : ℕ) (stream : R)
      → 0 < room
      → Answers reader deadline room stream (read_chunk_with_deadline reader deadline room stream)
  unfolding read_chunk_with_deadline
  read_chunk-Answers room stream some_room =
      let there : (room == 0) ≡ false = ground (arith, nat_eq_iff room 0) in
      elim deadline
        as (λ d. Answers reader d room stream (read_chunk_with_deadline reader d room stream)) [
          | none ↦ rw there (unlimited room stream)
          | some d ↦ elim (Bool-cases (ltb (reader.now stream) d)) [
            | inl before ↦ rw (there, before) (in_time d room stream (ltb→lt _ _ before))
            | inr behind ↦ rw (there, behind) (passed d room stream (ltb→le _ _ behind))
          ]
        ]

  after_read-Reads :
      (result : ReadResult) (buffer : List ℕ) (stream next : R)
      (rest : HeaderReadStatus × List ℕ × R)
      → headers_complete buffer header_end_marker ≡ false
      → length buffer < 8192
      → Answers reader deadline (min (8192 - length buffer) 1024) stream (result, next)
      → (headers_complete (buffer ++ chunk_of result) header_end_marker ≡ false
          → 0 < length (chunk_of result)
          → Reads reader deadline (buffer ++ chunk_of result) next rest)
      → Reads reader deadline buffer stream (after_read result buffer next rest)
  unfolding after_read
  after_read-Reads late buffer stream next rest missing short answer onwards =
      cut_off buffer stream next late timed_out missing short answer refl
  after_read-Reads failed buffer stream next rest missing short answer onwards =
      cut_off buffer stream next failed read_error missing short answer refl
  after_read-Reads (bytes []) buffer stream next rest missing short answer onwards =
      cut_off buffer stream next (bytes []) unexpected_eof missing short answer refl
  after_read-Reads (bytes (b ∷ chunk)) buffer stream next rest missing short answer onwards =
      let longer = buffer ++ b ∷ chunk in
      let search = search_from_end buffer (b ∷ chunk) missing in
      elim (Bool-cases (headers_complete longer header_end_marker)) [
        | inl there ↦
            rw (search ∙ there, after_read)
              (more buffer stream next b chunk _ missing short answer (found longer next there))
        | inr absent ↦
            rw (search ∙ absent, after_read)
              (more buffer stream next b chunk rest missing short answer
                (onwards absent (omega arith)))
      ]

  read_loop-Reads :
      (fuel : ℕ) (buffer : List ℕ) (stream : R)
      → headers_complete buffer header_end_marker ≡ false
      → length buffer ≤ max_header_size
      → max_header_size - length buffer < fuel
      → Reads reader deadline buffer stream (read_loop reader deadline fuel buffer stream)
  unfolding read_loop
  read_loop-Reads zero buffer stream missing fits enough = absurd (omega arith)
  read_loop-Reads (suc fuel) buffer stream missing fits enough =
      let (result, next) = read_chunk_with_deadline reader deadline (read_len buffer) stream in
      let bound = chunk_bound (read_len buffer) stream in
      let rest = read_loop reader deadline fuel (buffer ++ chunk_of result) next in
      elim (Bool-cases (ltb (length buffer) max_header_size)) [
        | inr over ↦ rw (over, read_loop) (filled_up buffer stream missing (ltb→le _ _ over))
        | inl room ↦
            let short = ltb→lt (length buffer) max_header_size room in
            rw (room, read_loop)
              (after_read-Reads result buffer stream next rest missing short
                (read_chunk-Answers (read_len buffer) stream (ground arith))
                (λ absent more.
                  read_loop-Reads fuel (buffer ++ chunk_of result) next absent
                    (ground (arith, length-append buffer (chunk_of result)))
                    (ground (arith, length-append buffer (chunk_of result)))))
      ]

  read_loop-IsRead :
      (fuel : ℕ) (buffer : List ℕ) (stream : R)
      → headers_complete buffer header_end_marker ≡ false
      → length buffer ≤ max_header_size
      → max_header_size - length buffer < fuel
      → IsRead buffer (read_loop reader deadline fuel buffer stream)
  unfolding read_loop
  read_loop-IsRead zero buffer stream missing fits enough = absurd (omega arith)
  read_loop-IsRead (suc fuel) buffer stream missing fits enough =
      let (result, next) = read_chunk_with_deadline reader deadline (read_len buffer) stream in
      let bound = chunk_bound (read_len buffer) stream in
      let rest = read_loop reader deadline fuel (buffer ++ chunk_of result) next in
      elim (Bool-cases (ltb (length buffer) max_header_size)) [
        | inr over ↦ rw (over, read_loop) (stopped too_large buffer stream refl over missing fits)
        | inl room ↦
            rw (room, read_loop)
              (after_read-IsRead result buffer next rest missing (ground arith) (λ absent more.
                read_loop-IsRead fuel (buffer ++ chunk_of result) next absent
                  (ground (arith, length-append buffer (chunk_of result)))
                  (ground (arith, length-append buffer (chunk_of result)))))
      ]

  -- Reading into a buffer of at most 8192 bytes ends with the fuel given, in one of the outcomes of the
  -- code, and after the answers of the stream that lead to this outcome: each reading has room for what is
  -- left of the 8192 bytes and for 1024 at most, and the time that is left of the deadline; exactly the
  -- bytes that the stream yields stand, in their order, behind those that the buffer held; and reading
  -- goes on until the buffer contains the end of a head, is full, or the stream ends, fails or is
  -- late. The buffer does not grow beyond 8192 bytes; reading is complete exactly if the buffer
  -- contains the end of a head; and it is too large only with 8192 bytes.
  pub read_http_headers_with_deadline-IsRead :
      (buffer : List ℕ) (stream : R)
      → length buffer ≤ max_header_size
      → IsRead buffer (read_http_headers_with_deadline reader deadline buffer stream)
        × Reads reader deadline buffer stream
            (read_http_headers_with_deadline reader deadline buffer stream)
  unfolding read_http_headers_with_deadline
  read_http_headers_with_deadline-IsRead buffer stream fits =
      elim (Bool-cases (headers_complete buffer header_end_marker)) [
        | inl there ↦
            rw (there, read_http_headers_with_deadline)
              (
                record {
                  settled = refl;
                  ended = sym there;
                  bounded = fits;
                  kept = take_all buffer;
                  full = refl;
                },
                found buffer stream there,
              )
        | inr absent ↦
            rw (absent, read_http_headers_with_deadline)
              (
                read_loop-IsRead (suc max_header_size) buffer stream absent fits (omega arith),
                read_loop-Reads (suc max_header_size) buffer stream absent fits (omega arith),
              )
      ]
