-- ===== src/Tunnel/Roundtrip.antt =====
-- crates/tunnel/src/message.rs: what one end writes the other end reads, whatever follows it.
use Prim.Native.Nat.{zero, suc}
use mathlib.Core.List.{append_assoc}
use lapdev.Base.{
  ℕ, ◌+◌, ◌*◌, ◌/◌, ◌%◌, min, ◌≡◌, refl, sym, ap, ◌∙◌, Bool, true, false, Bool-cases, inl, inr,
  Option, none, some, List, [], ◌∷◌, ◌++◌, arith, ltb, if◌then◌else◌, length, take, length-append,
  length-take, take-append, drop-append,
}
use lapdev.Base.Map.{unwrap_or}
use lapdev.Tunnel.{
  Result, ok, err, target_host_too_long, TunnelTarget, Protocol, tcp, udp, StreamOpenRequest, as_u8,
  try_from, is_utf8, max_host_len, max_error_len, write_u16, read_exact_into,
  write_stream_open_request, read_stream_open_request, remote_open_failed,
  write_stream_open_response, read_stream_open_response,
}

read_exact_into-append : (xs ys : List ℕ) → read_exact_into (length xs) (xs ++ ys) ≡ ok (xs, ys)
unfolding read_exact_into
read_exact_into-append xs ys =
    ground (arith, length-append xs ys, take-append xs ys, drop-append xs ys)

-- What is read from the stream that the writer leaves, if it does not fail.
abbrev pub read_written : Result (List ℕ) → List ℕ → Result (StreamOpenRequest × List ℕ)
read_written (err e) rest = err e
read_written (ok written) rest = read_stream_open_request (written ++ rest)

host_len :
    (host : List ℕ)
    → ltb max_host_len (length host) ≡ false
    → (length host % 65536) / 256 * 256 + length host % 65536 % 256 ≡ length host
host_len host short = ground arith

number : (n : ℕ) → n / 256 * 256 + n % 256 ≡ n
number n = omega arith

read_parts :
    (protocol : Protocol) (host : List ℕ) (port : ℕ) (rest : List ℕ)
    → is_utf8 host ≡ true
    → ltb max_host_len (length host) ≡ false
    → read_stream_open_request
        (as_u8 protocol ∷ (write_u16 (length host % 65536) ++ (host ++ (write_u16 port ++ rest))))
      ≡ ok (record { protocol = protocol; target = record { host = host; port = port } }, rest)
unfolding read_stream_open_request try_from as_u8
read_parts tcp host port rest text short =
    rw
      (
        host_len host short,
        short,
        read_exact_into-append host (write_u16 port ++ rest),
        text,
        number port,
      )
      refl
read_parts udp host port rest text short =
    rw
      (
        host_len host short,
        short,
        read_exact_into-append host (write_u16 port ++ rest),
        text,
        number port,
      )
      refl

-- A request to open a stream is read as it was written, with the bytes behind it left in the stream.
-- A host of more than 65535 bytes is refused before anything is written.
pub read_stream_open_request-write :
    (protocol : Protocol) (target : TunnelTarget) (rest : List ℕ)
    → is_utf8 target.host ≡ true
    → read_written (write_stream_open_request protocol target) rest ≡ (
        if ltb max_host_len (length target.host)
        then err target_host_too_long
        else ok (record { protocol = protocol; target = target }, rest))
unfolding write_stream_open_request
read_stream_open_request-write protocol target rest text =
    elim (Bool-cases (ltb max_host_len (length target.host))) [
      | inl long ↦ rw (long, write_stream_open_request) refl
      | inr short ↦
          rw
            (
              short,
              write_stream_open_request,
              append_assoc target.host (write_u16 target.port) rest,
            )
            (read_parts protocol target.host target.port rest text short)
    ]

take-min : (xs : List ℕ) (n : ℕ) → take (min (length xs) n) xs ≡ take n xs
take-min [] zero = refl
take-min [] (suc n) = ground arith
take-min (x ∷ xs) zero = ground arith
take-min (x ∷ xs) (suc n) =
    let size : min (suc (length xs)) (suc n) ≡ suc (min (length xs) n) = omega arith in
    ap (λ k. take k (x ∷ xs)) size ∙ ap (λ l. x ∷ l) (take-min xs n)

-- The message of a failure: at most 65535 bytes of it, or the general one where the cut is within a
-- character.
abbrev pub reported : Option (List ℕ) → List ℕ
reported error =
    let cut = take max_error_len (unwrap_or remote_open_failed error) in
    if is_utf8 cut then cut else remote_open_failed

-- The answer to a request to open a stream is read as it was written. A failure without a message is read with the
-- general one; a message that is longer than 65535 bytes is cut there, and replaced by the general one
-- if that leaves no text.
pub read_stream_open_response-write :
    (success : Bool) (error : Option (List ℕ)) (rest : List ℕ)
    → read_stream_open_response (write_stream_open_response success error ++ rest)
      ≡ ok (
        record { success = success; error = if success then none else some (reported error) },
        rest,
      )
unfolding read_stream_open_response write_stream_open_response
read_stream_open_response-write true error rest = refl
read_stream_open_response-write false error rest =
    let message = unwrap_or remote_open_failed error in
    let size = min (length message) max_error_len in
    let len : size % 65536 / 256 * 256 + size % 65536 % 256 ≡ size = omega arith in
    let short : ltb max_error_len size ≡ false = ground arith in
    let written : length (take size message) ≡ size = omega (arith, length-take size message) in
    let exact : read_exact_into size (take size message ++ rest) ≡ ok (take size message, rest) =
      ap (λ n. read_exact_into n (take size message ++ rest)) (sym written)
      ∙ read_exact_into-append (take size message) rest in
    rw (len, short, exact, take-min message max_error_len) refl
