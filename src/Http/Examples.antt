-- ===== src/Http/Examples.antt =====
-- Witnesses for the theorems on reading the head of a request.

use lapdev.Base.{ℕ, none, List, [], ◌∷◌, arith, take, drop, length-take}
use lapdev.Http.{bytes, Reader, ReaderLaws, read_http_headers_with_deadline}
use lapdev.Http.Reading.{IsRead, Reads, read_http_headers_with_deadline-IsRead}

-- A stream of which everything has arrived.
abbrev arrived : Reader (List ℕ)
arrived = record {
  read = λ room stream. (bytes (take room stream), drop room stream);
  read_within = λ time room stream. (bytes (take room stream), drop room stream);
  now = λ _. 0;
}

arrived_laws : ReaderLaws arrived
arrived_laws = record {
  read_bound = λ room stream. omega (arith, length-take room stream);
  read_within_bound = λ time room stream. omega (arith, length-take room stream);
}

-- The request after its first byte.
abbrev behind_g : List ℕ
behind_g = 69 ∷ 13 ∷ 10 ∷ 13 ∷ 10 ∷ 7 ∷ []

read_http_headers_with_deadline-IsRead_example :
    IsRead (71 ∷ []) (read_http_headers_with_deadline arrived none (71 ∷ []) behind_g)
    × Reads arrived none
        (71 ∷ [])
        behind_g
        (read_http_headers_with_deadline arrived none (71 ∷ []) behind_g)
read_http_headers_with_deadline-IsRead_example =
    read_http_headers_with_deadline-IsRead arrived arrived_laws none (71 ∷ []) behind_g
      (omega arith)
