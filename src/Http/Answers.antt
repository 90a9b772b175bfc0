-- ===== src/Http/Answers.antt =====
-- What a response of crates/canopee-runtime/src/http.rs may be, for a request and the file of its path.
use canopee.Prelude.{
  ℕ, ◌+◌, ◌-◌, ◌≤◌, ◌<◌, ◌≡◌, ◌≢◌, Text, Bytes, Option, none, some, [], List, ok, length, take,
  drop, codes, ◌⊎◌,
}
use canopee.Prelude.Words.{trim, trim_matches}
use canopee.Prelude.Decimal.{to_string}
use canopee.Platform.{Platform}
use canopee.Storage.Object.{from_data}
use canopee.Http.Range.{unsatisfiable, bytes, parse_range}
use canopee.Http.{ServeResponse, header, quoted}

-- The length that the headers announce.
unfoldable pub announced : ServeResponse → Option Text
announced r = header r.headers (codes "content-length")

-- The request has an If-None-Match whose tag, without quotes and spaces around it, is the file's.
abbrev pub SentTag : Text → List (Text × Text) → Type 0
SentTag etag headers =
    (sent : Text) × (header headers (codes "if-none-match") ≡ some sent)
    × (trim (trim_matches b'"' sent) ≡ trim_matches b'"' etag)

-- What each status says of a response to a request of `method` with these headers, for a file that
-- is `found`.
pub data Answer (p : Platform) (gzip : Bytes → Option Bytes) (headers : List (Text × Text))
    (found : Option Bytes) (method : Text) (r : ServeResponse) : Type 0 where
  missing :
      found ≡ none
      → r.status ≡ codes "404 Not Found"
      → r.body ≡ []
      → Answer p gzip headers found method r
  unchanged :
      (file : Bytes)
      → found ≡ some file
      → (method ≡ codes "GET") ⊎ (method ≡ codes "HEAD")
      → SentTag (quoted (from_data p file)) headers
      → r.status ≡ codes "304 Not Modified"
      → r.body ≡ []
      → Answer p gzip headers found method r
  unsatisfied :
      (file : Bytes)
      → found ≡ some file
      → method ≡ codes "GET"
      → (SentTag (quoted (from_data p file)) headers → ⊥)
      → parse_range (header headers (codes "range")) (length file) ≡ ok (some unsatisfiable)
      → r.status ≡ codes "416 Range Not Satisfiable"
      → r.body ≡ []
      → Answer p gzip headers found method r
  partial :
      (file : Bytes) (a b : ℕ)
      → found ≡ some file
      → method ≡ codes "GET"
      → (SentTag (quoted (from_data p file)) headers → ⊥)
      → parse_range (header headers (codes "range")) (length file) ≡ ok (some (bytes a b))
      → r.status ≡ codes "206 Partial Content"
      → (a ≤ b) × (b < length file)
      → r.body ≡ take (b - a + 1) (drop a file)
      → announced r ≡ some (to_string (length r.body))
      → Answer p gzip headers found method r
  full :
      (file : Bytes)
      → found ≡ some file
      → method ≡ codes "GET"
      → (SentTag (quoted (from_data p file)) headers → ⊥)
      → parse_range (header headers (codes "range")) (length file) ≡ ok none
      → r.status ≡ codes "200 OK"
      → (r.body ≡ file) ⊎ ((gzip file ≡ some r.body) × (length r.body < length file))
      → announced r ≡ some (to_string (length r.body))
      → Answer p gzip headers found method r
  head :
      (file : Bytes)
      → found ≡ some file
      → method ≢ codes "GET"
      → (method ≡ codes "HEAD" → SentTag (quoted (from_data p file)) headers → ⊥)
      → r.status ≡ codes "200 OK"
      → r.body ≡ []
      → Answer p gzip headers found method r
