-- ===== src/Http.antt =====
-- crates/canopee-runtime/src/http.rs: how a served app answers a request. The files are the map from
-- app paths to bodies; compression is a parameter, `none` where it fails.
pub mod Range
pub mod Media
pub mod Answers
pub mod Responses
use canopee.Prelude.{
  ℕ, ◌+◌, ◌-◌, Text, Bytes, Bool, true, false, ◌&&◌, ◌||◌, not, Option, none, some, List, [], ◌∷◌,
  ◌++◌, Result, ok, err, ◌>>=◌, length, take, drop, ltb, leb, same, codes, find, if◌then◌else◌,
}
use canopee.Prelude.Assoc.{Assoc, lookup}
use canopee.Prelude.Words.{trim, trim_matches, eq_ignore_ascii_case, contains_text}
use canopee.Prelude.Decimal.{to_string}
use canopee.Platform.{Platform}
use canopee.Storage.Object.{from_data}
use canopee.Http.Range.{RangeSpec, unsatisfiable, bytes, parse_range}
use canopee.Http.Media.{guess_content_type, is_asset_request, is_compressible}

pub record ServeResponse : Type 0 where
  pub status : Text
  pub headers : List (Text × Text)
  pub body : Bytes

abbrev pub min_compressible_len : ℕ
min_compressible_len = 256

-- The value of the first header of this name, in any case.
unfoldable pub header : List (Text × Text) → Text → Option Text
header [] want = none
header ((k, v) ∷ rest) want = if eq_ignore_ascii_case k want then some v else header rest want

-- The key that is served and its file: the path itself, the entrypoint for a route, or nothing.
unfoldable pub served : Assoc Bytes → Text → Text × Option Bytes
served files path = elim (lookup path files) [
  | some body ↦ (path, some body)
  | none ↦ if is_asset_request path then (path, none) else elim (lookup (codes "/") files) [
    | some body ↦ (codes "/", some body)
    | none ↦ (path, none)
  ]
]

unfoldable pub quoted : Text → Text
quoted s = b'"' ∷ (s ++ (b'"' ∷ []))

unfoldable pub etag_matches : Text → Option Text → Bool
etag_matches ours none = false
etag_matches ours (some sent) = same (trim (trim_matches b'"' sent)) (trim_matches b'"' ours)

unfoldable pub not_modified : Text → Text → ServeResponse
not_modified content_type etag = record {
  status = codes "304 Not Modified";
  headers = (codes "Content-Type", content_type) ∷ (codes "ETag", etag) ∷ [];
  body = [];
}

unfoldable pub not_found_response : Text → ServeResponse
not_found_response content_type = record {
  status = codes "404 Not Found";
  headers = (codes "Content-Type", content_type) ∷ [];
  body = [];
}

unfoldable pub range_response : Text → Text → Bytes → RangeSpec → ServeResponse
range_response content_type etag body unsatisfiable = record {
  status = codes "416 Range Not Satisfiable";
  headers =
      (codes "Content-Type", content_type)
      ∷ (codes "Accept-Ranges", codes "bytes")
      ∷ (codes "Content-Range", codes "bytes */" ++ to_string (length body))
      ∷ [];
  body = [];
}
range_response content_type etag body (bytes start end) = record {
  status = codes "206 Partial Content";
  headers =
      (codes "Content-Type", content_type)
      ∷ (codes "Content-Length", to_string (end - start + 1))
      ∷ (codes "Accept-Ranges", codes "bytes")
      ∷ (
        codes "Content-Range",
        codes "bytes "
            ++ (to_string start ++ (b'-' ∷ (to_string end ++ (b'/' ∷ to_string (length body))))),
      )
      ∷ (codes "ETag", etag)
      ∷ [];
  body = take (end - start + 1) (drop start body);
}

unfoldable pub accepts_gzip : Option Text → Bool
accepts_gzip none = false
accepts_gzip (some v) = contains_text v (codes "gzip")

-- The compressed body, where it is asked for, worth it and smaller.
unfoldable pub encoded_body : (Bytes → Option Bytes) → Bool → Text → Bytes → Option Bytes
encoded_body gzip accepts content_type body =
    if accepts && (leb min_compressible_len (length body) && is_compressible content_type)
    then elim (gzip body) [
      | none ↦ none
      | some gz ↦ if ltb (length gz) (length body) then some gz else none
    ]
    else none

abbrev or_body : Bytes → Option Bytes → Bytes
or_body body none = body
or_body body (some gz) = gz

abbrev encoding_header : Option Bytes → List (Text × Text)
encoding_header none = []
encoding_header (some gz) = (codes "Content-Encoding", codes "gzip") ∷ []

unfoldable pub full_response : Text → Text → Bytes → Option Bytes → Bool → ServeResponse
full_response content_type etag body encoded send_body = record {
  status = codes "200 OK";
  headers =
      (codes "Content-Type", content_type)
      ∷ (codes "Content-Length", to_string (length (or_body body encoded)))
      ∷ (codes "ETag", etag)
      ∷ (codes "Accept-Ranges", codes "bytes")
      ∷ (if is_compressible content_type
          then (codes "Vary", codes "Accept-Encoding") ∷ encoding_header encoded
          else []);
  body = if send_body then or_body body encoded else [];
}

module _ (p : Platform) (gzip : Bytes → Option Bytes) where
  -- A file that is found, once the conditional request is out of the way.
  unfoldable pub render_body :
      Text → Bytes → Text → List (Text × Text) → Bool → Result ServeResponse
  render_body content_type body etag headers is_get = do
    range ← (if is_get then parse_range (header headers (codes "range")) (length body) else ok none)
    let accepts = accepts_gzip (header headers (codes "accept-encoding"))
    ok (elim range [
      | some spec ↦ range_response content_type etag body spec
      | none ↦
          full_response content_type etag body (encoded_body gzip accepts content_type body) is_get
    ])

  unfoldable pub render_found :
      Text → Option Bytes → Text → List (Text × Text) → Result ServeResponse
  render_found content_type none method headers = ok (not_found_response content_type)
  render_found content_type (some body) method headers =
      let is_get = same method (codes "GET") in
      let etag = quoted (from_data p body) in
      if (is_get || same method (codes "HEAD"))
        && etag_matches etag (header headers (codes "if-none-match"))
      then ok (not_modified content_type etag)
      else render_body content_type body etag headers is_get

  unfoldable pub render_response :
      Assoc Bytes → Text → Text → List (Text × Text) → Result ServeResponse
  render_response files method path headers =
      let (key, found) = served files path in
      render_found (guess_content_type key) found method headers
