-- ===== src/Examples/HttpTests.antt =====
-- The theorems on responses at concrete inputs.
use canopee.Prelude.{
  Bytes, ◌≡◌, refl, ◌≤◌, ◌<◌, ok, some, none, [], ◌∷◌, codes, Option, contains, split_once, same,
}
use canopee.Prelude.Assoc.{Assoc, lookup}
use canopee.Prelude.Words.{trim, eq_ignore_ascii_case, after_last, trim_matches}
use canopee.Prelude.Decimal.{parse_u64, to_string}
use canopee.Http.Range.{bytes, parse_range, parse_spec, range_value, range_spec, starts_char}
use canopee.Http.Range.Bounds.{parse_range_bounds}
use canopee.Http.Media.{is_asset_request, guess_content_type, type_of_extension}
use canopee.Http.{
  ServeResponse, served, render_response, render_found, render_body, header, quoted, range_response,
  etag_matches,
}
use canopee.Http.Answers.{Answer}
use canopee.Http.Responses.{render_response-Answer}
use canopee.Storage.Object.{from_data}
use canopee.Examples.Toy.{toy}

middle : parse_range (some (codes "bytes=2-20")) 10 ≡ ok (some (bytes 2 9))
unfolding parse_range parse_spec range_value range_spec trim split_once parse_u64 contains
    eq_ignore_ascii_case starts_char
middle = refl

parse_range_bounds_example : (2 ≤ 9) × (9 < 10)
parse_range_bounds_example = parse_range_bounds (some (codes "bytes=2-20")) 10 middle

abbrev site : Assoc Bytes
site = (codes "/", codes "<p>hi</p>") ∷ (codes "/a.js", codes "let a = 1;") ∷ []

abbrev no_gzip : Bytes → Option Bytes
no_gzip body = none

abbrev part : ServeResponse
part = record {
  status = codes "206 Partial Content";
  headers =
      (codes "Content-Type", codes "application/javascript")
      ∷ (codes "Content-Length", codes "3")
      ∷ (codes "Accept-Ranges", codes "bytes")
      ∷ (codes "Content-Range", codes "bytes 0-2/10")
      ∷ (codes "ETag", codes "\"dlet a = 1;\"")
      ∷ [];
  body = codes "let";
}

part_rendered :
    render_response toy no_gzip site
      (codes "GET")
      (codes "/a.js")
      ((codes "Range", codes "bytes=0-2") ∷ [])
    ≡ ok part
unfolding render_response render_found render_body header quoted range_response served parse_range
    parse_spec range_value range_spec trim trim_matches split_once parse_u64 contains
    eq_ignore_ascii_case starts_char is_asset_request guess_content_type type_of_extension
    after_last to_string same from_data lookup etag_matches
part_rendered = refl

render_response-Answer_example :
    Answer toy no_gzip
      ((codes "Range", codes "bytes=0-2") ∷ [])
      (served site (codes "/a.js")).1
      (codes "GET")
      part
render_response-Answer_example =
    render_response-Answer toy no_gzip ((codes "Range", codes "bytes=0-2") ∷ []) site (codes "GET")
      (codes "/a.js") part_rendered
