-- ===== src/Http/Responses.antt =====
-- What a response of crates/canopee-runtime/src/http.rs carries.
use mathlib.Core.Path.{subst}
use canopee.Prelude.{
  ap, sym, ◌∙◌, ◌↔◌, ℕ, ◌+◌, ◌-◌, ◌≤◌, ◌<◌, ◌≡◌, refl, Text, Bytes, Bool, true, false, ◌&&◌, ◌||◌,
  Option, none, some, List, ok, arith, length, take, drop, same, same_iff, codes, inl, inr, ◌⊎◌,
  length-take, length-drop, Bool-cases, Option-cases, Result-cases,
}
use canopee.Prelude.Assoc.{Assoc, lookup}
use canopee.Prelude.Words.{eq_ignore_ascii_case, trim, trim_matches}
use canopee.Prelude.Decimal.{to_string}
use canopee.Platform.{Platform}
use canopee.Storage.Object.{from_data}
use canopee.Http.Range.{RangeSpec, unsatisfiable, bytes, parse_range}
use canopee.Http.Range.Bounds.{parse_range_bounds}
use canopee.Http.Answers.{
  Answer, SentTag, announced, missing, unchanged, unsatisfied, partial, full, head,
}
use canopee.Http.Media.{guess_content_type, is_asset_request}
use canopee.Http.{
  ServeResponse, header, served, quoted, etag_matches, not_modified, not_found_response,
  range_response, encoded_body, full_response, render_body, render_found, render_response,
  accepts_gzip, or_body,
}

-- The file that answers a path: its own, or for a path that is no asset the entrypoint.
served_cases :
    (files : Assoc Bytes) (path : Text)
    → ((served files path).1 ≡ lookup path files)
      ⊎ ((lookup path files ≡ none)
          × (is_asset_request path ≡ false)
          × ((served files path).1 ≡ lookup (codes "/") files))
unfolding served
served_cases files path = ground arith

etag_matches_iff :
    (etag : Text) (headers : List (Text × Text))
    → (etag_matches etag (header headers (codes "if-none-match")) ≡ true) ↔ SentTag etag headers
unfolding etag_matches
etag_matches_iff etag headers = elim (Option-cases (header headers (codes "if-none-match"))) [
  | inl e ↦ ((λ h. absurd (ground arith)), (λ (sent, g, _). absurd (ground arith)))
  | inr (sent, e) ↦ (
    (λ h. (
      sent,
      e,
      (same_iff (trim (trim_matches b'"' sent)) (trim_matches b'"' etag)).0 (rw e at h),
    )),
    (λ (other, g, q).
        let one : other ≡ sent = ground arith in
        rw (e) (
          (same_iff (trim (trim_matches b'"' sent)) (trim_matches b'"' etag)).1
            (ap (λ w. trim (trim_matches b'"' w)) (sym one) ∙ q))),
  )
]

length-part :
    (file : Bytes) (a b : ℕ)
    → a ≤ b
    → b < length file
    → length (take (b - a + 1) (drop a file)) ≡ b - a + 1
length-part file a b h k = omega (arith, length-take (b - a + 1) (drop a file), length-drop a file)

announced-part :
    (t etag file : Text) (a b : ℕ)
    → announced (range_response t etag file (bytes a b)) ≡ some (to_string (b - a + 1))
unfolding announced range_response header eq_ignore_ascii_case
announced-part t etag file a b = refl

announced-full :
    (t etag file : Text) (gz : Option Bytes) (send : Bool)
    → announced (full_response t etag file gz send) ≡ some (to_string (length (or_body file gz)))
unfolding announced full_response header eq_ignore_ascii_case
announced-full t etag file gz send = refl

encoded_body-some :
    (gzip : Bytes → Option Bytes) (accepts : Bool) (t file : Text) {gz : Bytes}
    → encoded_body gzip accepts t file ≡ some gz
    → (gzip file ≡ some gz) × (length gz < length file)
unfolding encoded_body
encoded_body-some gzip accepts t file h = ground arith

encoded_body_sound :
    (gzip : Bytes → Option Bytes) (accepts : Bool) (t file : Text)
    → (or_body file (encoded_body gzip accepts t file) ≡ file)
      ⊎ ((gzip file ≡ some (or_body file (encoded_body gzip accepts t file)))
          × (length (or_body file (encoded_body gzip accepts t file)) < length file))
unfolding encoded_body
encoded_body_sound gzip accepts t file = elim (Option-cases (encoded_body gzip accepts t file)) [
  | inl e ↦ inl (rw e)
  | inr (gz, e) ↦ rw e (inr (encoded_body-some gzip accepts t file e))
]

module _ (p : Platform) (gzip : Bytes → Option Bytes) (headers : List (Text × Text)) where
  abbrev Stale : Bytes → Type 0
  Stale file = SentTag (quoted (from_data p file)) headers → ⊥

  range_response-Answer :
      (method t etag file : Text) (spec : RangeSpec)
      → method ≡ codes "GET"
      → Stale file
      → parse_range (header headers (codes "range")) (length file) ≡ ok (some spec)
      → Answer p gzip headers (some file) method (range_response t etag file spec)
  range_response-Answer method t etag file unsatisfiable get stale e =
      unsatisfied file refl get stale e (unfold range_response in refl)
        (unfold range_response in refl)
  range_response-Answer method t etag file (bytes a b) get stale e =
      let bound : (a ≤ b) × (b < length file) = parse_range_bounds _ (length file) e in
      partial file a b refl get stale e (unfold range_response in refl) bound
        (unfold range_response in refl)
        (announced-part t etag file a b
          ∙ ap (λ n. some (to_string n))
              (unfold range_response in sym (length-part file a b bound.0 bound.1)))

  full_response-Answer :
      (method t etag file : Text) (accepts : Bool)
      → method ≡ codes "GET"
      → Stale file
      → parse_range (header headers (codes "range")) (length file) ≡ ok none
      → Answer p gzip headers
          (some file)
          method
          (full_response t etag file (encoded_body gzip accepts t file) true)
  full_response-Answer method t etag file accepts get stale e =
      let gz : Option Bytes = encoded_body gzip accepts t file in
      full file refl get stale e (unfold full_response in refl)
        (unfold full_response in encoded_body_sound gzip accepts t file)
        (announced-full t etag file gz true ∙ (unfold full_response in refl))

  render_get-Answer :
      (t file etag method : Text) {r : ServeResponse}
      → method ≡ codes "GET"
      → Stale file
      → render_body p gzip t file etag headers true ≡ ok r
      → Answer p gzip headers (some file) method r
  unfolding render_body
  render_get-Answer t file etag method {r} get stale h =
      let accepts : Bool = accepts_gzip (header headers (codes "accept-encoding")) in
      elim (Result-cases (parse_range (header headers (codes "range")) (length file))) [
        | inl (none, e) ↦
            let made : full_response t etag file (encoded_body gzip accepts t file) true ≡ r =
              ground arith in
            subst (Answer p gzip headers (some file) method) made
              (full_response-Answer method t etag file accepts get stale e)
        | inl (some spec, e) ↦
            let made : range_response t etag file spec ≡ r = ground arith in
            subst (Answer p gzip headers (some file) method) made
              (range_response-Answer method t etag file spec get stale e)
        | inr (x, e) ↦ absurd (ground arith)
      ]

  render_body-Answer :
      (t file etag method : Text) {r : ServeResponse}
      → ((method ≡ codes "GET") ⊎ (method ≡ codes "HEAD") → Stale file)
      → render_body p gzip t file etag headers (same method (codes "GET")) ≡ ok r
      → Answer p gzip headers (some file) method r
  unfolding render_body
  render_body-Answer t file etag method {r} stale h =
      let accepts : Bool = accepts_gzip (header headers (codes "accept-encoding")) in
      elim (Bool-cases (same method (codes "GET"))) [
        | inr other ↦
            let made : full_response t etag file (encoded_body gzip accepts t file) false ≡ r =
              ground arith in
            subst (Answer p gzip headers (some file) method) made (
              head file refl (λ e. ground (arith, same_iff method (codes "GET")))
                (λ e. stale (inr e)) (unfold full_response in refl) (unfold full_response in refl))
        | inl get ↦
            let is_get : method ≡ codes "GET" = (same_iff method (codes "GET")).0 get in
            render_get-Answer t file etag method is_get (stale (inl is_get))
              (subst (λ g. render_body p gzip t file etag headers g ≡ ok r) get h)
      ]

  still_stale :
      (etag method : Text)
      → ((same method (codes "GET") || same method (codes "HEAD"))
          && etag_matches etag (header headers (codes "if-none-match")))
        ≡ false
      → (method ≡ codes "GET") ⊎ (method ≡ codes "HEAD")
      → SentTag etag headers
      → ⊥
  still_stale etag method h one_of tag =
      let tagged : etag_matches etag (header headers (codes "if-none-match")) ≡ true =
        (etag_matches_iff etag headers).1 tag in
      elim one_of [
        | inl e ↦
            let is : same method (codes "GET") ≡ true = (same_iff method (codes "GET")).1 e in
            absurd (ground arith)
        | inr e ↦
            let is : same method (codes "HEAD") ≡ true = (same_iff method (codes "HEAD")).1 e in
            absurd (ground arith)
      ]

  render_found-Answer :
      (t : Text) (found : Option Bytes) (method : Text) {r : ServeResponse}
      → render_found p gzip t found method headers ≡ ok r
      → Answer p gzip headers found method r
  unfolding render_found
  render_found-Answer t none method {r} h =
      let made : not_found_response t ≡ r = ground arith in
      subst (Answer p gzip headers none method) made
        (missing refl (unfold not_found_response in refl) (unfold not_found_response in refl))
  render_found-Answer t (some file) method {r} h =
      let etag : Text = quoted (from_data p file) in
      let sent : Option Text = header headers (codes "if-none-match") in
      elim (Bool-cases
        ((same method (codes "GET") || same method (codes "HEAD")) && etag_matches etag sent)) [
          | inl fresh ↦
              let made : not_modified t etag ≡ r = ground arith in
              let tagged : etag_matches etag sent ≡ true = ground arith in
              subst (Answer p gzip headers (some file) method) made (
                unchanged file refl
                  (ground (arith, same_iff method (codes "GET"), same_iff method (codes "HEAD")))
                  ((etag_matches_iff etag headers).0 tagged) (unfold not_modified in refl)
                  (unfold not_modified in refl))
          | inr stale ↦
              render_body-Answer t file etag method (still_stale etag method stale) (rw stale at h)
        ]

  -- Every response that is rendered is of one of six kinds, each with the status, the body and the
  -- announced length that `Answer` names, and with what it says of the method, the file, the tag in
  -- If-None-Match and what `parse_range` makes of Range.
  pub render_response-Answer :
      (files : Assoc Bytes) (method path : Text) {r : ServeResponse}
      → render_response p gzip files method path headers ≡ ok r
      → Answer p gzip headers (served files path).1 method r
  unfolding render_response
  render_response-Answer files method path h =
      render_found-Answer (guess_content_type (served files path).0) (served files path).1 method h
