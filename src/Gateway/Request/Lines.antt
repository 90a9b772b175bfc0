-- ===== src/Gateway/Request/Lines.antt =====
-- What `read_handshake` of crates/canopee-gateway/src/ws.rs makes of the lines of a request.
use canopee.Prelude.{
  ℕ, zero, suc, ◌≤◌, ◌<◌, ◌≡◌, refl, ap, Text, Bytes, Bool, true, false, some, List, [], ◌∷◌, ◌++◌,
  ok, arith, length, contains, All, Result-cases, inl, inr, is_some,
}
use canopee.Prelude.Utf8.{well_formed}
use canopee.Gateway.Handshake.{Handshake}
use canopee.Gateway.Request.{
  take_line, pop_return, read_http_line, read_headers, read_handshake, request_line, header_line,
}

take_line-shorter : (s : Bytes) → length (take_line s).1 ≤ length s
unfolding take_line
take_line-shorter [] = omega arith
take_line-shorter (b ∷ s) = ground (arith, take_line-shorter s)

take_line-drops : (b : ℕ) (s : Bytes) → length (take_line (b ∷ s)).1 ≤ length s
unfolding take_line
take_line-drops b s = ground (arith, take_line-shorter s)

take_line-append :
    (line rest : Bytes)
    → contains b'\n' line ≡ false
    → take_line (line ++ (b'\n' ∷ rest)) ≡ (line, rest)
unfolding take_line contains
take_line-append [] rest h = refl
take_line-append (b ∷ line) rest h = ground (arith, take_line-append line rest)

pop_return-append : (line : Text) → pop_return (line ++ (b'\r' ∷ [])) ≡ line
unfolding pop_return
pop_return-append [] = refl
pop_return-append (c ∷ []) = refl
pop_return-append (c ∷ d ∷ s) = ap (λ t. c ∷ t) (pop_return-append (d ∷ s))

abbrev pub is_filled : Text → Bool
is_filled [] = false
is_filled (c ∷ s) = true

-- A header that can stand on a line: not empty, of one line, and UTF-8 with the end of its line.
pub record IsLine (line : Text) : Type 0 where
  pub filled : is_filled line ≡ true
  pub single : contains b'\n' (line ++ (b'\r' ∷ [])) ≡ false
  pub text : well_formed (line ++ (b'\r' ∷ [])) ≡ true

-- The lines with their ends, and the empty line.
unfoldable pub head_bytes : List Text → Bytes → Bytes
head_bytes [] rest = b'\r' ∷ b'\n' ∷ rest
head_bytes (line ∷ lines) rest = (line ++ (b'\r' ∷ [])) ++ (b'\n' ∷ head_bytes lines rest)

-- What the lines set, in their order.
unfoldable pub with_lines : Handshake → List Text → Handshake
with_lines h [] = h
with_lines h (line ∷ lines) = with_lines (header_line h line) lines

module _ (from_utf8_lossy : Bytes → Text) where
  read_http_line-shorter :
      (s : Bytes) {line : Text} {rest : Bytes}
      → read_http_line from_utf8_lossy s ≡ ok (line, rest)
      → length rest < length s
  unfolding read_http_line
  read_http_line-shorter [] h = absurd (ground arith)
  read_http_line-shorter (b ∷ s) h = ground (arith, take_line-drops b s)

  read_headers_total :
      (fuel : ℕ) (h : Handshake) (s : Bytes)
      → length s < fuel
      → is_some (read_headers from_utf8_lossy fuel h s) ≡ true
  unfolding read_headers
  read_headers_total zero h s k = absurd (omega arith)
  read_headers_total (suc fuel) h s k = elim (Result-cases (read_http_line from_utf8_lossy s)) [
    | inr (x, e) ↦ rw (e, read_headers)
    | inl (([], rest), e) ↦ rw (e, read_headers)
    | inl ((c ∷ line, rest), e) ↦
        rw (e, read_headers)
          (read_headers_total fuel (header_line h (c ∷ line)) rest
            (omega (arith, read_http_line-shorter s {line = c ∷ line} {rest = rest} e)))
  ]

  -- With a round for each byte of the input, reading a request ends with a request or an error.
  read_handshake_total :
      (fuel : ℕ) (s : Bytes)
      → length s ≤ fuel
      → is_some (read_handshake from_utf8_lossy fuel s) ≡ true
  unfolding read_handshake
  read_handshake_total fuel s k = elim (Result-cases (read_http_line from_utf8_lossy s)) [
    | inr (x, e) ↦ rw (e, read_handshake)
    | inl ((line, rest), e) ↦
        rw (e, read_handshake)
          (read_headers_total fuel (request_line line) rest
            (omega (arith, read_http_line-shorter s {line = line} {rest = rest} e)))
  ]

  module _ (lossless : (b : Bytes) → well_formed b ≡ true → from_utf8_lossy b ≡ b) where
    read_http_line-append :
        (line rest : Bytes)
        → IsLine line
        → read_http_line from_utf8_lossy ((line ++ (b'\r' ∷ [])) ++ (b'\n' ∷ rest))
          ≡ ok (line, rest)
    unfolding read_http_line
    read_http_line-append [] rest h = absurd (ground (arith, h.filled))
    read_http_line-append (c ∷ line) rest h = rw (
      take_line-append ((c ∷ line) ++ (b'\r' ∷ [])) rest h.single,
      lossless ((c ∷ line) ++ (b'\r' ∷ [])) h.text,
      pop_return-append (c ∷ line),
    )

    read_http_line-blank :
        (rest : Bytes) → read_http_line from_utf8_lossy (b'\r' ∷ b'\n' ∷ rest) ≡ ok ([], rest)
    unfolding read_http_line take_line
    read_http_line-blank rest = rw (lossless (b'\r' ∷ []) (unfold well_formed in refl)) refl

    read_headers-head_bytes :
        (fuel : ℕ) (h : Handshake) (lines : List Text) (rest : Bytes)
        → length lines < fuel
        → All IsLine lines
        → read_headers from_utf8_lossy fuel h (head_bytes lines rest)
          ≡ some (ok (with_lines h lines, rest))
    unfolding read_headers head_bytes with_lines
    read_headers-head_bytes zero h lines rest k hs = absurd (omega arith)
    read_headers-head_bytes (suc fuel) h [] rest k hs = rw (read_http_line-blank rest, read_headers)
    read_headers-head_bytes (suc fuel) h ([] ∷ lines) rest k (hl, hs) =
        absurd (ground (arith, hl.filled))
    read_headers-head_bytes (suc fuel) h ((c ∷ line) ∷ lines) rest k (hl, hs) =
        rw (read_http_line-append (c ∷ line) (head_bytes lines rest) hl, read_headers)
          (read_headers-head_bytes fuel (header_line h (c ∷ line)) lines rest (omega arith) hs)

    -- A request whose lines are UTF-8, not empty and of one line each is read as what its lines set,
    -- in their order, and what follows the empty line is left.
    read_handshake-head_bytes :
        (fuel : ℕ) (request : Text) (lines : List Text) (rest : Bytes)
        → length lines < fuel
        → IsLine request
        → All IsLine lines
        → read_handshake from_utf8_lossy fuel (head_bytes (request ∷ lines) rest)
          ≡ some (ok (with_lines (request_line request) lines, rest))
    unfolding read_handshake head_bytes
    read_handshake-head_bytes fuel request lines rest k hr hs =
        rw (read_http_line-append request (head_bytes lines rest) hr, read_handshake)
          (read_headers-head_bytes fuel (request_line request) lines rest k hs)
