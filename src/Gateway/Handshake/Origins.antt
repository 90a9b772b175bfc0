-- ===== src/Gateway/Handshake/Origins.antt =====
-- Which origins crates/canopee-gateway/src/ws.rs takes for pages of this machine.
use mathlib.Core.List.{append-nil}
use canopee.Prelude.{
  ℕ, ◌≡◌, refl, Text, false, ◌||◌, Option, none, some, [], ◌∷◌, ◌++◌, arith, codes, contains,
  split_once, split_once-append, starts_with,
}
use canopee.Prelude.Words.{eq_ignore_ascii_case}
use canopee.Gateway.Handshake.{is_loopback_origin, host_of, before, before_scheme_end, after_scheme}

split_once-none : (c : ℕ) (s : Text) → contains c s ≡ false → split_once c s ≡ none
unfolding split_once contains
split_once-none c [] h = refl
split_once-none c (x ∷ s) h = ground (arith, split_once-none c s)

before-all : (c : ℕ) (s : Text) → contains c s ≡ false → before c s ≡ s
unfolding before
before-all c s h = rw (split_once-none c s h, before)

before-append : (c : ℕ) (s t : Text) → contains c s ≡ false → before c (s ++ (c ∷ t)) ≡ s
unfolding before
before-append c s t h = rw (split_once-append c s t h, before)

slashless-starts_with :
    (s : Text) → contains b'/' s ≡ false → starts_with s (b'/' ∷ b'/' ∷ []) ≡ false
unfolding starts_with contains
slashless-starts_with [] h = refl
slashless-starts_with (x ∷ s) h = ground arith

before_scheme_end-all : (s : Text) → contains b'/' s ≡ false → before_scheme_end s ≡ s
unfolding before_scheme_end starts_with contains
before_scheme_end-all [] h = refl
before_scheme_end-all (x ∷ s) h = ground (arith, before_scheme_end-all s, slashless-starts_with s)

after_scheme-append :
    (whole scheme t : Text)
    → contains b':' scheme ≡ false
    → after_scheme whole (scheme ++ (codes "://" ++ t)) ≡ before_scheme_end t
unfolding after_scheme starts_with contains
after_scheme-append whole [] t h = refl
after_scheme-append whole (x ∷ s) t h = ground (arith, after_scheme-append whole s t)

-- The port in an origin.
abbrev pub port_text : Option Text → Text
port_text none = []
port_text (some port) = b':' ∷ port

before-port :
    (host : Text) (port : Option Text)
    → contains b':' host ≡ false
    → before b':' (host ++ port_text port) ≡ host
before-port host none h = rw (append-nil host) (before-all b':' host h)
before-port host (some port) h = before-append b':' host port h

-- An origin of a scheme, a host and perhaps a port is taken for a page of this machine exactly when
-- the host is `127.0.0.1` or `localhost` in any case; scheme and host have no colon, and no slash
-- stands behind the scheme's.
is_loopback_origin-url :
    (scheme host : Text) (port : Option Text)
    → contains b':' scheme ≡ false
    → contains b':' host ≡ false
    → contains b'/' (host ++ port_text port) ≡ false
    → is_loopback_origin (some (scheme ++ (codes "://" ++ (host ++ port_text port)))) ≡ (
        eq_ignore_ascii_case host (codes "127.0.0.1")
        || eq_ignore_ascii_case host (codes "localhost"))
unfolding is_loopback_origin
is_loopback_origin-url scheme host port hs hh ha =
    let origin : Text = scheme ++ (codes "://" ++ (host ++ port_text port)) in
    let found : host_of origin ≡ host =
      unfold host_of in
      rw (
        after_scheme-append origin scheme (host ++ port_text port) hs,
        before_scheme_end-all (host ++ port_text port) ha,
        before-all b'/' (host ++ port_text port) ha,
        before-port host port hh,
      ) in
    rw found
