-- ===== src/Runtime/Network.antt =====
-- What the runtime asks of canopee_network::NetworkManager, and what the network answers at the time
-- of a call. A time limit is an error.
use canopee.Prelude.{
  Text, Bytes, Bool, false, Option, none, some, List, [], ◌∷◌, Result, ok, err, same, starts_with,
  drop, length, split_once, if◌then◌else◌,
}
use canopee.Identity.{identity_scheme}
use canopee.Storage.Types.{ObjectId, PeerId, IdentityId, ExportBundle}

pub record Network : Type 0 where
  pub peers : Result (List PeerId)
  pub find_providers : ObjectId → Result (List PeerId)
  pub get_object : PeerId → ObjectId → Result ExportBundle
  pub get_record : Bytes → Result (Option Bytes)
  pub announce_object : ObjectId → Result (Unit {0})
  -- `sort` with libp2p's order
  pub sort_peers : List PeerId → List PeerId
  -- `str::parse::<PeerId>`
  pub parse_peer_id : Text → Option PeerId

abbrev first_segment : Text → Option (Text × Text) → Text
first_segment rest none = rest
first_segment rest (some (segment, _)) = segment

-- Where the source logs an error and goes on, it is no answer.
unfoldable pub dht_record : Network → Bytes → Option Bytes
dht_record net key = elim (net.get_record key) [ err e ↦ none | ok found ↦ found ]

-- The peer that an identity is named after.
unfoldable pub owner_peer_id : Network → IdentityId → Option PeerId
owner_peer_id net owner =
    if starts_with owner identity_scheme
    then (let rest = drop (length identity_scheme) owner in
        net.parse_peer_id (first_segment rest (split_once b'/' rest)))
    else none

abbrev pub is_peer : Option PeerId → PeerId → Bool
is_peer none q = false
is_peer (some r) q = same r q

-- The first bundle that one of the peers answers with; `skip` is not asked.
unfoldable pub first_answer : Network → ObjectId → Option PeerId → List PeerId → Option ExportBundle
first_answer net id skip [] = none
first_answer net id skip (q ∷ qs) =
    let rest = first_answer net id skip qs in
    if is_peer skip q
    then rest
    else elim (net.get_object q id) [ err e ↦ rest | ok bundle ↦ some bundle ]

unfoldable pub answer_of : Network → ObjectId → Option PeerId → Option ExportBundle
answer_of net id none = none
answer_of net id (some q) = elim (net.get_object q id) [ err e ↦ none | ok bundle ↦ some bundle ]
