-- ===== src/Examples/Accounts.antt =====
-- The formats of the runtime's records over the toy platform, Alice's account and pointers to objects.
use canopee.Prelude.{
  ℕ, Bool, true, false, ◌==◌, ◌≡◌, Text, none, some, [], ◌∷◌, ok, err, not_found, refl,
}
use canopee.Storage.Types.{
  ObjectId, ObjectPayload, IdentityId, AppPointerRecord, DeviceEntry, DeviceList, Profile, Contact,
  ContactList, UsernameRecord, HomeEntry, HomeIndex, app_pointer,
}
use canopee.Storage.Pointer.{signing_bytes}
use canopee.Runtime.Network.{Network}
use canopee.Runtime.Node.{Node}
use canopee.Runtime.Records.{Formats, Account}
use canopee.Examples.Encoding.{Field, number, text, pair, via, list, option, to_codec}
use canopee.Examples.Toy.{toy, type_field}
use canopee.Examples.Data.{alice, indexes}

abbrev pub pointer_field : Field AppPointerRecord
pointer_field =
    via (pair text (pair text (pair text (pair number (pair text text)))))
      (λ r. (r.name, (r.owner, (r.manifest, (r.published_at, (r.public_key, r.signature))))))
      (λ t. record {
        name = t.0;
        owner = t.1.0;
        manifest = t.1.1.0;
        published_at = t.1.1.1.0;
        public_key = t.1.1.1.1.0;
        signature = t.1.1.1.1.1;
      })
      (λ r. refl)

abbrev entry_field : Field DeviceEntry
entry_field =
    via (pair text (pair text (option number))) (λ d. (d.device_id, (d.device_name, d.added_at)))
      (λ t. record { device_id = t.0; device_name = t.1.0; added_at = t.1.1 }) (λ d. refl)

abbrev devices_field : Field DeviceList
devices_field =
    via (pair (list entry_field) number) (λ l. (l.devices, l.version))
      (λ t. record { devices = t.0; version = t.1 }) (λ l. refl)

abbrev profile_field : Field Profile
profile_field =
    via (pair text (pair text (pair (option text) number)))
      (λ q. (q.display_name, (q.dh_public_key, (q.avatar, q.version))))
      (λ t. record {
        display_name = t.0;
        dh_public_key = t.1.0;
        avatar = t.1.1.0;
        version = t.1.1.1;
      })
      (λ q. refl)

abbrev contact_field : Field Contact
contact_field =
    via (pair text (pair text (pair text (option text))))
      (λ q. (q.name, (q.peer_id, (q.dh_public_key, q.note))))
      (λ t. record { name = t.0; peer_id = t.1.0; dh_public_key = t.1.1.0; note = t.1.1.1 })
      (λ q. refl)

abbrev contacts_field : Field ContactList
contacts_field =
    via (pair (list contact_field) number) (λ l. (l.contacts, l.version))
      (λ t. record { contacts = t.0; version = t.1 }) (λ l. refl)

abbrev username_field : Field UsernameRecord
username_field =
    via (pair text number) (λ u. (u.username, u.version))
      (λ t. record { username = t.0; version = t.1 }) (λ u. refl)

abbrev flag_code : Bool → ℕ
flag_code false = 0
flag_code true = 1

pub flag_of_code-flag_code : (b : Bool) → (flag_code b == 1) ≡ b
flag_of_code-flag_code false = refl
flag_of_code-flag_code true = refl

abbrev flag : Field Bool
flag = via number flag_code (λ n. n == 1) flag_of_code-flag_code

abbrev home_entry_field : Field HomeEntry
home_entry_field =
    via (pair text (pair text (pair type_field (pair flag (option text)))))
      (λ e. (e.name, (e.object, (e.object_type, (e.shared, e.app)))))
      (λ t. record {
        name = t.0;
        object = t.1.0;
        object_type = t.1.1.0;
        shared = t.1.1.1.0;
        app = t.1.1.1.1;
      })
      (λ e. refl)

abbrev home_index_field : Field HomeIndex
home_index_field =
    via (pair (option text) (pair (option text) (pair (list home_entry_field) number)))
      (λ i. (i.profile, (i.contacts, (i.entries, i.version))))
      (λ t. record { profile = t.0; contacts = t.1.0; entries = t.1.1.0; version = t.1.1.1 })
      (λ i. refl)

abbrev pub formats : Formats
formats = record {
  digest = λ b. b;
  pointers = to_codec pointer_field;
  indexes = indexes;
  device_lists = to_codec devices_field;
  profiles = to_codec profile_field;
  contact_lists = to_codec contacts_field;
  usernames = to_codec username_field;
  home_indexes = to_codec home_index_field;
}

-- A network with no one in it.
abbrev pub silent : Network
silent = record {
  peers = ok [];
  find_providers = λ id. ok [];
  get_object = λ q id. err not_found;
  get_record = λ key. ok none;
  announce_object = λ id. ok tt;
  sort_peers = λ l. l;
  parse_peer_id = λ s. some s;
}

abbrev pub empty_node : Node toy
empty_node = record {
  identity = alice;
  files = [];
  cache = record { entries = [] };
  sidecar = none;
  shared = [];
  calls = [];
}

abbrev pub empty : Account toy
empty = record { node = empty_node; records = [] }

-- A pointer by the key `s`, whose identity ends in it.
abbrev pub pointer_by : ℕ → IdentityId → Text → ObjectId → ℕ → AppPointerRecord
pointer_by s owner name target time = record {
  name = name;
  owner = owner;
  manifest = target;
  published_at = time;
  public_key = s ∷ [];
  signature = s ∷ signing_bytes name owner target time;
}

-- A payload with a pointer, which states any owner.
abbrev pub pointer_payload : IdentityId → AppPointerRecord → ObjectPayload
pointer_payload owner r = record {
  owner = owner;
  metadata = record { created_at = 5; size = 9; content_type = none };
  object_type = app_pointer;
  contents = formats.pointers.serialize r;
}
