-- ===== src/Records.antt =====
-- The prefixes and addresses of the IPAM: PrefixService and IPAddressService of
-- internal/service/prefix.go and ip_address.go over the tables prefixes and ip_addresses
-- (internal/db/query.sql.go), with their unique columns and foreign keys. Whether a query fails is an
-- argument, and a query that fails changes nothing. Sites, VLANs and interfaces are numbers, whose foreign
-- keys are part of the failure of a query.
pub mod Addresses
pub mod Prefixes
pub mod Handed
pub mod Sound
pub mod Calls
mod Tests
use blackgrid.Prelude.{
  ℕ, String, Bool, false, if◌then◌else◌, Option, none, some, List, [], ◌∷◌, ◌++◌, any_of, keep_if,
  find_by, ◌==◌, not, ◌&&◌, is_some,
}
use text.Mathlib.Text.{◌==◌ as str_eq}
use blackgrid.Model.{Event, EventType, Value}
use blackgrid.Ipam.Hosts.{Text, IpamError}

-- A row of `prefixes`, with every column that the service writes.
pub record PrefixRecord : Type 0 where
  pub id : ℕ
  pub site_id : Option ℕ
  pub vlan_id : Option ℕ
  pub prefix : String
  pub description : Option String
  pub scan_enabled : Bool
  pub scan_interval_seconds : ℕ

-- A row of `ip_addresses`, with every column that the service writes.
pub record AddressRecord : Type 0 where
  pub id : ℕ
  pub prefix_id : ℕ
  pub ip_address : String
  pub interface_id : Option ℕ
  pub status : Option String
  pub description : Option String

-- The tables, newest row first, the number that the next row gets, and what was published, oldest
-- first.
pub record RecordStore : Type 0 where
  pub prefixes : List PrefixRecord
  pub addresses : List AddressRecord
  pub next_id : ℕ
  pub published : List Event

pub data RecordQuery : Type 0 where
  create_address_row update_address_row delete_address_row update_address_status : RecordQuery
  create_prefix_row update_prefix_row delete_prefix_row update_scan_row : RecordQuery
  get_prefix_row list_prefix_addresses : RecordQuery

pub data RecordError : Type 0 where
  bad_address bad_prefix invalid_interval : String → RecordError
  record_database : RecordQuery → RecordError
  no_address : IpamError → RecordError

-- The functions of net/netip on texts, and whether there is a bus.
pub record RecordService : Type 0 where
  pub text : Text
  pub has_bus : Bool

abbrev pub publish_record : RecordService → Event → RecordStore → RecordStore
publish_record svc e s = if svc.has_bus then record s { published = s.published ++ (e ∷ []) } else s

abbrev pub record_event : EventType → String → ℕ → List (String × Value) → Event
record_event ty object id payload = record {
  event_type = ty;
  object_type = object;
  object_id = id;
  payload = payload;
}

abbrev pub address_id_of : AddressRecord → ℕ
address_id_of a = a.id

abbrev pub prefix_id_of : PrefixRecord → ℕ
prefix_id_of p = p.id

abbrev pub find_record : ℕ → RecordStore → Option PrefixRecord
find_record id s = find_by prefix_id_of id s.prefixes

-- UNIQUE(ip_address), for a row other than the one with this id.
abbrev pub text_in_use : Option ℕ → String → RecordStore → Bool
text_in_use none t s = any_of (λ (a : AddressRecord). str_eq a.ip_address t) s.addresses
text_in_use (some id) t s =
    any_of (λ (a : AddressRecord). not (a.id == id) && str_eq a.ip_address t) s.addresses

-- UNIQUE(prefix)
abbrev pub prefix_in_use : Option ℕ → String → RecordStore → Bool
prefix_in_use none t s = any_of (λ (p : PrefixRecord). str_eq p.prefix t) s.prefixes
prefix_in_use (some id) t s =
    any_of (λ (p : PrefixRecord). not (p.id == id) && str_eq p.prefix t) s.prefixes

-- prefix_id REFERENCES prefixes(id)
abbrev pub prefix_exists : ℕ → RecordStore → Bool
prefix_exists id s = is_some (find_record id s)
