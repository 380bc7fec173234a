-- ===== src/Records/Prefixes.antt =====
-- PrefixService: CreatePrefix, UpdatePrefix, DeletePrefix, UpdateScanConfig and NextAvailableIP.
use blackgrid.Prelude.{
  ℕ, suc, String, Bool, false, not, if◌then◌else◌, ◌||◌, ltb, ◌==◌, Option, none, some, List, [],
  ◌∷◌, update_by, remove_by, keep_if, map, Result, ok, err,
}
use blackgrid.Model.{ipam_prefix_changed, Event, Value, string, bool}
use blackgrid.Ipam.Hosts.{IpamError, get_next_available_ip}
use blackgrid.Records.{
  PrefixRecord, AddressRecord, RecordStore, RecordQuery, create_prefix_row, update_prefix_row,
  delete_prefix_row, update_scan_row, get_prefix_row, list_prefix_addresses, RecordError,
  bad_prefix, invalid_interval, record_database, no_address, RecordService, publish_record,
  record_event, prefix_id_of, find_record, prefix_in_use,
}

-- The columns of CreatePrefixParams and UpdatePrefixParams.
pub record PrefixParams : Type 0 where
  pub site_id : Option ℕ
  pub vlan_id : Option ℕ
  pub prefix : String
  pub description : Option String

-- The defaults of the columns that CreatePrefix does not set.
abbrev pub prefix_row : ℕ → PrefixParams → PrefixRecord
prefix_row id p = record {
  id = id;
  site_id = p.site_id;
  vlan_id = p.vlan_id;
  prefix = p.prefix;
  description = p.description;
  scan_enabled = false;
  scan_interval_seconds = 3600;
}

abbrev pub updated_prefix : PrefixParams → PrefixRecord → PrefixRecord
updated_prefix p r = record r {
  site_id = p.site_id;
  vlan_id = p.vlan_id;
  prefix = p.prefix;
  description = p.description;
}

abbrev pub prefix_event : ℕ → List (String × Value) → Event
prefix_event id payload = record_event ipam_prefix_changed "prefix" id payload

unfoldable pub create_prefix :
    RecordService
    → (RecordQuery → Bool)
    → PrefixParams
    → RecordStore
    → Result RecordError PrefixRecord × RecordStore
create_prefix svc fails p s = elim (svc.text.parse_prefix p.prefix) [
  | none ↦ (err (bad_prefix p.prefix), s)
  | some _ ↦
      if fails create_prefix_row || prefix_in_use none p.prefix s
      then (err (record_database create_prefix_row), s)
      else (
        ok (prefix_row s.next_id p),
        publish_record svc
            (prefix_event s.next_id
              (("action", string "created") ∷ ("prefix", string p.prefix) ∷ []))
            (record s { prefixes = prefix_row s.next_id p ∷ s.prefixes; next_id = suc s.next_id }),
      )
]

unfoldable pub update_prefix :
    RecordService
    → (RecordQuery → Bool)
    → ℕ
    → PrefixParams
    → RecordStore
    → Result RecordError PrefixRecord × RecordStore
update_prefix svc fails id p s = elim (svc.text.parse_prefix p.prefix) [
  | none ↦ (err (bad_prefix p.prefix), s)
  | some _ ↦
      if fails update_prefix_row || prefix_in_use (some id) p.prefix s
      then (err (record_database update_prefix_row), s)
      else (elim (find_record id s) [
        | none ↦ (err (record_database update_prefix_row), s)
        | some r ↦ (
          ok (updated_prefix p r),
          publish_record svc
              (prefix_event id (("action", string "updated") ∷ ("prefix", string p.prefix) ∷ []))
              (record s { prefixes = update_by prefix_id_of id (updated_prefix p) s.prefixes }),
        )
      ])
]

-- DELETE FROM prefixes, with ON DELETE CASCADE on the addresses.
unfoldable pub delete_prefix :
    RecordService → (RecordQuery → Bool) → ℕ → RecordStore → Option RecordError × RecordStore
delete_prefix svc fails id s =
    if fails delete_prefix_row then (some (record_database delete_prefix_row), s) else (
      none,
      publish_record svc (prefix_event id (("action", string "deleted") ∷ [])) (record s {
        prefixes = remove_by prefix_id_of id s.prefixes;
        addresses = remove_by (λ (a : AddressRecord). a.prefix_id) id s.addresses;
      }),
    )

-- ValidateScanInterval, where a negative interval reads as 0.
abbrev pub is_valid_interval : ℕ → Bool
is_valid_interval seconds = not (ltb seconds 60)

unfoldable pub update_scan_config :
    RecordService
    → (RecordQuery → Bool)
    → ℕ
    → Bool
    → ℕ
    → RecordStore
    → Result RecordError PrefixRecord × RecordStore
update_scan_config svc fails id enabled interval s =
    if not (is_valid_interval interval)
    then (err (invalid_interval "scan_interval_seconds must be >= 60"), s)
    else if fails update_scan_row
    then (err (record_database update_scan_row), s)
    else (elim (find_record id s) [
      | none ↦ (err (record_database update_scan_row), s)
      | some r ↦ (
        ok (record r { scan_enabled = enabled; scan_interval_seconds = interval }),
        publish_record svc
            (prefix_event id
              (("action", string "scan_config_updated") ∷ ("scan_enabled", bool enabled) ∷ []))
            (record s {
              prefixes =
                  update_by prefix_id_of id
                    (λ (x : PrefixRecord). record x {
                      scan_enabled = enabled;
                      scan_interval_seconds = interval;
                    })
                    s.prefixes;
            }),
      )
    ])

-- GetIPAddressesByPrefix
abbrev pub rows_of : ℕ → List AddressRecord → List AddressRecord
rows_of id rows = keep_if (λ (a : AddressRecord). a.prefix_id == id) rows

abbrev pub texts_of : ℕ → List AddressRecord → List String
texts_of id rows = map (λ (a : AddressRecord). a.ip_address) (rows_of id rows)

abbrev pub next_result : Result IpamError String → Result RecordError String
next_result (ok t) = ok t
next_result (err e) = err (no_address e)

unfoldable pub next_available_ip :
    RecordService → (RecordQuery → Bool) → ℕ → RecordStore → Result RecordError String
next_available_ip svc fails id s =
    if fails get_prefix_row
    then err (record_database get_prefix_row)
    else (elim (find_record id s) [
      | none ↦ err (record_database get_prefix_row)
      | some r ↦
          if fails list_prefix_addresses
          then err (record_database list_prefix_addresses)
          else next_result (get_next_available_ip svc.text r.prefix (texts_of id s.addresses))
    ])
