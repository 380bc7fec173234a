-- ===== src/Records/Addresses.antt =====
-- IPAddressService: CreateIPAddress, UpdateIPAddress, DeleteIPAddress and SetStatus.
use blackgrid.Prelude.{
  ℕ, suc, String, Bool, not, if◌then◌else◌, ◌||◌, Option, none, some, List, [], ◌∷◌, find_by,
  update_by, remove_by, Result, ok, err,
}
use blackgrid.Model.{ipam_ip_address_changed, Event, Value, string}
use blackgrid.Records.{
  AddressRecord, RecordStore, RecordQuery, create_address_row, update_address_row,
  delete_address_row, update_address_status, RecordError, bad_address, record_database,
  RecordService, publish_record, record_event, address_id_of, text_in_use, prefix_exists,
}

-- The columns of CreateIPAddressParams and UpdateIPAddressParams.
pub record AddressParams : Type 0 where
  pub prefix_id : ℕ
  pub ip_address : String
  pub interface_id : Option ℕ
  pub status : Option String
  pub description : Option String

abbrev pub address_row : ℕ → AddressParams → AddressRecord
address_row id p = record {
  id = id;
  prefix_id = p.prefix_id;
  ip_address = p.ip_address;
  interface_id = p.interface_id;
  status = p.status;
  description = p.description;
}

abbrev pub insert_address : AddressRecord → RecordStore → RecordStore
insert_address a s = record s { addresses = a ∷ s.addresses; next_id = suc s.next_id }

abbrev pub address_event : ℕ → List (String × Value) → Event
address_event id payload = record_event ipam_ip_address_changed "ip_address" id payload

abbrev pub write_address : AddressRecord → RecordStore → RecordStore
write_address a s = record s { addresses = update_by address_id_of a.id (λ old. a) s.addresses }

unfoldable pub create_ip_address :
    RecordService
    → (RecordQuery → Bool)
    → AddressParams
    → RecordStore
    → Result RecordError AddressRecord × RecordStore
create_ip_address svc fails p s = elim (svc.text.parse_addr p.ip_address) [
  | none ↦ (err (bad_address p.ip_address), s)
  | some _ ↦
      if fails create_address_row
        || text_in_use none p.ip_address s
        || not (prefix_exists p.prefix_id s)
      then (err (record_database create_address_row), s)
      else (
        ok (address_row s.next_id p),
        publish_record svc
            (address_event s.next_id
              (("action", string "created") ∷ ("ip_address", string p.ip_address) ∷ []))
            (insert_address (address_row s.next_id p) s),
      )
]

-- UPDATE … WHERE id RETURNING: an error where there is no such row.
unfoldable pub update_ip_address :
    RecordService
    → (RecordQuery → Bool)
    → ℕ
    → AddressParams
    → RecordStore
    → Result RecordError AddressRecord × RecordStore
update_ip_address svc fails id p s = elim (svc.text.parse_addr p.ip_address) [
  | none ↦ (err (bad_address p.ip_address), s)
  | some _ ↦
      if fails update_address_row
        || text_in_use (some id) p.ip_address s
        || not (prefix_exists p.prefix_id s)
      then (err (record_database update_address_row), s)
      else (elim (find_by address_id_of id s.addresses) [
        | none ↦ (err (record_database update_address_row), s)
        | some _ ↦ (
          ok (address_row id p),
          publish_record svc
              (address_event id
                (("action", string "updated") ∷ ("ip_address", string p.ip_address) ∷ []))
              (write_address (address_row id p) s),
        )
      ])
]

-- A row that is not there is no error, and is published as deleted.
unfoldable pub delete_ip_address :
    RecordService → (RecordQuery → Bool) → ℕ → RecordStore → Option RecordError × RecordStore
delete_ip_address svc fails id s =
    if fails delete_address_row then (some (record_database delete_address_row), s) else (
      none,
      publish_record svc (address_event id (("action", string "deleted") ∷ []))
          (record s { addresses = remove_by address_id_of id s.addresses }),
    )

-- SetStatus, which the handlers call with the words reserved, assigned and available.
unfoldable pub set_ip_status :
    RecordService
    → (RecordQuery → Bool)
    → ℕ
    → String
    → RecordStore
    → Result RecordError AddressRecord × RecordStore
set_ip_status svc fails id status s =
    if fails update_address_status
    then (err (record_database update_address_status), s)
    else (elim (find_by address_id_of id s.addresses) [
      | none ↦ (err (record_database update_address_status), s)
      | some a ↦ (
        ok (record a { status = some status }),
        publish_record svc
            (address_event id
              (("action", string "status_changed") ∷ ("status", string status) ∷ []))
            (record s {
              addresses =
                  update_by address_id_of id
                    (λ (x : AddressRecord). record x { status = some status }) s.addresses;
            }),
      )
    ])
