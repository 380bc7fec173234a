-- ===== src/Records/Calls.antt =====
-- Sequences of calls of PrefixService and IPAddressService.
use blackgrid.Prelude.{ℕ, String, Bool, List, [], ◌∷◌}
use blackgrid.Records.{RecordStore, RecordQuery, RecordService}
use blackgrid.Records.Addresses.{
  AddressParams, create_ip_address, update_ip_address, delete_ip_address, set_ip_status,
}
use blackgrid.Records.Prefixes.{
  PrefixParams, create_prefix, update_prefix, delete_prefix, update_scan_config,
}
use blackgrid.Records.Sound.{
  RecordsSound, create_ip_address-Holds, update_ip_address-Holds, delete_ip_address-Holds,
  set_ip_status-Holds, create_prefix-Holds, update_prefix-Holds, delete_prefix-Holds,
  update_scan_config-Holds,
}

-- A call.
pub data RecordCall : Type 0 where
  creates_address : AddressParams → RecordCall
  updates_address : ℕ → AddressParams → RecordCall
  deletes_address : ℕ → RecordCall
  sets_status : ℕ → String → RecordCall
  creates_prefix : PrefixParams → RecordCall
  updates_prefix : ℕ → PrefixParams → RecordCall
  deletes_prefix : ℕ → RecordCall
  configures_scan : ℕ → Bool → ℕ → RecordCall

abbrev pub record_call :
    RecordService → (RecordQuery → Bool) → RecordCall → RecordStore → RecordStore
record_call svc fails (creates_address p) s = (create_ip_address svc fails p s).1
record_call svc fails (updates_address id p) s = (update_ip_address svc fails id p s).1
record_call svc fails (deletes_address id) s = (delete_ip_address svc fails id s).1
record_call svc fails (sets_status id status) s = (set_ip_status svc fails id status s).1
record_call svc fails (creates_prefix p) s = (create_prefix svc fails p s).1
record_call svc fails (updates_prefix id p) s = (update_prefix svc fails id p s).1
record_call svc fails (deletes_prefix id) s = (delete_prefix svc fails id s).1
record_call svc fails (configures_scan id enabled interval) s =
    (update_scan_config svc fails id enabled interval s).1

-- The calls, each with the queries that fail in it.
abbrev pub record_calls :
    RecordService → List (RecordCall × (RecordQuery → Bool)) → RecordStore → RecordStore
record_calls svc [] s = s
record_calls svc ((c, fails) ∷ cs) s = record_calls svc cs (record_call svc fails c s)

record_call-RecordsSound :
    (svc : RecordService) (fails : RecordQuery → Bool) (c : RecordCall) (s : RecordStore)
    → RecordsSound svc s.prefixes s.addresses
    → RecordsSound svc (record_call svc fails c s).prefixes (record_call svc fails c s).addresses
record_call-RecordsSound svc fails (creates_address p) s h = create_ip_address-Holds svc fails s h p
record_call-RecordsSound svc fails (updates_address id p) s h =
    update_ip_address-Holds svc fails s h id p
record_call-RecordsSound svc fails (deletes_address id) s h =
    delete_ip_address-Holds svc fails s h id
record_call-RecordsSound svc fails (sets_status id status) s h =
    set_ip_status-Holds svc fails s h id status
record_call-RecordsSound svc fails (creates_prefix p) s h = create_prefix-Holds svc fails s h p
record_call-RecordsSound svc fails (updates_prefix id p) s h =
    update_prefix-Holds svc fails s h id p
record_call-RecordsSound svc fails (deletes_prefix id) s h = delete_prefix-Holds svc fails s h id
record_call-RecordsSound svc fails (configures_scan id enabled interval) s h =
    update_scan_config-Holds svc fails s h id enabled interval

-- After any sequence of calls of the two services, in which any query may fail, from tables in which it
-- holds: the text of every address parses and its prefix is in the table, the text of every prefix parses,
-- and the scan interval in its row is at least 60 seconds.
pub record_calls-RecordsSound :
    (svc : RecordService) (cs : List (RecordCall × (RecordQuery → Bool))) (s : RecordStore)
    → RecordsSound svc s.prefixes s.addresses
    → RecordsSound svc (record_calls svc cs s).prefixes (record_calls svc cs s).addresses
record_calls-RecordsSound svc [] s h = h
record_calls-RecordsSound svc ((c, fails) ∷ cs) s h =
    record_calls-RecordsSound svc cs (record_call svc fails c s)
      (record_call-RecordsSound svc fails c s h)
