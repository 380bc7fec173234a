-- ===== src/Discovery/Accept.antt =====
-- AcceptResult and IgnoreResult.
use blackgrid.Prelude.{
  ℕ, suc, String, Bool, true, ◌||◌, if◌then◌else◌, Option, none, some, [], ◌∷◌, any_of, find_if,
  update_by, Result, ok, err,
}
use text.Mathlib.Text.{◌==◌ as str_eq}
use blackgrid.Model.{discovery_result_accepted, discovery_result_ignored, string, uuid}
use blackgrid.Discovery.{
  DiscoveryResult, ignored, IpAddress, DiscoveryStore, DiscoveryService, ScanQuery, list_addresses,
  get_result, get_address, link_result, touch_address, create_address, ignore_result,
  DiscoveryError, link_failed, created_not_linked, no_rows, discovery_database, find_result,
  find_address, addresses_of, send, normalize_ip, touch,
}

pub record AcceptResultInput : Type 0 where
  pub hostname : String
  pub fqdn : String
  pub status : String

-- UpdateDiscoveryResultAccepted
abbrev pub link : ℕ → ℕ → ℕ → DiscoveryStore → DiscoveryStore
link now id address s = record s {
  results =
      update_by (λ (r : DiscoveryResult). r.id) id
        (λ (r : DiscoveryResult). record r {
          accepted_at = some now;
          created_ip_address_id = some address;
        })
        s.results;
}

abbrev pub touched : (ScanQuery → Bool) → ℕ → ℕ → DiscoveryStore → DiscoveryStore
touched fails now id s = if fails touch_address then s else touch now id s

abbrev pub text_or_col : String → Option String → String
text_or_col s none = s
text_or_col s (some t) = if str_eq s "" then t else s

-- The description: the FQDN, else the host name, else the names of the result.
abbrev pub description_of : AcceptResultInput → DiscoveryResult → String
description_of input r =
    let given = if str_eq input.fqdn "" then input.hostname else input.fqdn in
    text_or_col (text_or_col given r.reverse_dns) r.hostname

abbrev pub new_address : ℕ → String → AcceptResultInput → DiscoveryResult → IpAddress
new_address id addr input r = record {
  id = id;
  prefix_id = r.prefix_id;
  ip_address = addr;
  status = some (if str_eq input.status "" then "discovered" else input.status);
  description = if str_eq (description_of input r) "" then none else some (description_of input r);
  last_seen_at = none;
}

-- The address of a result that was found in the prefix. It is returned with the error, too.
unfoldable pub accept_existing :
    (ScanQuery → Bool)
    → ℕ
    → DiscoveryResult
    → IpAddress
    → DiscoveryStore
    → Result DiscoveryError IpAddress × DiscoveryStore
accept_existing fails now r a s =
    if fails link_result
    then (err (link_failed a), s)
    else (ok a, touched fails now a.id (link now r.id a.id s))

-- CreateIPAddress, with its unique address, and what follows it.
unfoldable pub accept_new :
    DiscoveryService
    → (ScanQuery → Bool)
    → ℕ
    → AcceptResultInput
    → DiscoveryResult
    → DiscoveryStore
    → Result DiscoveryError IpAddress × DiscoveryStore
accept_new d fails now input r s =
    let addr = d.text.print r.address in
    let a = new_address s.next_id addr input r in
    let inserted = record s { addresses = a ∷ s.addresses; next_id = suc s.next_id } in
    if fails create_address || any_of (λ (b : IpAddress). str_eq b.ip_address addr) s.addresses
    then (err (discovery_database create_address), s)
    else if fails link_result
    then (err (created_not_linked a), touched fails now a.id inserted)
    else (
      ok a,
      send d
          (record {
            event_type = discovery_result_accepted;
            object_type = "discovery_result";
            object_id = r.id;
            payload = ("ip_address_id", uuid a.id) ∷ ("address", string a.ip_address) ∷ [];
          })
          (link now r.id a.id (touched fails now a.id inserted)),
    )

unfoldable pub accept_result :
    DiscoveryService
    → (ScanQuery → Bool)
    → ℕ
    → ℕ
    → AcceptResultInput
    → DiscoveryStore
    → Result DiscoveryError IpAddress × DiscoveryStore
unfolding accept_existing accept_new
accept_result d fails now id input s =
    if fails get_result
    then (err (discovery_database get_result), s)
    else (elim (find_result id s) [
      | none ↦ (err no_rows, s)
      | some r ↦ elim r.created_ip_address_id [
        | some k ↦
            if fails get_address
            then (err (discovery_database get_address), s)
            else (elim (find_address k s) [ none ↦ (err no_rows, s) | some a ↦ (ok a, s) ])
        | none ↦
            if fails list_addresses
            then accept_new d fails now input r s
            else (elim (find_if
                (λ (a : IpAddress).
                  str_eq (normalize_ip d.text a.ip_address) (d.text.print r.address))
                (addresses_of r.prefix_id s)) [
                  | some a ↦ accept_existing fails now r a s
                  | none ↦ accept_new d fails now input r s
                ])
      ]
    ])

unfoldable pub ignore_discovery_result :
    DiscoveryService
    → (ScanQuery → Bool)
    → ℕ
    → DiscoveryStore
    → Result DiscoveryError DiscoveryResult × DiscoveryStore
ignore_discovery_result d fails id s =
    if fails ignore_result
    then (err (discovery_database ignore_result), s)
    else (elim (find_result id s) [
      | none ↦ (err no_rows, s)
      | some r ↦ (
        ok (record r { is_ignored = true; classification = ignored }),
        send d
            (record {
              event_type = discovery_result_ignored;
              object_type = "discovery_result";
              object_id = id;
              payload = [];
            })
            (record s {
              results =
                  update_by (λ (q : DiscoveryResult). q.id) id
                    (λ (q : DiscoveryResult). record q {
                      is_ignored = true;
                      classification = ignored;
                    })
                    s.results;
            }),
      )
    ])
