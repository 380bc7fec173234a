-- ===== src/Records/Sound.antt =====
-- What each call of PrefixService and IPAddressService keeps of the tables.
use blackgrid.Prelude.{
  ℕ, String, Bool, true, false, ◌≡◌, refl, ◌≤◌, ◌==◌, some, List, [], ◌∷◌, All, is_some, find_by,
  update_by, remove_by, Bool-cases, Option-cases, inl, inr, arith,
}
use blackgrid.Records.{
  PrefixRecord, AddressRecord, RecordStore, RecordQuery, RecordService, address_id_of, prefix_id_of,
  prefix_exists,
}
use blackgrid.Records.Addresses.{
  AddressParams, address_row, create_ip_address, update_ip_address, delete_ip_address,
  set_ip_status,
}
use blackgrid.Records.Prefixes.{
  PrefixParams, prefix_row, updated_prefix, create_prefix, update_prefix, delete_prefix,
  is_valid_interval, update_scan_config,
}

-- The text of a row is an address, and its prefix is in the table.
abbrev pub AddressSound : RecordService → List PrefixRecord → AddressRecord → Type 0
AddressSound svc ps a =
    (is_some (svc.text.parse_addr a.ip_address) ≡ true)
    × (is_some (find_by prefix_id_of a.prefix_id ps) ≡ true)

abbrev pub PrefixSound : RecordService → PrefixRecord → Type 0
PrefixSound svc p =
    (is_some (svc.text.parse_prefix p.prefix) ≡ true) × (60 ≤ p.scan_interval_seconds)

abbrev pub RecordsSound : RecordService → List PrefixRecord → List AddressRecord → Type 0
RecordsSound svc ps rows = All (PrefixSound svc) ps × All (AddressSound svc ps) rows

-- A prefix with this id is in the table after a change that keeps the ids.
kept_by_update :
    (k id : ℕ) (f : PrefixRecord → PrefixRecord) (ps : List PrefixRecord)
    → ((p : PrefixRecord) → prefix_id_of (f p) ≡ prefix_id_of p)
    → is_some (find_by prefix_id_of k (update_by prefix_id_of id f ps))
      ≡ is_some (find_by prefix_id_of k ps)
kept_by_update k id f [] same = refl
kept_by_update k id f (p ∷ ps) same = ground (arith, same p, kept_by_update k id f ps same)

kept_by_remove :
    (k id : ℕ) (ps : List PrefixRecord)
    → (k == id) ≡ false
    → is_some (find_by prefix_id_of k (remove_by prefix_id_of id ps))
      ≡ is_some (find_by prefix_id_of k ps)
kept_by_remove k id [] h = refl
kept_by_remove k id (p ∷ ps) h = ground (arith, h, kept_by_remove k id ps h)

module _ (svc : RecordService) where
  rows_updated :
      (id : ℕ) (f : PrefixRecord → PrefixRecord) (ps : List PrefixRecord)
      (rows : List AddressRecord)
      → ((p : PrefixRecord) → prefix_id_of (f p) ≡ prefix_id_of p)
      → All (AddressSound svc ps) rows
      → All (AddressSound svc (update_by prefix_id_of id f ps)) rows
  rows_updated id f ps [] same h = tt
  rows_updated id f ps (a ∷ rows) same h =
      ground
        (arith, h.0, kept_by_update a.prefix_id id f ps same, rows_updated id f ps rows same h.1)

  rows_unlinked :
      (id : ℕ) (ps : List PrefixRecord) (rows : List AddressRecord)
      → All (AddressSound svc ps) rows
      → All
          (AddressSound svc (remove_by prefix_id_of id ps))
          (remove_by (λ (a : AddressRecord). a.prefix_id) id rows)
  rows_unlinked id ps [] h = tt
  rows_unlinked id ps (a ∷ rows) h =
      ground (arith, h.0, kept_by_remove a.prefix_id id ps, rows_unlinked id ps rows h.1)

  rows_inserted :
      (p : PrefixRecord) (ps : List PrefixRecord) (rows : List AddressRecord)
      → All (AddressSound svc ps) rows
      → All (AddressSound svc (p ∷ ps)) rows
  rows_inserted p ps [] h = tt
  rows_inserted p ps (a ∷ rows) h = ground (arith, h.0, rows_inserted p ps rows h.1)

  written_rows :
      (id : ℕ) (f : AddressRecord → AddressRecord) (ps : List PrefixRecord)
      (rows : List AddressRecord)
      → ((a : AddressRecord) → AddressSound svc ps a → AddressSound svc ps (f a))
      → All (AddressSound svc ps) rows
      → All (AddressSound svc ps) (update_by address_id_of id f rows)
  written_rows id f ps [] keeps h = tt
  written_rows id f ps (a ∷ rows) keeps h =
      ground (arith, h.0, keeps a h.0, written_rows id f ps rows keeps h.1)

  removed_rows :
      (id : ℕ) (ps : List PrefixRecord) (rows : List AddressRecord)
      → All (AddressSound svc ps) rows
      → All (AddressSound svc ps) (remove_by address_id_of id rows)
  removed_rows id ps [] h = tt
  removed_rows id ps (a ∷ rows) h = ground (arith, h.0, removed_rows id ps rows h.1)

  written_prefixes :
      (id : ℕ) (f : PrefixRecord → PrefixRecord) (ps : List PrefixRecord)
      → ((p : PrefixRecord) → PrefixSound svc p → PrefixSound svc (f p))
      → All (PrefixSound svc) ps
      → All (PrefixSound svc) (update_by prefix_id_of id f ps)
  written_prefixes id f [] keeps h = tt
  written_prefixes id f (p ∷ ps) keeps h =
      ground (arith, h.0, keeps p h.0, written_prefixes id f ps keeps h.1)

  removed_prefixes :
      (id : ℕ) (ps : List PrefixRecord)
      → All (PrefixSound svc) ps
      → All (PrefixSound svc) (remove_by prefix_id_of id ps)
  removed_prefixes id [] h = tt
  removed_prefixes id (p ∷ ps) h = ground (arith, h.0, removed_prefixes id ps h.1)

  abbrev Holds : RecordStore → Type 0
  Holds s = RecordsSound svc s.prefixes s.addresses

  module _ (fails : RecordQuery → Bool) (s : RecordStore) (h : Holds s) where
    pub create_ip_address-Holds : (p : AddressParams) → Holds (create_ip_address svc fails p s).1
    unfolding create_ip_address
    create_ip_address-Holds p = elim (Option-cases (svc.text.parse_addr p.ip_address)) [
      | inl bad ↦ ground (arith, bad, h)
      | inr (a, read) ↦ elim (Bool-cases (prefix_exists p.prefix_id s)) [
        | inl there ↦ ground (arith, read, there, h.0, h.1)
        | inr gone ↦ ground (arith, read, gone, h)
      ]
    ]

    pub update_ip_address-Holds :
        (id : ℕ) (p : AddressParams) → Holds (update_ip_address svc fails id p s).1
    unfolding update_ip_address
    update_ip_address-Holds id p = elim (Option-cases (svc.text.parse_addr p.ip_address)) [
      | inl bad ↦ ground (arith, bad, h)
      | inr (a, read) ↦ elim (Bool-cases (prefix_exists p.prefix_id s)) [
        | inl there ↦
            let written =
              written_rows id (λ old. address_row id p) s.prefixes s.addresses
                (λ old sound. (ground (arith, read), there)) h.1 in
            ground (arith, read, there, h.0, h.1, written)
        | inr gone ↦ ground (arith, read, gone, h)
      ]
    ]

    pub delete_ip_address-Holds : (id : ℕ) → Holds (delete_ip_address svc fails id s).1
    unfolding delete_ip_address
    delete_ip_address-Holds id =
        ground (arith, h.0, h.1, removed_rows id s.prefixes s.addresses h.1)

    pub set_ip_status-Holds :
        (id : ℕ) (status : String) → Holds (set_ip_status svc fails id status s).1
    unfolding set_ip_status
    set_ip_status-Holds id status =
        let written =
          written_rows id (λ (x : AddressRecord). record x { status = some status }) s.prefixes
            s.addresses (λ x sound. sound) h.1 in
        ground (arith, h.0, h.1, written)

    pub create_prefix-Holds : (p : PrefixParams) → Holds (create_prefix svc fails p s).1
    unfolding create_prefix
    create_prefix-Holds p = elim (Option-cases (svc.text.parse_prefix p.prefix)) [
      | inl bad ↦ ground (arith, bad, h)
      | inr (px, read) ↦
          ground (
            arith,
            read,
            h.0,
            h.1,
            rows_inserted (prefix_row s.next_id p) s.prefixes s.addresses h.1,
          )
    ]

    pub update_prefix-Holds : (id : ℕ) (p : PrefixParams) → Holds (update_prefix svc fails id p s).1
    unfolding update_prefix
    update_prefix-Holds id p = elim (Option-cases (svc.text.parse_prefix p.prefix)) [
      | inl bad ↦ ground (arith, bad, h)
      | inr (px, read) ↦
          let written =
            written_prefixes id (updated_prefix p) s.prefixes
              (λ r sound. (ground (arith, read), sound.1)) h.0 in
          let linked = rows_updated id (updated_prefix p) s.prefixes s.addresses (λ r. refl) h.1 in
          ground (arith, read, h.0, h.1, written, linked)
    ]

    pub delete_prefix-Holds : (id : ℕ) → Holds (delete_prefix svc fails id s).1
    unfolding delete_prefix
    delete_prefix-Holds id = ground (
      arith,
      h.0,
      h.1,
      removed_prefixes id s.prefixes h.0,
      rows_unlinked id s.prefixes s.addresses h.1,
    )

    pub update_scan_config-Holds :
        (id : ℕ) (enabled : Bool) (interval : ℕ)
        → Holds (update_scan_config svc fails id enabled interval s).1
    unfolding update_scan_config
    update_scan_config-Holds id enabled interval =
        let change : PrefixRecord → PrefixRecord =
          λ x. record x { scan_enabled = enabled; scan_interval_seconds = interval } in
        elim (Bool-cases (is_valid_interval interval)) [
          | inr low ↦ ground (arith, low, h)
          | inl valid ↦
              let written =
                written_prefixes id change s.prefixes (λ r sound. (sound.0, ground (arith, valid)))
                  h.0 in
              let linked = rows_updated id change s.prefixes s.addresses (λ r. refl) h.1 in
              ground (arith, valid, h.0, h.1, written, linked)
        ]
