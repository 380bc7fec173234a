-- ===== src/Records/Handed.antt =====
-- The addresses that NextAvailableIP hands out, and what the other operations do to them.
use blackgrid.Prelude.{
  ℕ, String, Bool, true, false, ◌≡◌, ◌≢◌, refl, sym, ap, ◌∙◌, subst, some, List, [], ◌∷◌, Result,
  ok, err, ◌==◌, ◌≤◌, ◌<◌, ==_refl, Bool-cases, Option-cases, inl, inr, arith, update_by, find_by,
  any_of, not, ◌&&◌,
}
use text.Mathlib.Text.{◌==◌ as str_eq}
use text.Mathlib.TextEquality.{eq_iff}
use blackgrid.Ipam.Addr.{Addr, ip, Family, Prefix, IsPrefix, masked, addr_eq}
use blackgrid.Ipam.Hosts.{IpamError, existing_set, member, get_next_available_ip}
use blackgrid.Ipam.Hosts.NextFree.{NextFree, handed_out, all_taken, get_next_available_ip-NextFree}
use blackgrid.Ipam.Hosts.Window.{host_start, host_end}
use blackgrid.Records.{
  prefix_id_of, create_address_row, PrefixRecord, AddressRecord, RecordStore, RecordQuery,
  RecordService, find_record, address_id_of, get_prefix_row, list_prefix_addresses,
}
use blackgrid.Records.Addresses.{AddressParams, address_row, create_ip_address, set_ip_status}
use blackgrid.Records.Prefixes.{texts_of, next_result, next_available_ip}

module _ (svc : RecordService) where
  -- NextAvailableIP reads the prefix and the texts of its addresses only.
  next_available_ip_found :
      (fails : RecordQuery → Bool) (id : ℕ) (s : RecordStore) (r : PrefixRecord) (t : String)
      → find_record id s ≡ some r
      → next_available_ip svc fails id s ≡ ok t
      → get_next_available_ip svc.text r.prefix (texts_of id s.addresses) ≡ ok t
  unfolding next_available_ip
  next_available_ip_found fails id s r t found h = elim (Bool-cases (fails get_prefix_row)) [
    | inl down ↦ ground (arith, h, down)
    | inr up ↦ elim (Bool-cases (fails list_prefix_addresses)) [
      | inl down ↦ ground (arith, h, up, found, down)
      | inr listed ↦
          from (get_next_available_ip svc.text r.prefix (texts_of id s.addresses))
            (sym (reads up listed) ∙ h)
    ]
  ]
    where
      from : (x : Result IpamError String) → next_result x ≡ ok t → x ≡ ok t
      from (ok u) e = ground (arith, e)
      from (err u) e = cc

      reads :
          fails get_prefix_row ≡ false
          → fails list_prefix_addresses ≡ false
          → next_available_ip svc fails id s
            ≡ next_result (get_next_available_ip svc.text r.prefix (texts_of id s.addresses))
      reads up listed = ground (arith, up, listed, found)

  addr_eq_refl : (f : Family) (m : ℕ) → addr_eq (ip f m) (ip f m) ≡ true
  addr_eq_refl f m = ground arith

  -- An address whose text is listed is a member.
  not_handed_out :
      (p : Prefix) (texts : List String) (t : String) (a : Addr) (out : Result IpamError String)
      → ((m : ℕ)
          → host_start p ≤ m
          → m < host_end p
          → svc.text.parse_addr (svc.text.print (ip p.family m)) ≡ some (ip p.family m))
      → svc.text.parse_addr t ≡ some a
      → NextFree svc.text p (existing_set svc.text (t ∷ texts)) out
      → out ≢ ok t
  not_handed_out p texts t a out rereads read (handed_out m lo hi open_at taken e) again =
      let printed : svc.text.print (ip p.family m) ≡ t = ground (arith, e, again) in
      let same : svc.text.parse_addr t ≡ some (ip p.family m) =
        ap svc.text.parse_addr (sym printed) ∙ rereads m lo hi in
      ground (arith, open_at, same, addr_eq_refl p.family m)
  not_handed_out p texts t a out rereads read (all_taken taken e) again = ground (arith, e, again)

  created_texts :
      (fails : RecordQuery → Bool) (p : AddressParams) (s s' : RecordStore) (row : AddressRecord)
      → create_ip_address svc fails p s ≡ (ok row, s')
      → (texts_of p.prefix_id s'.addresses ≡ p.ip_address ∷ texts_of p.prefix_id s.addresses)
        × (s'.prefixes ≡ s.prefixes)
        × ((a : Addr) × (svc.text.parse_addr p.ip_address ≡ some a))
  unfolding create_ip_address
  created_texts fails p s s' row h = elim (Option-cases (svc.text.parse_addr p.ip_address)) [
    | inl bad ↦ ground (arith, h, bad)
    | inr (a, read) ↦
        let to : s' ≡ (create_ip_address svc fails p s).1 = sym (ap (λ r. r.1) h) in
        (ground (arith, h, read, ==_refl p.prefix_id), ground (arith, h, read), (a, read))
  ]

  recorded_again :
      (fails : RecordQuery → Bool) (p : AddressParams) (s s' : RecordStore) (r : PrefixRecord)
      (px : Prefix) (a : Addr)
      → find_record p.prefix_id s ≡ some r
      → svc.text.parse_prefix r.prefix ≡ some px
      → IsPrefix px
      → ((m : ℕ)
          → host_start (masked px) ≤ m
          → m < host_end (masked px)
          → svc.text.parse_addr (svc.text.print (ip px.family m)) ≡ some (ip px.family m))
      → texts_of p.prefix_id s'.addresses ≡ p.ip_address ∷ texts_of p.prefix_id s.addresses
      → s'.prefixes ≡ s.prefixes
      → svc.text.parse_addr p.ip_address ≡ some a
      → next_available_ip svc fails p.prefix_id s' ≢ ok p.ip_address
  recorded_again fails p s s' r px a found parsed v rereads texts kept read again =
      let there : find_record p.prefix_id s' ≡ some r =
        ap (λ ps. find_by prefix_id_of p.prefix_id ps) kept ∙ found in
      let free : NextFree svc.text (masked px)
          (existing_set svc.text (p.ip_address ∷ texts_of p.prefix_id s.addresses))
          (get_next_available_ip svc.text r.prefix (texts_of p.prefix_id s'.addresses)) =
        subst
          (λ ts.
            NextFree svc.text (masked px) (existing_set svc.text ts)
              (get_next_available_ip svc.text r.prefix (texts_of p.prefix_id s'.addresses)))
          texts
          (get_next_available_ip-NextFree svc.text r.prefix (texts_of p.prefix_id s'.addresses) px
            parsed v) in
      not_handed_out (masked px) (texts_of p.prefix_id s.addresses) p.ip_address a
        (get_next_available_ip svc.text r.prefix (texts_of p.prefix_id s'.addresses)) rereads read
        free (next_available_ip_found fails p.prefix_id s' r p.ip_address there again)

  -- A row of another prefix has this text.
  abbrev pub held_elsewhere : ℕ → String → List AddressRecord → Bool
  held_elsewhere id t rows =
      any_of (λ (a : AddressRecord). not (a.prefix_id == id) && str_eq a.ip_address t) rows

  existing_set_later :
      (f : Family) (m : ℕ) (t : String) (ts : List String)
      → member (ip f m) (existing_set svc.text ts) ≡ true
      → member (ip f m) (existing_set svc.text (t ∷ ts)) ≡ true
  existing_set_later f m t ts h = elim (Option-cases (svc.text.parse_addr t)) [
    | inl bad ↦ ground (arith, bad, h)
    | inr (a, read) ↦ ground (arith, read, h)
  ]

  held_here :
      (id m : ℕ) (f : Family) (t : String) (rows : List AddressRecord)
      → svc.text.parse_addr t ≡ some (ip f m)
      → any_of (λ (a : AddressRecord). str_eq a.ip_address t) rows ≡ true
      → held_elsewhere id t rows ≡ false
      → member (ip f m) (existing_set svc.text (texts_of id rows)) ≡ true
  held_here id m f t [] read used free = cc
  held_here id m f t (x ∷ xs) read used free = elim (Bool-cases (str_eq x.ip_address t)) [
    | inl same ↦
        let here : (x.prefix_id == id) ≡ true = ground (arith, free, same) in
        let read' : svc.text.parse_addr x.ip_address ≡ some (ip f m) =
          ap svc.text.parse_addr (ground (arith, eq_iff x.ip_address t, same)) ∙ read in
        ground (arith, here, read', addr_eq_refl f m)
    | inr apart ↦
        let rest =
          held_here id m f t xs read (ground (arith, used, apart)) (ground (arith, free, apart)) in
        elim (Bool-cases (x.prefix_id == id)) [
          | inl here ↦
              ground (arith, here, existing_set_later f m x.ip_address (texts_of id xs) rest)
          | inr away ↦ ground (arith, away, rest)
        ]
  ]

  -- What NextAvailableIP hands out is not in use, unless under another prefix.
  offered_free :
      (id : ℕ) (p : Prefix) (t : String) (rows : List AddressRecord) (out : Result IpamError String)
      → ((m : ℕ)
          → host_start p ≤ m
          → m < host_end p
          → svc.text.parse_addr (svc.text.print (ip p.family m)) ≡ some (ip p.family m))
      → NextFree svc.text p (existing_set svc.text (texts_of id rows)) out
      → out ≡ ok t
      → held_elsewhere id t rows ≡ false
      → (any_of (λ (a : AddressRecord). str_eq a.ip_address t) rows ≡ false)
        × ((a : Addr) × (svc.text.parse_addr t ≡ some a))
  offered_free id p t rows out rereads (all_taken taken e) offered free = ground (arith, e, offered)
  offered_free id p t rows out rereads (handed_out m lo hi open_at taken e) offered free =
      let printed : svc.text.print (ip p.family m) ≡ t = ground (arith, e, offered) in
      let read : svc.text.parse_addr t ≡ some (ip p.family m) =
        ap svc.text.parse_addr (sym printed) ∙ rereads m lo hi in
      (
        elim (Bool-cases (any_of (λ (a : AddressRecord). str_eq a.ip_address t) rows)) [
          | inr unused ↦ unused
          | inl used ↦ ground (arith, open_at, held_here id m p.family t rows read used free)
        ],
        (ip p.family m, read),
      )

  -- CreateIPAddress records an address that NextAvailableIP hands out for a prefix, if no row of another
  -- prefix has it, and it is not handed out again by the next call. The queries of the creation work, the
  -- text of the prefix parses, and a host address of the prefix is read back from its text.
  pub next_available_ip-create_ip_address :
      (fails fails2 fails3 : RecordQuery → Bool) (p : AddressParams) (s : RecordStore)
      (r : PrefixRecord) (px : Prefix)
      → find_record p.prefix_id s ≡ some r
      → svc.text.parse_prefix r.prefix ≡ some px
      → IsPrefix px
      → ((m : ℕ)
          → host_start (masked px) ≤ m
          → m < host_end (masked px)
          → svc.text.parse_addr (svc.text.print (ip px.family m)) ≡ some (ip px.family m))
      → next_available_ip svc fails p.prefix_id s ≡ ok p.ip_address
      → held_elsewhere p.prefix_id p.ip_address s.addresses ≡ false
      → fails2 create_address_row ≡ false
      → ((create_ip_address svc fails2 p s).0 ≡ ok (address_row s.next_id p))
        × (next_available_ip svc fails3 p.prefix_id (create_ip_address svc fails2 p s).1
            ≢ ok p.ip_address)
  next_available_ip-create_ip_address fails fails2 fails3 p s r px found parsed v rereads offered
        elsewhere works =
      let answer = next_available_ip_found fails p.prefix_id s r p.ip_address found offered in
      let (unused, (a, read)) =
        offered_free p.prefix_id (masked px) p.ip_address s.addresses
          (get_next_available_ip svc.text r.prefix (texts_of p.prefix_id s.addresses)) rereads
          (get_next_available_ip-NextFree svc.text r.prefix (texts_of p.prefix_id s.addresses) px
            parsed v)
          answer elsewhere in
      let made : (create_ip_address svc fails2 p s).0 ≡ ok (address_row s.next_id p) =
        unfold create_ip_address in ground (arith, read, unused, works, found) in
      let (texts, kept, _) =
        created_texts fails2 p s (create_ip_address svc fails2 p s).1 (address_row s.next_id p)
          (ap (λ x. (x, (create_ip_address svc fails2 p s).1)) made) in
      (
        made,
        λ again.
            recorded_again fails3 p s (create_ip_address svc fails2 p s).1 r px a found parsed v
              rereads texts kept read again,
      )

  set_texts :
      (k id : ℕ) (status : String) (rows : List AddressRecord)
      → texts_of k (
          update_by address_id_of id
            (λ (x : AddressRecord). record x { status = some status })
            rows)
        ≡ texts_of k rows
  set_texts k id status [] = refl
  set_texts k id status (x ∷ xs) = ground (arith, set_texts k id status xs)

  -- Reserving, assigning or releasing an address leaves what NextAvailableIP answers as it was, for every
  -- prefix: an address that is released is not handed out again while its row is there.
  set_ip_status-next_available_ip :
      (fails fails2 : RecordQuery → Bool) (id k : ℕ) (status : String) (s : RecordStore)
      → next_available_ip svc fails2 k (set_ip_status svc fails id status s).1
        ≡ next_available_ip svc fails2 k s
  unfolding next_available_ip set_ip_status
  set_ip_status-next_available_ip fails fails2 id k status s =
      ground (arith, set_texts k id status s.addresses)
