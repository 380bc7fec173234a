-- ===== src/Discovery/Accepted.antt =====
-- A result that is accepted twice.
use blackgrid.Prelude.{
  ℕ, suc, Bool, true, false, ◌==◌, Option, none, some, is_some, List, [], ◌∷◌, ◌≡◌, refl, sym, ap,
  ◌∙◌, subst, arith, Option-cases, Bool-cases, inl, inr, find_if, keep_if, any_of, find_by,
  find_by-key, find_by-update_by, if-false, update_by, ok, ◌||◌,
}
use text.Mathlib.Text.{◌==◌ as str_eq}
use blackgrid.Discovery.{
  create_address, DiscoveryResult, IpAddress, DiscoveryStore, DiscoveryService, ScanQuery,
  list_addresses, link_result, find_result, find_address, addresses_of, normalize_ip, touch,
  touch_address,
}
use blackgrid.Discovery.Accept.{
  AcceptResultInput, link, touched, new_address, accept_existing, accept_new, accept_result,
}

abbrev pub no_query_fails : ScanQuery → Bool
no_query_fails q = false

-- An accepted result, and the address that it is linked to.
abbrev pub LinkedTo : ℕ → ℕ → DiscoveryStore → Type 0
LinkedTo id k t =
    ((r : DiscoveryResult) × (find_result id t ≡ some r) × (r.created_ip_address_id ≡ some k))
    × ((a : IpAddress) × (find_address k t ≡ some a))

linked_again :
    (d : DiscoveryService) (later id k : ℕ) (input : AcceptResultInput) (t : DiscoveryStore)
    → LinkedTo id k t
    → (again : IpAddress) × (accept_result d no_query_fails later id input t ≡ (ok again, t))
      × (again.id ≡ k)
unfolding accept_result
linked_again d later id k input t ((r, found, links), (a, stored)) = (
  a,
  ground (arith, found, links, stored),
  find_by-key (λ (x : IpAddress). x.id) k t.addresses a stored,
)

is_listed :
    (p : IpAddress → Bool) (prefix : ℕ) (xs : List IpAddress) (a : IpAddress)
    → find_if p (keep_if (λ (x : IpAddress). x.prefix_id == prefix) xs) ≡ some a
    → is_some (find_by (λ (x : IpAddress). x.id) a.id xs) ≡ true
is_listed p prefix [] a h = cc
is_listed p prefix (x ∷ xs) a h = ground (arith, is_listed p prefix xs a)

touch-kept :
    (now j k : ℕ) (xs : List IpAddress)
    → is_some (
        find_by
          (λ (x : IpAddress). x.id)
          k
          (update_by
            (λ (x : IpAddress). x.id)
            j
            (λ (x : IpAddress). record x { last_seen_at = some now })
            xs))
      ≡ is_some (find_by (λ (x : IpAddress). x.id) k xs)
touch-kept now j k [] = refl
touch-kept now j k (x ∷ xs) = ground (arith, touch-kept now j k xs)

touched-kept :
    (fails : ScanQuery → Bool) (now j k : ℕ) (s : DiscoveryStore)
    → is_some (find_address k (touched fails now j s)) ≡ is_some (find_address k s)
touched-kept fails now j k s = elim (Bool-cases (fails touch_address)) [
  | inl e ↦ ground (arith, e)
  | inr e ↦
      ap (λ (t : DiscoveryStore). is_some (find_address k t)) (if-false s (touch now j s) e)
      ∙ touch-kept now j k s.addresses
]

some_of : (o : Option IpAddress) → is_some o ≡ true → (a : IpAddress) × (o ≡ some a)
some_of none h = cc
some_of (some a) h = (a, refl)

touched-results :
    (fails : ScanQuery → Bool) (now j : ℕ) (s : DiscoveryStore)
    → (touched fails now j s).results ≡ s.results
touched-results fails now j s = ground arith

-- A result that is linked, and an address that stays when addresses are touched.
link-LinkedTo :
    (now id k : ℕ) (r : DiscoveryResult) (s t : DiscoveryStore)
    → find_result id s ≡ some r
    → t.results ≡ (link now r.id k s).results
    → is_some (find_address k t) ≡ true
    → LinkedTo id k t
link-LinkedTo now id k r s t found same stored =
    let at : r.id ≡ id = find_by-key (λ (x : DiscoveryResult). x.id) id s.results r found in
    let g = λ (x : DiscoveryResult). record x {
      accepted_at = some now;
      created_ip_address_id = some k;
    } in
    (
      (
        g r,
        ap (find_by (λ (x : DiscoveryResult). x.id) id)
              (same ∙ ap (λ j. update_by (λ (x : DiscoveryResult). x.id) j g s.results) at)
            ∙ find_by-update_by (λ (x : DiscoveryResult). x.id) id g s.results r (λ x. refl) found,
        refl,
      ),
      some_of (find_address k t) stored,
    )

module _ (fails : ScanQuery → Bool) (now id : ℕ) (r : DiscoveryResult) (s t : DiscoveryStore)
    (a : IpAddress) (found : find_result id s ≡ some r) where
  existing-LinkedTo :
      (b : IpAddress)
      → is_some (find_address b.id s) ≡ true
      → accept_existing fails now r b s ≡ (ok a, t)
      → LinkedTo id a.id t
  unfolding accept_existing
  existing-LinkedTo b stored e = elim (Bool-cases (fails link_result)) [
    | inl broken ↦ ground (arith, broken, e)
    | inr works ↦
        let after = touched fails now b.id (link now r.id b.id s) in
        let is_a : a ≡ b = ground (arith, works, e) in
        let is_t : t ≡ after = ground (arith, works, e) in
        subst (λ x. LinkedTo id x.id t) (sym is_a)
          (link-LinkedTo now id b.id r s t found
            (ap (λ (x : DiscoveryStore). x.results) is_t
              ∙ touched-results fails now b.id (link now r.id b.id s))
            (ap (λ (x : DiscoveryStore). is_some (find_address b.id x)) is_t
              ∙ touched-kept fails now b.id b.id (link now r.id b.id s)
              ∙ stored))
  ]

  new-LinkedTo :
      (d : DiscoveryService) (input : AcceptResultInput)
      → accept_new d fails now input r s ≡ (ok a, t)
      → LinkedTo id a.id t
  unfolding accept_new
  new-LinkedTo d input e =
      let addr = d.text.print r.address in
      let b = new_address s.next_id addr input r in
      let inserted : DiscoveryStore = record s {
        addresses = b ∷ s.addresses;
        next_id = suc s.next_id;
      } in
      let kept = touched fails now b.id inserted in
      let refused =
        fails create_address || any_of (λ (x : IpAddress). str_eq x.ip_address addr) s.addresses in
      elim (Bool-cases refused) [
        | inl no_row ↦ ground (arith, no_row, e)
        | inr row ↦ elim (Bool-cases (fails link_result)) [
          | inl broken ↦ ground (arith, row, broken, e)
          | inr works ↦
              let is_a : a ≡ b = ground (arith, row, works, e) in
              let rows : t.results ≡ (link now r.id b.id kept).results =
                ground (arith, row, works, e) in
              let listed : t.addresses ≡ kept.addresses = ground (arith, row, works, e) in
              subst (λ (x : IpAddress). LinkedTo id x.id t) (sym is_a)
                (link-LinkedTo now id b.id r s t found
                  (rows
                    ∙ ap
                        (λ rs.
                          update_by (λ (x : DiscoveryResult). x.id) r.id
                            (λ (x : DiscoveryResult). record x {
                              accepted_at = some now;
                              created_ip_address_id = some b.id;
                            })
                            rs)
                        (touched-results fails now b.id inserted))
                  (ap (λ xs. is_some (find_by (λ (x : IpAddress). x.id) b.id xs)) listed
                    ∙ touched-kept fails now b.id b.id inserted
                    ∙ ground arith))
        ]
      ]

linked :
    (d : DiscoveryService) (fails : ScanQuery → Bool) (now id : ℕ) (input : AcceptResultInput)
    (s t : DiscoveryStore) (a : IpAddress)
    → accept_result d fails now id input s ≡ (ok a, t)
    → LinkedTo id a.id t
unfolding accept_result
linked d fails now id input s t a e = elim (Option-cases (find_result id s)) [
  | inl gone ↦ ground (arith, gone, e)
  | inr (r, found) ↦ elim (Option-cases r.created_ip_address_id) [
    | inr (k, links) ↦ elim (Option-cases (find_address k s)) [
      | inl missing ↦ ground (arith, found, links, missing, e)
      | inr (b, stored) ↦
          let is_a : a ≡ b = ground (arith, found, links, stored, e) in
          let is_t : t ≡ s = ground (arith, found, links, stored, e) in
          let at : b.id ≡ k = find_by-key (λ (x : IpAddress). x.id) k s.addresses b stored in
          subst (λ x. LinkedTo id a.id x) (sym is_t)
            (subst (λ (x : IpAddress). LinkedTo id x.id s) (sym is_a)
              (subst (λ j. LinkedTo id j s) (sym at) ((r, found, links), (b, stored))))
    ]
    | inl fresh ↦
        let has_address =
          λ (x : IpAddress). str_eq (normalize_ip d.text x.ip_address) (d.text.print r.address) in
        elim (Option-cases (find_if has_address (addresses_of r.prefix_id s))) [
          | inl none_there ↦
              new-LinkedTo fails now id r s t a found d input
                (ground (arith, found, fresh, none_there, e))
          | inr (b, there) ↦ elim (Bool-cases (fails list_addresses)) [
            | inl broken ↦
                new-LinkedTo fails now id r s t a found d input
                  (ground (arith, found, fresh, broken, e))
            | inr works ↦
                existing-LinkedTo fails now id r s t a found b
                  (is_listed has_address r.prefix_id s.addresses b there)
                  (ground (arith, found, fresh, works, there, e))
          ]
        ]
  ]
]

-- Accepting a result a second time, with no failing query, yields the address of the first time, by
-- its id, and changes nothing: no second address is created, whichever queries of the first call
-- failed without failing the call, and whatever the second request says.
pub accept_result-twice :
    (d : DiscoveryService) (fails : ScanQuery → Bool) (now later id : ℕ)
    (input input' : AcceptResultInput) (s t : DiscoveryStore) (a : IpAddress)
    → accept_result d fails now id input s ≡ (ok a, t)
    → (again : IpAddress) × (accept_result d no_query_fails later id input' t ≡ (ok again, t))
      × (again.id ≡ a.id)
accept_result-twice d fails now later id input input' s t a e =
    linked_again d later id a.id input' t (linked d fails now id input s t a e)
