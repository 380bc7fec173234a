-- ===== src/Notifications/Reached.antt =====
-- Which channels a notification reaches.
use blackgrid.Prelude.{
  ℕ, String, Bool, true, false, ◌≡◌, ◌≢◌, refl, sym, ap, ◌∙◌, some, none, Option, ◌≤◌, ◌==◌, suc,
  List, [], ◌∷◌, find_by, find_if, count_if, keep_if, KeysBelow, KeysBelow-raise, Bool-cases, inl,
  inr, if◌then◌else◌, arith, subst, ◌⊎◌, ok, ◌++◌,
}
use blackgrid.Model.{Notice, send_incident_opened, Monitor, Severity, Incident}
use blackgrid.Incident.Store.{Store}
use blackgrid.Incident.Output.{Service, Query}
use blackgrid.Incident.Service.{open_for_monitor, create_for_monitor}
use blackgrid.Secrets.{Fields}
use blackgrid.Notifications.{
  NotificationChannel, NotificationDelivery, NotificationStore, NotificationQuery,
  create_delivery_row, list_enabled_channels, channel_id_of, find_channel, enabled_channels,
}
use blackgrid.Notifications.Payload.{
  NotificationEvent, event_word, incident_opened, build_incident_payload,
}
use blackgrid.Notifications.Sending.{Network}
use blackgrid.Notifications.Delivery.{
  NotificationService, send_to, new_delivery, delivery_status, deliver, deliver_all, dispatch,
  send_notice,
}

abbrev pub is_for : ℕ → NotificationDelivery → Bool
is_for k d = d.channel_id == k

abbrev pub newest_delivery : ℕ → NotificationStore → Option NotificationDelivery
newest_delivery k s = find_if (is_for k) s.deliveries

abbrev pub count_deliveries : ℕ → NotificationStore → ℕ
count_deliveries k s = count_if (is_for k) s.deliveries

keep_if-KeysBelow :
    (p : NotificationChannel → Bool) (n : ℕ) (xs : List NotificationChannel)
    → KeysBelow channel_id_of n xs
    → KeysBelow channel_id_of n (keep_if p xs)
keep_if-KeysBelow p n [] b = tt
keep_if-KeysBelow p n (x ∷ xs) b =
    let more = keep_if-KeysBelow p x.id xs b.1 in
    ground (arith, b.0, more, KeysBelow-raise channel_id_of x.id n (keep_if p xs))

find_by-above :
    (k n : ℕ) (xs : List NotificationChannel)
    → KeysBelow channel_id_of n xs
    → n ≤ k
    → find_by channel_id_of k xs ≡ none
find_by-above k n [] b h = refl
find_by-above k n (x ∷ xs) b h = ground (arith, b.0, h, find_by-above k x.id xs b.1)

-- A row that passes the test is found among those that do, and one that does not is not.
find_by-keep_if :
    (p : NotificationChannel → Bool) (k n : ℕ) (xs : List NotificationChannel)
    (c : NotificationChannel)
    → KeysBelow channel_id_of n xs
    → find_by channel_id_of k xs ≡ some c
    → find_by channel_id_of k (keep_if p xs) ≡ (if p c then some c else none)
find_by-keep_if p k n [] c b found = cc
find_by-keep_if p k n (x ∷ xs) c b found = ground (
  arith,
  found,
  find_by-keep_if p k x.id xs c b.1,
  find_by-above k x.id (keep_if p xs) (keep_if-KeysBelow p x.id xs b.1),
)

module _ (svc : NotificationService) (fails : NotificationQuery → Bool)
    (net : NotificationChannel → Network) (now : ℕ) where
  module _ (event : NotificationEvent) (payload : Fields) where
    deliver_other :
        (k : ℕ) (c : NotificationChannel) (s : NotificationStore)
        → channel_id_of c ≢ k
        → (newest_delivery k (deliver svc fails (net c) now c event payload s).1
            ≡ newest_delivery k s)
          × (count_deliveries k (deliver svc fails (net c) now c event payload s).1
              ≡ count_deliveries k s)
          × ((deliver svc fails (net c) now c event payload s).1.channels ≡ s.channels)
    unfolding deliver
    deliver_other k c s h = ground (arith, h)

    deliver_all_other :
        (k : ℕ) (cs : List NotificationChannel) (s : NotificationStore)
        → find_by channel_id_of k cs ≡ none
        → (newest_delivery k (deliver_all svc fails net now event payload cs s)
            ≡ newest_delivery k s)
          × (count_deliveries k (deliver_all svc fails net now event payload cs s)
              ≡ count_deliveries k s)
    unfolding deliver_all
    deliver_all_other k [] s h = (refl, refl)
    deliver_all_other k (c ∷ cs) s h = elim (Bool-cases (c.id == k)) [
      | inl here ↦ ground (arith, h, here)
      | inr there ↦
          let (a, b) =
            deliver_all_other k cs (deliver svc fails (net c) now c event payload s).1
              (ground (arith, h, there)) in
          let (a', b', x) = deliver_other k c s (ground (arith, there)) in (a ∙ a', b ∙ b')
    ]

    -- What a channel has after its delivery: one row more, the newest, which says what its own network
    -- answered.
    abbrev pub Delivered : NotificationChannel → NotificationStore → NotificationStore → Type 0
    Delivered c s t =
        (d : NotificationDelivery) × (newest_delivery c.id t ≡ some d)
        × (count_deliveries c.id t ≡ suc (count_deliveries c.id s))
        × (d.event_type ≡ event_word event)
        × (d.payload ≡ svc.library.write_map (some payload))
        × (d.last_error ≡ send_to svc (net c) c event payload)
        × (d.status ≡ delivery_status (send_to svc (net c) c event payload))

    deliver_self :
        (c : NotificationChannel) (s : NotificationStore)
        → fails (create_delivery_row c.id) ≡ false
        → Delivered c s (deliver svc fails (net c) now c event payload s).1
    unfolding deliver
    deliver_self c s works =
        let row =
          new_delivery s.next_id c.id (event_word event) (send_to svc (net c) c event payload)
            (svc.library.write_map (some payload)) now in
        (row, ground (arith, works), ground (arith, works), refl, refl, refl, refl)

    deliver_all_self :
        (n : ℕ) (cs : List NotificationChannel) (c : NotificationChannel) (s : NotificationStore)
        → KeysBelow channel_id_of n cs
        → find_by channel_id_of c.id cs ≡ some c
        → fails (create_delivery_row c.id) ≡ false
        → Delivered c s (deliver_all svc fails net now event payload cs s)
    unfolding deliver_all
    deliver_all_self n [] c s b found works = cc
    deliver_all_self n (x ∷ xs) c s b found works = elim (Bool-cases (x.id == c.id)) [
      | inl here ↦
          let same : x ≡ c = ground (arith, found, here) in
          let (d, newest, count, event', payload', error', status') = deliver_self c s works in
          let (kept, counted) =
            deliver_all_other c.id xs (deliver svc fails (net c) now c event payload s).1
              (find_by-above c.id x.id xs b.1 (ground (arith, here))) in
          subst
            (λ y. Delivered c s (
              deliver_all svc fails net now event payload xs
                (deliver svc fails (net y) now y event payload s).1))
            (sym same) (d, kept ∙ newest, counted ∙ count, event', payload', error', status')
      | inr there ↦
          let (d, newest, count, event', payload', error', status') =
            deliver_all_self x.id xs c (deliver svc fails (net x) now x event payload s).1 b.1
              (ground (arith, found, there)) works in
          let (kept, counted, same) = deliver_other c.id x s (ground (arith, there)) in
          (d, newest, count ∙ ap suc counted, event', payload', error', status')
    ]

    -- A dispatch in which the list of channels is read gives an enabled channel whose row is stored one
    -- delivery, with the outcome of its own sending, whatever happens to the other channels, and gives a
    -- disabled channel none. The rows of the table have distinct ids.
    pub dispatch-Delivered :
        (n : ℕ) (s : NotificationStore) (c : NotificationChannel)
        → KeysBelow channel_id_of n s.channels
        → find_channel c.id s ≡ some c
        → fails list_enabled_channels ≡ false
        → fails (create_delivery_row c.id) ≡ false
        → ((c.enabled ≡ true) × Delivered c s (dispatch svc fails net now event payload s))
          ⊎ ((c.enabled ≡ false)
              × (newest_delivery c.id (dispatch svc fails net now event payload s)
                  ≡ newest_delivery c.id s)
              × (count_deliveries c.id (dispatch svc fails net now event payload s)
                  ≡ count_deliveries c.id s))
    unfolding dispatch
    dispatch-Delivered n s c b found lists works =
        let ran : dispatch svc fails net now event payload s
            ≡ deliver_all svc fails net now event payload (enabled_channels s) s =
          ground (arith, lists) in
        let kept =
          find_by-keep_if (λ (x : NotificationChannel). x.enabled) c.id n s.channels c b found in
        elim (Bool-cases c.enabled) [
          | inl on ↦ inl (
            on,
            subst (Delivered c s) (sym ran) (
                deliver_all_self n (enabled_channels s) c s
                  (keep_if-KeysBelow (λ (x : NotificationChannel). x.enabled) n s.channels b)
                  (ground (arith, kept, on)) works),
          )
          | inr off ↦
              let (a, z) =
                deliver_all_other c.id (enabled_channels s) s (ground (arith, kept, off)) in
              inr (off, ap (newest_delivery c.id) ran ∙ a, ap (count_deliveries c.id) ran ∙ z)
        ]

  -- OpenForMonitor that creates an incident, with a notifier, asks for one notice, and sending it gives
  -- each enabled channel whose row is stored one delivery of the event incident.opened, with the outcome
  -- of its own sending. The rows of the channels have distinct ids, and their list is read.
  pub open_for_monitor-send_notice :
      (isvc : Service) (ifails : Query → Bool) (at n : ℕ) (m : Monitor) (sev : Severity)
      (summary details : String) (t : Store) (i : Incident) (s : NotificationStore)
      (c : NotificationChannel)
      → (open_for_monitor isvc ifails at m sev summary details t).0 ≡ ok (i, true)
      → isvc.has_notifier ≡ true
      → KeysBelow channel_id_of n s.channels
      → find_channel c.id s ≡ some c
      → c.enabled ≡ true
      → fails list_enabled_channels ≡ false
      → fails (create_delivery_row c.id) ≡ false
      → (asked : Notice) × ((open_for_monitor isvc ifails at m sev summary details t).1.notified
          ≡ t.notified ++ (asked ∷ []))
        × (d : NotificationDelivery) × (newest_delivery c.id (send_notice svc fails net now asked s)
            ≡ some d)
        × (count_deliveries c.id (send_notice svc fails net now asked s)
            ≡ suc (count_deliveries c.id s))
        × (d.event_type ≡ "incident.opened")
        × (d.status
            ≡ delivery_status (
                send_to svc
                  (net c)
                  c
                  incident_opened
                  (build_incident_payload svc.library incident_opened i m)))
  unfolding open_for_monitor create_for_monitor send_notice
  open_for_monitor-send_notice isvc ifails at n m sev summary details t i s c h notifies b found on
        lists works =
      elim (dispatch-Delivered incident_opened
        (build_incident_payload svc.library incident_opened i m) n s c b found lists works) [
          | inl (_, (d, newest, count, event', payload', error', status')) ↦ (
            send_incident_opened i m,
            ground (arith, h, notifies),
            d,
            newest,
            count,
            event',
            status',
          )
          | inr (off, _, _) ↦ ground (arith, on, off)
        ]
