-- ===== src/Monitors/Tokens.antt =====
-- Rotation of the token of a push monitor.
use blackgrid.Prelude.{
  ℕ, suc, String, Bool, true, false, ◌≡◌, ◌≢◌, ◌≤◌, Option, none, some, List, [], ◌∷◌, refl, arith,
  ap, ◌∙◌, sym, subst, find_if, count_if, KeysBelow, update_by, find_by-key, find_if-update_by_new,
  count_if-update_by_lost, find_if-count_if_zero,
}
use text.Mathlib.TextEquality.{eq_iff}
use blackgrid.Model.{Monitor, MonitorStatus}
use blackgrid.Scheduler.{written, write_monitor}
use blackgrid.Monitors.{
  Formats, MonitorHandler, Site, MonitorQuery, failed, not_found, rotated, is_push, monitors_of,
  find_monitor, slug_in_use, update_monitor_row,
}
use blackgrid.Monitors.Hooked.{no_failure}
use blackgrid.Monitors.Push.{
  find_by_hash, hash_is, with_token_hash, rotate_found, rotate_push_token, receive_push_heartbeat,
}

write_monitor-update_by :
    (arg : Monitor) (ms : List Monitor)
    → write_monitor arg ms ≡ update_by (λ (m : Monitor). m.id) arg.id (written arg) ms
write_monitor-update_by arg [] = refl
write_monitor-update_by arg (m ∷ ms) = ground (arith, write_monitor-update_by arg ms)

abbrev has_hash : String → Monitor → Bool
has_hash hash m = hash_is hash m.push_token_hash

module _ (f : Formats) (h : MonitorHandler) where
  -- What the rotation leaves: the reply, and the table.
  rotated_lem :
      (token id : String) (n : ℕ) (m : Monitor) (s : Site)
      → f.parse_uuid id ≡ some n
      → find_monitor n s ≡ some m
      → is_push m.monitor_type ≡ true
      → slug_in_use m.slug m.id (monitors_of s) ≡ false
      → (let (reply, t) = rotate_push_token f h no_failure (some token) id s in
          (reply ≡ rotated token)
          × (monitors_of t
              ≡ update_by
                  (λ (x : Monitor). x.id)
                  m.id
                  (written (with_token_hash (f.hash_token token) m))
                  (monitors_of s)))
  unfolding rotate_push_token rotate_found update_monitor_row
  rotated_lem token id n m s parsed found pushed unique =
      let at : m.id ≡ n = find_by-key (λ (x : Monitor). x.id) n (monitors_of s) m found in
      let again : find_monitor m.id s ≡ some m =
        subst (λ k. find_monitor k s ≡ some m) (sym at) found in
      (
        ground (arith, parsed, found, pushed, unique, again),
        ground (
          arith,
          parsed,
          found,
          pushed,
          unique,
          again,
          write_monitor-update_by (with_token_hash (f.hash_token token) m) (monitors_of s),
        ),
      )

  -- If the monitor that the request names is a push monitor that holds the hash of `was`, no other row
  -- does or has its slug, ids fall below the next one, and no row holds the hash of the new random token, which differs from that of
  -- `was`, then with no failing query the reply is the new token; afterwards a heartbeat with the token `was` gets "not found" and
  -- changes nothing, whatever fails, and the new token finds the monitor, changed in its hash alone.
  pub rotate_push_token-switches :
      (token was id : String) (n : ℕ) (m : Monitor) (s : Site)
      → f.parse_uuid id ≡ some n
      → find_monitor n s ≡ some m
      → is_push m.monitor_type ≡ true
      → slug_in_use m.slug m.id (monitors_of s) ≡ false
      → KeysBelow (λ (x : Monitor). x.id) s.next_monitor (monitors_of s)
      → m.push_token_hash ≡ some (f.hash_token was)
      → count_if (has_hash (f.hash_token was)) (monitors_of s) ≤ 1
      → find_by_hash (f.hash_token token) s ≡ none
      → f.hash_token token ≢ f.hash_token was
      → (let (reply, t) = rotate_push_token f h no_failure (some token) id s in
          (reply ≡ rotated token)
          × ((fails : MonitorQuery → Bool) (now : ℕ) (query body : Option MonitorStatus)
              → receive_push_heartbeat f h fails now was query body t
                ≡ (failed not_found "not found", t))
          × (find_by_hash (f.hash_token token) t
              ≡ some (record m { push_token_hash = some (f.hash_token token) })))
  unfolding receive_push_heartbeat
  rotate_push_token-switches token was id n m s parsed found pushed unique below held single fresh
        apart =
      let new = f.hash_token token in
      let old = f.hash_token was in
      let g = written (with_token_hash new m) in
      let (reply, rows) = rotated_lem token id n m s parsed found pushed unique in
      let t = (rotate_push_token f h no_failure (some token) id s).1 in
      let at : m.id ≡ n = find_by-key (λ (x : Monitor). x.id) n (monitors_of s) m found in
      let again : find_monitor m.id s ≡ some m =
        subst (λ k. find_monitor k s ≡ some m) (sym at) found in
      let one : suc
            (count_if (has_hash old) (update_by (λ (x : Monitor). x.id) m.id g (monitors_of s)))
          ≡ count_if (has_hash old) (monitors_of s) =
        count_if-update_by_lost (λ (x : Monitor). x.id) m.id g (has_hash old) s.next_monitor
          (monitors_of s) m below again (ground (arith, held, eq_iff old old))
          (ground (arith, apart, eq_iff new old)) in
      let gone : find_by_hash old t ≡ none =
        ap (find_if (has_hash old)) rows
        ∙ find_if-count_if_zero (has_hash old)
            (update_by (λ (x : Monitor). x.id) m.id g (monitors_of s))
            (omega (arith, one, single)) in
      (
        reply,
        λ fails now query body. ground (arith, gone),
        ap (find_if (has_hash new)) rows
            ∙ find_if-update_by_new (λ (x : Monitor). x.id) m.id g (has_hash new) (monitors_of s) m
                again fresh (ground (arith, eq_iff new new)),
      )
