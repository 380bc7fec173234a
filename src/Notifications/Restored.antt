-- ===== src/Notifications/Restored.antt =====
-- A masked configuration that comes back: what UpdateChannel restores, and what it loses.
use blackgrid.Prelude.{String, Bool, false, ◌≡◌, ap, ◌∙◌, some, none, update_by, ok, arith}
use text.Mathlib.Text.{◌==◌ as str_eq}
use blackgrid.Secrets.{str, Fields, set_field}
use blackgrid.Secrets.Merge.{
  lookup_field, set_field_same, lookup_field-set_field, set_field-set_field,
}
use blackgrid.Notifications.{
  smtp, NotificationChannel, NotificationStore, NotificationQuery, get_channel_row,
  update_channel_row, Library, masked_secret, text_field, text_of, channel_id_of, find_channel,
}
use blackgrid.Notifications.Mask.{
  mask_smtp, mask_channel_config, merge_smtp_password, choose_password, keep_password,
  text_or_empty,
}
use blackgrid.Notifications.Channels.{validate_channel, new_channel, get_channel, update_channel}

module _ (l : Library) where
  merge_masked :
      (existing incoming : String) (old new : Fields) (pw : String)
      → l.read_map incoming ≡ ok (some new)
      → lookup_field "password" new ≡ some (str masked_secret)
      → l.read_map existing ≡ ok (some old)
      → lookup_field "password" old ≡ some (str pw)
      → merge_smtp_password l existing incoming
        ≡ ok (l.write_map (some (set_field "password" (str pw) new)))
  unfolding merge_smtp_password
  merge_masked existing incoming old new pw h masked g has =
      let tested =
        ap (λ o. choose_password l existing (text_or_empty (text_of o)) (some new)) masked in
      let kept : keep_password l existing (some new)
          ≡ ok (l.write_map (some (set_field "password" (str pw) new))) =
        ground (arith, g, has) in
      let merged : merge_smtp_password l existing incoming
          ≡ choose_password l existing (text_or_empty (text_field "password" (some new)))
              (some new) =
        ground (arith, h) in
      merged ∙ (tested ∙ kept)

  masked_back :
      (config : String) (m : Fields) (pw : String)
      → l.read_map config ≡ ok (some m)
      → lookup_field "password" m ≡ some (str pw)
      → l.read_map (l.write_map (some (set_field "password" (str masked_secret) m)))
        ≡ ok (some (set_field "password" (str masked_secret) m))
      → merge_smtp_password l config (mask_smtp l config) ≡ ok (l.write_map (some m))
  unfolding merge_smtp_password mask_smtp
  masked_back config m pw reads has rereads =
      let hidden = lookup_field-set_field "password" "password" (str masked_secret) m in
      let back =
        set_field-set_field "password" (str pw) (str masked_secret) m
        ∙ set_field_same "password" (str pw) m has in
      let shown : mask_smtp l config
          ≡ l.write_map (some (set_field "password" (str masked_secret) m)) =
        ground (arith, reads, has) in
      ap (merge_smtp_password l config) shown
      ∙ merge_masked config (l.write_map (some (set_field "password" (str masked_secret) m))) m
          (set_field "password" (str masked_secret) m) pw rereads (ground (arith, hidden)) reads has
      ∙ ap (λ x. ok (l.write_map (some x))) back

  -- The response to a channel of type smtp has the mask in place of the password, and when it comes back
  -- in an update the stored configuration is that before the mask, with its password: the other fields of
  -- the row are those of the request. The queries work, encoding/json reads what it has written, and the
  -- configuration is valid.
  pub update_channel-mask_channel_config :
      (fails : NotificationQuery → Bool) (s : NotificationStore) (c : NotificationChannel)
      (m : Fields) (pw name : String) (enabled : Bool)
      → find_channel c.id s ≡ some c
      → c.channel_type ≡ smtp
      → l.read_map c.config ≡ ok (some m)
      → lookup_field "password" m ≡ some (str pw)
      → l.read_map (l.write_map (some (set_field "password" (str masked_secret) m)))
        ≡ ok (some (set_field "password" (str masked_secret) m))
      → validate_channel l name smtp (l.write_map (some m)) ≡ none
      → fails get_channel_row ≡ false
      → fails update_channel_row ≡ false
      → (mask_channel_config l c ≡ l.write_map (some (set_field "password" (str masked_secret) m)))
        × (update_channel l fails c.id name smtp enabled (mask_channel_config l c) s ≡ (
          ok (new_channel c.id name smtp enabled (l.write_map (some m))),
          record s {
            channels =
                update_by channel_id_of c.id
                  (λ x. new_channel c.id name smtp enabled (l.write_map (some m)))
                  s.channels;
          },
        ))
  unfolding mask_channel_config update_channel get_channel
  update_channel-mask_channel_config fails s c m pw name enabled found ty reads has rereads valid g
        u =
      let back = masked_back c.config m pw reads has rereads in
      (
        unfold mask_smtp in ground (arith, ty, reads, has),
        ground (arith, found, ty, valid, g, u, back),
      )
