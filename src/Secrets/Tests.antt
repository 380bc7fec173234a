-- ===== src/Secrets/Tests.antt =====
-- Configurations with secrets at concrete inputs, with a codec for the texts "A", "B" and "M".
use blackgrid.Prelude.{String, ◌≡◌, refl, Option, some, inl, inr, if◌then◌else◌}
use text.Mathlib.Text.{◌==◌ as str_eq}
use blackgrid.Model.{http, postgres}
use blackgrid.Secrets.{
  str, obj, Fields, field, end, Codec, masked, has_pattern, mask_map, mask_config, merge_config,
}
use blackgrid.Secrets.Mask.{both_end, secret, open_field, same, nested, mask_config-hides}
use blackgrid.Secrets.Merge.{lookup_field, merge_config-mask_config, merge_config-nested}

-- A connection with a password, in a nested map or at the top.
abbrev login : String → Fields
login password = field "user" (str "root") (field "password" (str password) end)

abbrev headers : String → Fields
headers password = field "url" (str "u") (field "headers" (obj (login password)) end)

abbrev encode_login : Fields → String
encode_login (field j v (field k (str w) rest)) = if str_eq w masked then "M" else "A"
encode_login (field j v (field k (obj (field i x (field l (str w) rest))) end)) =
    if str_eq w masked then "M" else "A"
encode_login _ = "A"

abbrev read_with : (String → Fields) → String → Option Fields
read_with f s =
    if str_eq s "M"
    then some (f masked)
    else if str_eq s "A"
    then some (f "pw")
    else some (f "other")

abbrev flat : Codec
flat = record { decode = read_with login; encode = encode_login; lower = λ s. s }

abbrev deep : Codec
deep = record { decode = read_with headers; encode = encode_login; lower = λ s. s }

mask_config-hides_example : mask_config deep "A" ≡ mask_config deep "B"
unfolding has_pattern mask_map
mask_config-hides_example =
    mask_config-hides deep "A" "B" (headers "pw") (headers "other") refl refl refl refl (
      open_field "url" (str "u") (str "u") (field "headers" (obj (login "pw")) end)
        (field "headers" (obj (login "other")) end) (same (str "u"))
        (open_field "headers" (obj (login "pw")) (obj (login "other")) end end
          (nested (login "pw") (login "other") (
            open_field "user" (str "root") (str "root") (field "password" (str "pw") end)
              (field "password" (str "other") end) (same (str "root"))
              (secret "password" (str "pw") (str "other") end end refl both_end)))
          both_end))

merge_config-mask_config_example :
    merge_config flat postgres "A" (mask_config flat "A") ≡ encode_login (login "pw")
unfolding has_pattern mask_map
merge_config-mask_config_example =
    merge_config-mask_config flat postgres "A" (login "pw") refl refl refl refl (refl, (refl, tt))
      (inr (refl, refl), (inl (refl, refl), tt))

merge_config-nested_example :
    (merged stored : Fields) × (merge_config deep http "A" (mask_config deep "A")
      ≡ encode_login merged)
    × (lookup_field "headers" merged ≡ some (obj stored))
    × (lookup_field "password" stored ≡ some (str masked))
unfolding has_pattern mask_map
merge_config-nested_example =
    merge_config-nested deep http "A" (headers "pw") (login "pw") "headers" "password" (str "pw")
      refl refl refl refl (refl, (refl, tt)) refl refl refl refl
