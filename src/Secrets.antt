-- ===== src/Secrets.antt =====
-- The secrets in the configuration of a monitor: MaskConfig of internal/monitor/secrets.go, which
-- hides them in responses, and mergeConfig of internal/api/handlers/monitor.go, which keeps them when
-- a masked configuration comes back.
pub mod Mask
pub mod Merge
mod Tests
use blackgrid.Prelude.{
  ℕ, String, Bool, true, false, if◌then◌else◌, ◌&&◌, ◌||◌, Option, none, some, List, [], ◌∷◌, ◌++◌,
  is_some, any_of,
}
use text.Mathlib.Text.{◌==◌ as str_eq, find?}
use blackgrid.Model.{MonitorType, postgres}

-- The values of encoding/json; the fields of an object have distinct keys.
mutual
  pub data Json : Type 0 where
    null : Json
    boolean : Bool → Json
    number : ℕ → Json
    str : String → Json
    arr : Items → Json
    obj : Fields → Json

  pub data Items : Type 0 where
    nil : Items
    cons : Json → Items → Items

  pub data Fields : Type 0 where
    end : Fields
    field : String → Json → Fields → Fields

-- json.Unmarshal into a map[string]any and json.Marshal of one, and strings.ToLower.
pub record Codec : Type 0 where
  pub decode : String → Option Fields
  pub encode : Fields → String
  pub lower : String → String

-- strings.Contains
abbrev pub contains : String → String → Bool
contains s t = is_some (find? s t)

-- sensitiveKeyPatterns, split at the commas
abbrev pub patterns : List String
patterns = "password" ∷ "token" ∷ "secret" ∷ "api_key" ∷ "authorization" ∷ "dsn" ∷ []

unfoldable pub has_pattern : (String → String) → List String → String → Bool
has_pattern lower ps k = any_of (contains (lower k)) ps

abbrev pub masked : String
masked = "***"

-- maskMap: a nested map is masked too, a list is not.
unfoldable mutual
  pub mask_map : (String → String) → Fields → Fields
  mask_map lower end = end
  mask_map lower (field k v rest) =
      field k (if has_pattern lower patterns k then str masked else mask_value lower v)
        (mask_map lower rest)

  pub mask_value : (String → String) → Json → Json
  mask_value lower (obj fs) = obj (mask_map lower fs)
  mask_value lower v = v

unfoldable pub mask_config : Codec → String → String
mask_config c config =
    if str_eq config ""
    then config
    else (elim (c.decode config) [ none ↦ config | some m ↦ c.encode (mask_map c.lower m) ])

-- The sensitive keys of mergeConfig.
abbrev pub kept_patterns : MonitorType → List String
kept_patterns postgres = "password" ∷ "token" ∷ "secret" ∷ "api_key" ∷ "authorization" ∷ "dsn" ∷ []
kept_patterns _ = "password" ∷ "token" ∷ "secret" ∷ "api_key" ∷ "authorization" ∷ []

-- A blank or masked text.
abbrev pub is_blank : Json → Bool
is_blank (str s) = str_eq s "" || str_eq s masked
is_blank _ = false

-- merged[k] = v
unfoldable pub set_field : String → Json → Fields → Fields
set_field k v end = field k v end
set_field k v (field j w rest) =
    let after = set_field k v rest in if str_eq j k then field j v rest else field j w after

-- The loop over the incoming map.
unfoldable pub merge_map : (String → String) → MonitorType → Fields → Fields → Fields
unfolding set_field
merge_map lower ty merged end = merged
merge_map lower ty merged (field k v rest) =
    merge_map lower ty
      (if has_pattern lower (kept_patterns ty) k && is_blank v
        then merged
        else set_field k v merged)
      rest

unfoldable pub merge_config : Codec → MonitorType → String → String → String
unfolding merge_map
merge_config c ty existing incoming =
    if str_eq existing ""
    then incoming
    else if str_eq incoming ""
    then existing
    else (elim (c.decode existing) [
      | none ↦ incoming
      | some old ↦ elim (c.decode incoming) [
        | none ↦ existing
        | some new ↦ c.encode (merge_map c.lower ty old new)
      ]
    ])
