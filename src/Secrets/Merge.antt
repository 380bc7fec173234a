-- ===== src/Secrets/Merge.antt =====
-- A masked configuration that comes back: what mergeConfig restores, and what it loses.
use blackgrid.Prelude.{
  String, true, false, if◌then◌else◌, ◌≡◌, refl, ◌∙◌, ◌⊎◌, inl, inr, ◌&&◌, Option, none, some,
  Bool-cases, arith,
}
use text.Mathlib.Text.{◌==◌ as str_eq}
use text.Mathlib.TextEquality.{eq_iff}
use text.Mathlib.TextPositions.{eq_refl}
use blackgrid.Model.{MonitorType}
use blackgrid.Secrets.{
  Json, str, obj, Fields, field, end, Codec, has_pattern, patterns, kept_patterns, masked, is_blank,
  mask_map, mask_value, mask_config, set_field, merge_map, merge_config,
}

abbrev pub lookup_field : String → Fields → Option Json
lookup_field k end = none
lookup_field k (field j v rest) = if str_eq j k then some v else lookup_field k rest

-- The keys of a map are distinct.
abbrev pub Distinct : Fields → Type 0
Distinct end = Unit {0}
Distinct (field k v rest) = (lookup_field k rest ≡ none) × Distinct rest

-- A map whose secrets all stand at its top, under keys that mergeConfig knows for the type.
abbrev pub Flat : (String → String) → MonitorType → Fields → Type 0
Flat lower ty end = Unit {0}
Flat lower ty (field k v rest) =
    (((has_pattern lower patterns k ≡ true) × (has_pattern lower (kept_patterns ty) k ≡ true))
      ⊎ ((has_pattern lower patterns k ≡ false) × (mask_value lower v ≡ v)))
    × Flat lower ty rest

pub set_field_same :
    (k : String) (v : Json) (fs : Fields) → lookup_field k fs ≡ some v → set_field k v fs ≡ fs
unfolding set_field
set_field_same k v end h = cc
set_field_same k v (field j w rest) h = ground (arith, h, set_field_same k v rest)

pub lookup_field-set_field :
    (j k : String) (v : Json) (fs : Fields)
    → lookup_field j (set_field k v fs) ≡ (if str_eq k j then some v else lookup_field j fs)
unfolding set_field
lookup_field-set_field j k v end = refl
lookup_field-set_field j k v (field i w rest) =
    ground (arith, eq_iff i k, eq_iff k j, eq_iff i j, lookup_field-set_field j k v rest)

pub set_field-set_field :
    (k : String) (v w : Json) (fs : Fields) → set_field k v (set_field k w fs) ≡ set_field k v fs
unfolding set_field
set_field-set_field k v w end = ground (arith, eq_refl k)
set_field-set_field k v w (field j x rest) = ground (arith, set_field-set_field k v w rest)

-- Each field of the incoming map is skipped or already there.
abbrev Restores : (String → String) → MonitorType → Fields → Fields → Type 0
Restores lower ty m end = Unit {0}
Restores lower ty m (field k w rest) =
    (((has_pattern lower (kept_patterns ty) k && is_blank w) ≡ true) ⊎ (lookup_field k m ≡ some w))
    × Restores lower ty m rest

merge_map_restored :
    (lower : String → String) (ty : MonitorType) (m gs : Fields)
    → Restores lower ty m gs
    → merge_map lower ty m gs ≡ m
unfolding merge_map
merge_map_restored lower ty m end h = refl
merge_map_restored lower ty m (field k w rest) (inl skipped, more) =
    ground (arith, skipped, merge_map_restored lower ty m rest more)
merge_map_restored lower ty m (field k w rest) (inr there, more) =
    ground (arith, set_field_same k w m there, merge_map_restored lower ty m rest more)

-- `gs` is a part of `m`.
abbrev Within : Fields → Fields → Type 0
Within m end = Unit {0}
Within m (field k v rest) = (lookup_field k m ≡ some v) × Within m rest

Within-field :
    (k : String) (v : Json) (m gs : Fields)
    → lookup_field k gs ≡ none
    → Within m gs
    → Within (field k v m) gs
Within-field k v m end absent h = tt
Within-field k v m (field j w rest) absent h =
    ground (arith, eq_iff k j, eq_iff j k, absent, h.0, Within-field k v m rest)

Within-self : (m : Fields) → Distinct m → Within m m
Within-self end d = tt
Within-self (field k v rest) d =
    (ground (arith, eq_refl k), Within-field k v rest rest d.0 (Within-self rest d.1))

mask_map-Restores :
    (lower : String → String) (ty : MonitorType) (m gs : Fields)
    → Within m gs
    → Flat lower ty gs
    → Restores lower ty m (mask_map lower gs)
unfolding mask_map
mask_map-Restores lower ty m end w f = tt
mask_map-Restores lower ty m (field k v rest) w f =
    ground (arith, w.0, f.0, mask_map-Restores lower ty m rest w.1 f.1)

-- A map whose secrets all stand at its top, under keys that mergeConfig keeps for the type of the
-- monitor, is restored when its masked text comes back unchanged: the merged text is that of the
-- stored map. encoding/json reads what it has written, and writes no empty text.
pub merge_config-mask_config :
    (c : Codec) (ty : MonitorType) (s : String) (m : Fields)
    → str_eq s "" ≡ false
    → c.decode s ≡ some m
    → c.decode (c.encode (mask_map c.lower m)) ≡ some (mask_map c.lower m)
    → str_eq (c.encode (mask_map c.lower m)) "" ≡ false
    → Distinct m
    → Flat c.lower ty m
    → merge_config c ty s (mask_config c s) ≡ c.encode m
unfolding merge_config mask_config
merge_config-mask_config c ty s m full reads rereads written d f =
    let back =
      merge_map_restored c.lower ty m (mask_map c.lower m)
        (mask_map-Restores c.lower ty m m (Within-self m d) f) in
    ground (arith, full, reads, rereads, written, back)

lookup_field-merge_map_absent :
    (lower : String → String) (ty : MonitorType) (k : String) (acc gs : Fields)
    → lookup_field k gs ≡ none
    → lookup_field k (merge_map lower ty acc gs) ≡ lookup_field k acc
unfolding merge_map
lookup_field-merge_map_absent lower ty k acc end h = refl
lookup_field-merge_map_absent lower ty k acc (field j w rest) h =
    elim (Bool-cases (has_pattern lower (kept_patterns ty) j && is_blank w)) [
      | inl skipped ↦ ground (arith, skipped, h, lookup_field-merge_map_absent lower ty k acc rest)
      | inr stored ↦ ground (
        arith,
        stored,
        h,
        lookup_field-set_field k j w acc,
        lookup_field-merge_map_absent lower ty k (set_field j w acc) rest,
      )
    ]

-- A nested map that comes in replaces what was there.
lookup_field-merge_map :
    (lower : String → String) (ty : MonitorType) (k : String) (fs acc gs : Fields)
    → Distinct gs
    → lookup_field k gs ≡ some (obj fs)
    → lookup_field k (merge_map lower ty acc gs) ≡ some (obj fs)
unfolding merge_map
lookup_field-merge_map lower ty k fs acc end d h = cc
lookup_field-merge_map lower ty k fs acc (field j w rest) d h =
    let acc' =
      if has_pattern lower (kept_patterns ty) j && is_blank w then acc else set_field j w acc in
    elim (Bool-cases (str_eq j k)) [
      | inl here ↦
          lookup_field-merge_map_absent lower ty k acc' rest (ground (arith, d.0, here, eq_iff j k))
          ∙ ground (arith, here, h, eq_iff j k, lookup_field-set_field k j w acc)
      | inr there ↦ lookup_field-merge_map lower ty k fs acc' rest d.1 (ground (arith, h, there))
    ]

lookup_field-mask_map :
    (lower : String → String) (k : String) (v : Json) (fs : Fields)
    → lookup_field k fs ≡ some v
    → lookup_field k (mask_map lower fs)
      ≡ some (if has_pattern lower patterns k then str masked else mask_value lower v)
unfolding mask_map
lookup_field-mask_map lower k v end h = cc
lookup_field-mask_map lower k v (field j w rest) h =
    ground (arith, h, eq_iff j k, lookup_field-mask_map lower k v rest)

mask_map-absent :
    (lower : String → String) (k : String) (fs : Fields)
    → lookup_field k fs ≡ none
    → lookup_field k (mask_map lower fs) ≡ none
unfolding mask_map
mask_map-absent lower k end h = refl
mask_map-absent lower k (field j w rest) h = ground (arith, h, mask_map-absent lower k rest)

mask_map-Distinct :
    (lower : String → String) (fs : Fields) → Distinct fs → Distinct (mask_map lower fs)
unfolding mask_map
mask_map-Distinct lower end d = tt
mask_map-Distinct lower (field k v rest) d =
    (mask_map-absent lower k rest d.0, mask_map-Distinct lower rest d.1)

-- A secret in a nested map is lost when the masked text comes back: mergeConfig looks at the top of the
-- map only, so under a key that is not sensitive the stored map gets the masked one, in which a
-- sensitive key has the value `***`.
pub merge_config-nested :
    (c : Codec) (ty : MonitorType) (s : String) (m fs : Fields) (k j : String) (v : Json)
    → str_eq s "" ≡ false
    → c.decode s ≡ some m
    → c.decode (c.encode (mask_map c.lower m)) ≡ some (mask_map c.lower m)
    → str_eq (c.encode (mask_map c.lower m)) "" ≡ false
    → Distinct m
    → lookup_field k m ≡ some (obj fs)
    → has_pattern c.lower patterns k ≡ false
    → lookup_field j fs ≡ some v
    → has_pattern c.lower patterns j ≡ true
    → (merged stored : Fields) × (merge_config c ty s (mask_config c s) ≡ c.encode merged)
      × (lookup_field k merged ≡ some (obj stored))
      × (lookup_field j stored ≡ some (str masked))
unfolding merge_config mask_config
merge_config-nested c ty s m fs k j v full reads rereads written d here plain inner secret =
    let outer = lookup_field-mask_map c.lower k (obj fs) m here in
    let within = lookup_field-mask_map c.lower j v fs inner in
    (
      merge_map c.lower ty m (mask_map c.lower m),
      mask_map c.lower fs,
      ground (arith, full, reads, rereads, written),
      lookup_field-merge_map c.lower ty k (mask_map c.lower fs) m (mask_map c.lower m)
          (mask_map-Distinct c.lower m d) (unfold mask_map in ground (arith, outer, plain)),
      ground (arith, within, secret),
    )
