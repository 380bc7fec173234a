-- ===== src/Secrets/Mask.antt =====
-- What MaskConfig lets through.
use blackgrid.Prelude.{String, true, false, ◌≡◌, refl, ap, some, arith}
use text.Mathlib.Text.{◌==◌ as str_eq}
use blackgrid.Secrets.{
  Json, obj, Fields, field, end, Codec, has_pattern, patterns, mask_map, mask_value, mask_config,
}

-- Two maps that differ at most in the values of sensitive keys, at any depth of nested maps.
mutual
  pub data SameButSecrets (lower : String → String) : Fields → Fields → Type 0 where
    both_end : SameButSecrets lower end end
    secret :
        (k : String) (v w : Json) (fs gs : Fields)
        → has_pattern lower patterns k ≡ true
        → SameButSecrets lower fs gs
        → SameButSecrets lower (field k v fs) (field k w gs)
    open_field :
        (k : String) (v w : Json) (fs gs : Fields)
        → SameValue lower v w
        → SameButSecrets lower fs gs
        → SameButSecrets lower (field k v fs) (field k w gs)

  pub data SameValue (lower : String → String) : Json → Json → Type 0 where
    same : (v : Json) → SameValue lower v v
    nested : (fs gs : Fields) → SameButSecrets lower fs gs → SameValue lower (obj fs) (obj gs)

mutual
  unfolding mask_map

  hides_map :
      (lower : String → String) (fs gs : Fields)
      → SameButSecrets lower fs gs
      → mask_map lower fs ≡ mask_map lower gs
  hides_map lower _ _ both_end = refl
  hides_map lower _ _ (secret k v w fs gs h rest) = cc (hides_map lower fs gs rest, h)
  hides_map lower _ _ (open_field k v w fs gs h rest) =
      cc (hides_map lower fs gs rest, hides_value lower v w h)

  hides_value :
      (lower : String → String) (v w : Json)
      → SameValue lower v w
      → mask_value lower v ≡ mask_value lower w
  hides_value lower _ _ (same v) = refl
  hides_value lower _ _ (nested fs gs h) = ap obj (hides_map lower fs gs h)

-- Two configurations that decode to maps that differ at most in the values of sensitive keys, at any
-- depth of nested maps, are masked to the same text.
pub mask_config-hides :
    (c : Codec) (s t : String) (m n : Fields)
    → str_eq s "" ≡ false
    → str_eq t "" ≡ false
    → c.decode s ≡ some m
    → c.decode t ≡ some n
    → SameButSecrets c.lower m n
    → mask_config c s ≡ mask_config c t
unfolding mask_config
mask_config-hides c s t m n full_s full_t read_s read_t h =
    let e = hides_map c.lower m n h in ground (arith, full_s, full_t, read_s, read_t, e)
