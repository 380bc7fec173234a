-- ===== src/StatusPages/Slug.antt =====
-- Slugs of status pages: generateSlugFromName and validateSlug of internal/service/status_page.go. The
-- name comes trimmed and in lower case.
use blackgrid.Prelude.{Bool, true, false, not, ◌&&◌, ◌||◌, if◌then◌else◌, leb, ◌==◌}
use blackgrid.Prelude.{◌≡◌, ap, ◌∙◌, ◌⊎◌, inl, refl, arith}
use Prim.Native.Char.{Char, code}
use Prim.Native.String.{String, [], ◌∷◌}

-- (r >= 'a' && r <= 'z') || (r >= '0' && r <= '9')
abbrev pub is_alphanumeric : Char → Bool
is_alphanumeric c =
    (leb b'a' (code c) && leb (code c) b'z') || (leb b'0' (code c) && leb (code c) b'9')

abbrev pub is_dash : Char → Bool
is_dash c = code c == b'-'

-- '-', ' ' and '_'
abbrev pub is_separator : Char → Bool
is_separator c = is_dash c || code c == b' ' || code c == b'_'

abbrev pub is_empty : String → Bool
is_empty [] = true
is_empty (c ∷ s) = false

-- What one rune adds to the builder, before what the later ones add.
abbrev pub write_rune : Bool → Char → String → String
write_rune breaks c rest =
    if is_alphanumeric c then c ∷ rest else if is_separator c && breaks then "-" ∷ rest else rest

-- The loop: `started` is b.Len() > 0.
unfoldable pub slug_loop : Bool → Bool → String → String
slug_loop prev_dash started [] = []
slug_loop prev_dash started (c ∷ s) =
    let breaks = not prev_dash && started in
    let rest =
      slug_loop (not (is_alphanumeric c) && (prev_dash || (is_separator c && breaks)))
        (started || is_alphanumeric c) s in
    write_rune breaks c rest

-- strings.Trim(s, "-")
abbrev pub trim_left : String → String
trim_left [] = []
trim_left (c ∷ s) = if is_dash c then trim_left s else c ∷ s

abbrev pub trim_right : String → String
trim_right [] = []
trim_right (c ∷ s) = let rest = trim_right s in if is_dash c && is_empty rest then [] else c ∷ rest

unfoldable pub generate_slug : String → String
unfolding slug_loop
generate_slug name = trim_right (trim_left (slug_loop false false name))

-- The expression ^[a-z0-9]+(?:-[a-z0-9]+)*$, from a place where a dash may stand or not.
abbrev pub matches_from : Bool → String → Bool
matches_from dash_may_stand [] = dash_may_stand
matches_from dash_may_stand (c ∷ s) =
    let rest = matches_from (is_alphanumeric c) s in
    if is_alphanumeric c then rest else is_dash c && dash_may_stand && rest

-- validateSlug
unfoldable pub is_valid_slug : String → Bool
is_valid_slug = matches_from false

abbrev pub has_alphanumeric : String → Bool
has_alphanumeric [] = false
has_alphanumeric (c ∷ s) = is_alphanumeric c || has_alphanumeric s

matches_from_empty : (s : String) → is_empty s ≡ true → matches_from true s ≡ true
matches_from_empty [] h = refl
matches_from_empty (c ∷ s) h = cc

-- What the loop writes, trimmed at its end, may stand after the rune before.
trimmed-matches :
    (prev : Bool) (s : String)
    → (let t = trim_right (slug_loop prev true s) in
        (is_empty t ≡ true) ⊎ (matches_from (not prev) t ≡ true))
unfolding slug_loop
trimmed-matches prev [] = inl refl
trimmed-matches prev (c ∷ s) = ground (
  arith,
  trimmed-matches true s,
  trimmed-matches false s,
  matches_from_empty (trim_right (slug_loop false true s)),
)

unstarted :
    (s : String)
    → (let t = slug_loop false false s in
        (trim_left t ≡ t) × (matches_from false (trim_right t) ≡ has_alphanumeric s))
unfolding slug_loop
unstarted [] = (refl, refl)
unstarted (c ∷ s) = (
  ground (arith, unstarted s),
  ground (
    arith,
    unstarted s,
    trimmed-matches false s,
    matches_from_empty (trim_right (slug_loop false true s)),
  ),
)

-- The slug that is made from a name is valid exactly when the name, trimmed and in lower case, has an
-- ASCII letter or digit.
pub generate_slug-is_valid_slug :
    (name : String) → is_valid_slug (generate_slug name) ≡ has_alphanumeric name
unfolding is_valid_slug generate_slug
generate_slug-is_valid_slug name =
    ap (λ t. matches_from false (trim_right t)) (unstarted name).0 ∙ (unstarted name).1
