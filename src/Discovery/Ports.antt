-- ===== src/Discovery/Ports.antt =====
-- ParsePortsList. strings.TrimSpace, strings.Split at the commas and strconv.Atoi are a parameter.
use blackgrid.Prelude.{
  ℕ, String, Bool, true, false, if◌then◌else◌, ◌||◌, ◌==◌, ltb, ◌≡◌, refl, ◌≤◌, ◌<◌, ap, sym, ◌∙◌,
  Option, none, some, List, [], ◌∷◌, ◌++◌, any_of, Bool-cases, Option-cases, inl, inr, arith, subst,
  if-true, if-false,
}
use text.Mathlib.Text.{◌==◌ as str_eq}
use blackgrid.Discovery.Probe.{insert_port, sort_ints}

-- A negative number reads as 0.
pub record PortText : Type 0 where
  pub trim_space : String → String
  pub split : String → List String
  pub atoi : String → Option ℕ

abbrev pub has_port : ℕ → List ℕ → Bool
has_port n ports = any_of (λ m. m == n) ports

-- seen[n], and the append: `seen` holds the numbers of `out`.
abbrev pub add_number : ℕ → List ℕ → List ℕ
add_number n out = if has_port n out then out else out ++ (n ∷ [])

-- A part of the list as a port.
abbrev pub port_of : PortText → String → Option ℕ
port_of t part =
    if str_eq (t.trim_space part) "" then none else (elim (t.atoi (t.trim_space part)) [
      | none ↦ none
      | some n ↦ if ltb n 1 || ltb 65535 n then none else some n
    ])

-- The body of the loop.
abbrev pub add_part : PortText → String → List ℕ → List ℕ
add_part t part out = elim (port_of t part) [ none ↦ out | some n ↦ add_number n out ]

abbrev pub collect_ports : PortText → List String → List ℕ → List ℕ
collect_ports t [] out = out
collect_ports t (part ∷ parts) out = collect_ports t parts (add_part t part out)

abbrev pub sorted_ports : List ℕ → Option (List ℕ)
sorted_ports [] = none
sorted_ports (n ∷ ns) = some (sort_ints (n ∷ ns))

unfoldable pub parse_ports_list : PortText → String → Option (List ℕ)
parse_ports_list t raw =
    if str_eq (t.trim_space raw) ""
    then none
    else sorted_ports (collect_ports t (t.split (t.trim_space raw)) [])

-- Strictly increasing, above `low` and at most 65535.
abbrev pub Increasing : ℕ → List ℕ → Type 0
Increasing low [] = Unit {0}
Increasing low (n ∷ ns) = (low < n) × (n ≤ 65535) × Increasing n ns

abbrev Sound : List ℕ → Type 0
Sound [] = Unit {0}
Sound (n ∷ ns) = (0 < n) × (n ≤ 65535) × (has_port n ns ≡ false) × Sound ns

insert_port-Increasing :
    (low n : ℕ) (ms : List ℕ)
    → low < n
    → n ≤ 65535
    → has_port n ms ≡ false
    → Increasing low ms
    → Increasing low (insert_port n ms)
insert_port-Increasing low n [] a b new h = (a, b, tt)
insert_port-Increasing low n (m ∷ ms) a b new h =
    ground (arith, a, b, new, h.0, h.1, h.2, insert_port-Increasing m n ms)

has_port-insert_port :
    (k n : ℕ) (ms : List ℕ) → has_port k (insert_port n ms) ≡ (n == k || has_port k ms)
has_port-insert_port k n [] = ground arith
has_port-insert_port k n (m ∷ ms) = ground (arith, has_port-insert_port k n ms)

has_port-sort_ints : (k : ℕ) (ns : List ℕ) → has_port k (sort_ints ns) ≡ has_port k ns
has_port-sort_ints k [] = refl
has_port-sort_ints k (n ∷ ns) =
    has_port-insert_port k n (sort_ints ns) ∙ ground (arith, has_port-sort_ints k ns)

sort_ints-Increasing : (ns : List ℕ) → Sound ns → Increasing 0 (sort_ints ns)
sort_ints-Increasing [] h = tt
sort_ints-Increasing (n ∷ ns) (a, b, new, h) =
    insert_port-Increasing 0 n (sort_ints ns) a b (has_port-sort_ints n ns ∙ new)
      (sort_ints-Increasing ns h)

has_port-append :
    (k n : ℕ) (out : List ℕ) → has_port k (out ++ (n ∷ [])) ≡ (has_port k out || n == k)
has_port-append k n [] = ground arith
has_port-append k n (m ∷ ms) = ground (arith, has_port-append k n ms)

Sound-append :
    (n : ℕ) (out : List ℕ)
    → 0 < n
    → n ≤ 65535
    → has_port n out ≡ false
    → Sound out
    → Sound (out ++ (n ∷ []))
Sound-append n [] a b new h = (a, b, refl, tt)
Sound-append n (m ∷ ms) a b new (c, e, apart, h) = (
  c,
  e,
  has_port-append m n ms ∙ ground (arith, new, apart),
  Sound-append n ms a b (ground (arith, new)) h,
)

-- The part reads as this port.
abbrev pub names : PortText → ℕ → String → Bool
names t n part = elim (port_of t part) [ none ↦ false | some m ↦ m == n ]

port_of_bounds :
    (t : PortText) (part : String) (n : ℕ) → port_of t part ≡ some n → (0 < n) × (n ≤ 65535)
port_of_bounds t part n h = elim (Option-cases (t.atoi (t.trim_space part))) [
  | inl bad ↦ ground (arith, h, bad)
  | inr (m, read) ↦ ground (arith, h, read)
]

add_number-Sound : (n : ℕ) (out : List ℕ) → 0 < n → n ≤ 65535 → Sound out → Sound (add_number n out)
add_number-Sound n out a b h = elim (Bool-cases (has_port n out)) [
  | inl seen ↦ ground (arith, seen, h)
  | inr new ↦ subst Sound (sym (if-false out (out ++ (n ∷ [])) new)) (Sound-append n out a b new h)
]

has_port-add_number :
    (k n : ℕ) (out : List ℕ) → has_port k (add_number n out) ≡ (has_port k out || n == k)
has_port-add_number k n out = elim (Bool-cases (has_port n out)) [
  | inl seen ↦ ap (has_port k) (if-true out (out ++ (n ∷ [])) seen) ∙ again k n out seen
  | inr new ↦ ap (has_port k) (if-false out (out ++ (n ∷ [])) new) ∙ has_port-append k n out
]
  where
    again :
        (k n : ℕ) (out : List ℕ)
        → has_port n out ≡ true
        → has_port k out ≡ (has_port k out || n == k)
    again k n [] h = cc
    again k n (m ∷ ms) h = ground (arith, h, again k n ms)

add_part_cases :
    (t : PortText) (part : String) (out : List ℕ)
    → Sound out
    → Sound (add_part t part out)
      × ((k : ℕ) → has_port k (add_part t part out) ≡ (has_port k out || names t k part))
add_part_cases t part out h = elim (Option-cases (port_of t part)) [
  | inl bad ↦ (
    subst (λ o. Sound (elim o [ none ↦ out | some n ↦ add_number n out ])) (sym bad) h,
    λ k. ground (arith, bad),
  )
  | inr (n, read) ↦
      let (a, b) = port_of_bounds t part n read in
      let same : add_part t part out ≡ add_number n out =
        ap (λ o. elim o [ none ↦ out | some m ↦ add_number m out ]) read in
      (
        subst Sound (sym same) (add_number-Sound n out a b h),
        λ k. ap (has_port k) same ∙ (has_port-add_number k n out ∙ ground (arith, read)),
      )
]

collect_ports_cases :
    (t : PortText) (parts : List String) (out : List ℕ)
    → Sound out
    → Sound (collect_ports t parts out)
      × ((k : ℕ)
          → has_port k (collect_ports t parts out) ≡ (has_port k out || any_of (names t k) parts))
collect_ports_cases t [] out h = (h, λ k. ground arith)
collect_ports_cases t (part ∷ parts) out h =
    let (sound, named) = add_part_cases t part out h in
    let (sound', named') = collect_ports_cases t parts (add_part t part out) sound in
    (sound', λ k. named' k ∙ ground (arith, named k))

-- The ports that are read increase strictly and lie between 1 and 65535, and they are those that the parts
-- of the text name: spaces around a part, empty parts, texts that are no number, numbers out of range and
-- repetitions are passed over.
pub parse_ports_list-Increasing :
    (t : PortText) (raw : String) (ports : List ℕ)
    → parse_ports_list t raw ≡ some ports
    → Increasing 0 ports
      × ((k : ℕ) → has_port k ports ≡ any_of (names t k) (t.split (t.trim_space raw)))
unfolding parse_ports_list
parse_ports_list-Increasing t raw ports h =
    let out = collect_ports t (t.split (t.trim_space raw)) [] in
    let (sound, named) = collect_ports_cases t (t.split (t.trim_space raw)) [] tt in
    elim (Bool-cases (str_eq (t.trim_space raw) "")) [
      | inl blank ↦ ground (arith, h, blank)
      | inr full ↦
          let read = sym (if-false none (sorted_ports out) full) ∙ h in
          sorted_back out ports sound named read
    ]
  where
    sorted_back :
        (out ports : List ℕ)
        → Sound out
        → ((k : ℕ) → has_port k out ≡ any_of (names t k) (t.split (t.trim_space raw)))
        → sorted_ports out ≡ some ports
        → Increasing 0 ports
          × ((k : ℕ) → has_port k ports ≡ any_of (names t k) (t.split (t.trim_space raw)))
    sorted_back [] ports sound named read = cc
    sorted_back (n ∷ ns) ports sound named read =
        let same : sort_ints (n ∷ ns) ≡ ports = ground (arith, read) in
        (
          subst (Increasing 0) same (sort_ints-Increasing (n ∷ ns) sound),
          λ k. ap (has_port k) (sym same) ∙ (has_port-sort_ints k (n ∷ ns) ∙ named k),
        )
