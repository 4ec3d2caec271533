-- ===== src/Seed/Alerts.antt =====
-- `rand_public_ip`, `rand_internal_ip` and `build_alerts` of seed.py. Times are in microseconds.
use Prim.Native.String.{◌++◌ as concat}
use soc_dashboard.Common.{
  ℕ, zero, suc, ◌+◌, ◌-◌, ◌*◌, ◌/◌, ◌%◌, code, String, Bool, true, false, Option, none, some, List,
  [], ◌∷◌, ◌++◌, ◌==◌, nat_eq, text_eq, contains, lookup, Dict, if◌then◌else◌, join, ◌≡◌, refl,
}
use soc_dashboard.Seed.Constants.{templates, sources, hosts, users}
use soc_dashboard.Seed.Random.{
  Stream, Draw, pure, lift, ◌>>=◌, nth, randint, choice, shuffle, repeat,
}

abbrev digits : List String
digits = "0" ∷ "1" ∷ "2" ∷ "3" ∷ "4" ∷ "5" ∷ "6" ∷ "7" ∷ "8" ∷ "9" ∷ []

abbrev or_empty : Option String → String
or_empty none = ""
or_empty (some s) = s

-- `str(n)`, for an n below 10 ** (fuel + 1)
unfoldable pub text_of : ℕ → ℕ → String
text_of zero n = or_empty (nth digits (n % 10))
text_of (suc fuel) n =
    let front = text_of fuel (n / 10) in
    concat (if n / 10 == 0 then "" else front) (or_empty (nth digits (n % 10)))

-- `tpl.format(**fields)`: `name` is what has been read since an open brace. Nothing where a field
-- is missing or a brace is not closed; doubled braces do not occur.
unfoldable pub format_from : Dict String → String → Bool → String → Option String
format_from fields name inside String.[] = if inside then none else some ""
format_from fields name false (String.◌∷◌ c s) = elim (code c == 123) [
  | true ↦ format_from fields "" true s
  | false ↦ elim (format_from fields "" false s) [
    | some rest ↦ some (String.◌∷◌ c rest)
    | none ↦ none
  ]
]
format_from fields name true (String.◌∷◌ c s) = elim (code c == 125) [
  | true ↦ elim (lookup name fields) [
    | none ↦ none
    | some value ↦ elim (format_from fields "" false s) [
      | some rest ↦ some (concat value rest)
      | none ↦ none
    ]
  ]
  | false ↦ format_from fields (concat name (String.◌∷◌ c "")) true s
]

unfoldable pub format : Dict String → String → Option String
format fields tpl = format_from fields "" false tpl

abbrev pub reserved_octets : List ℕ
reserved_octets = 10 ∷ 127 ∷ 169 ∷ 172 ∷ 192 ∷ []

unfoldable pub is_reserved : ℕ → Bool
is_reserved a = contains reserved_octets a

-- f"{a}.{b}.{c}.{d}"
abbrev pub dotted : ℕ → ℕ → ℕ → ℕ → String
dotted a b c d = join "." (text_of 2 a ∷ text_of 2 b ∷ text_of 2 c ∷ text_of 2 d ∷ [])

-- A dict of `build_alerts`.
pub record Draft : Type 0 where
  pub title : String
  pub category : String
  pub severity : String
  pub source : String
  pub source_ip : String
  pub description : String
  pub created_at : ℕ

abbrev pub minute : ℕ
minute = 60 * 1_000_000

abbrev pub fields_of : String → String → String → ℕ → Dict String
fields_of host user ip n = ("host", host) ∷ ("user", user) ∷ ("ip", ip) ∷ ("n", text_of 2 n) ∷ []

abbrev pub write_up : String → String → String × String → Dict String → String → ℕ → Draw Draft
write_up category severity tpl fields ip created_at = do
  title ← lift (format fields tpl.0)
  source ← lift (lookup category sources)
  description ← lift (format fields tpl.1)
  pure (record {
    title = title;
    category = category;
    severity = severity;
    source = source;
    source_ip = ip;
    description = description;
    created_at = created_at;
  })

abbrev pub all_categories : List String
all_categories =
    repeat 12 "brute_force"
    ++ repeat 10 "malware"
    ++ repeat 10 "phishing"
    ++ repeat 10 "port_scan"
    ++ repeat 8 "anomaly"

abbrev pub all_severities : List String
all_severities = repeat 8 "CRITICAL" ++ repeat 15 "HIGH" ++ repeat 17 "MEDIUM" ++ repeat 10 "LOW"

module _ (stream : Stream) where
  unfoldable pub host_part : ℕ → ℕ → Draw String
  host_part a high = do
    b ← randint stream 0 high
    c ← randint stream 0 255
    d ← randint stream 1 254
    pure (dotted a b c d)

  -- A reserved first octet is drawn again.
  abbrev pub accept : ℕ → Bool → Draw String → Draw String
  accept a true again = again
  accept a false again = host_part a 255

  -- `rand_public_ip`: its loop draws until a first octet is not reserved, `fuel` times at most.
  unfoldable pub rand_public_ip : ℕ → Draw String
  rand_public_ip zero = λ c. none
  rand_public_ip (suc fuel) = do
    a ← randint stream 1 223
    accept a (is_reserved a) (rand_public_ip fuel)

  unfoldable pub rand_internal_ip : Draw String
  rand_internal_ip = host_part 10 40

  unfoldable pub draw_ip : ℕ → String → Draw String
  draw_ip fuel category =
      if contains ("brute_force" ∷ "port_scan" ∷ "phishing" ∷ "malware" ∷ []) category
      then rand_public_ip fuel
      else do
        outer ← rand_public_ip fuel
        inner ← rand_internal_ip
        choice stream (outer ∷ inner ∷ [])

  -- The age that is drawn for an alert.
  unfoldable pub draw_age : Draw ℕ
  draw_age = do
    days ← randint stream 0 6
    hours ← randint stream 0 23
    minutes ← randint stream 0 59
    pure (((days * 24 + hours) * 60 + minutes) * minute)

  -- One round of the loop of `build_alerts`.
  unfoldable pub build_alert : ℕ → ℕ → String → String → Draw Draft
  build_alert fuel now category severity = do
    of_category ← lift (lookup category templates)
    tpl ← choice stream of_category
    host ← choice stream hosts
    user ← choice stream users
    ip ← draw_ip fuel category
    n ← randint stream 8 240
    age ← draw_age
    write_up category severity tpl (fields_of host user ip n) ip (now - age)

  -- `zip(…, strict=True)` raises where one list ends first.
  unfoldable pub build_each : ℕ → ℕ → List String → List String → Draw (List Draft)
  build_each fuel now [] [] = pure []
  build_each fuel now (category ∷ categories) (severity ∷ severities) = do
    alert ← build_alert fuel now category severity
    rest ← build_each fuel now categories severities
    pure (alert ∷ rest)
  build_each fuel now _ _ = λ c. none

  -- `build_alerts`
  unfoldable pub build_alerts : ℕ → ℕ → Draw (List Draft)
  build_alerts fuel now = do
    categories ← shuffle stream all_categories
    severities ← shuffle stream all_severities
    build_each fuel now categories severities

rand_public_ip_test : rand_public_ip (λ i. i + 9) 3 0 ≡ some ("11.11.12.14", 5)
unfolding rand_public_ip randint ◌>>=◌ is_reserved host_part text_of join
rand_public_ip_test = refl

format_test :
    format (("n", "12") ∷ ("ip", "10.1.1.1") ∷ []) "{n} fails from {ip}."
    ≡ some "12 fails from 10.1.1.1."
unfolding format format_from lookup
format_test = refl
