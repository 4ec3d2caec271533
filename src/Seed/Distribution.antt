-- ===== src/Seed/Distribution.antt =====
-- The numbers of categories and severities that seed.py documents.
use soc_dashboard.Common.{
  ℕ, ◌≡◌, refl, sym, ap, ◌∙◌, subst, String, Bool, true, not, some, List, [], ◌∷◌, length,
  length-map, map, filter, All, arith, ◌==◌, text_eq, contains,
}
use soc_dashboard.Db.Statements.{severities}
use soc_dashboard.Seed.Random.{Stream}
use soc_dashboard.Seed.Alerts.{Draft, build_each, build_alerts, all_categories, all_severities}
use soc_dashboard.Seed.Yields.{Yields, Yields-pure, Yields-bind, Yields-imp}
use soc_dashboard.Seed.Addresses.{IsFair}
use soc_dashboard.Seed.Counts.{count, length-filter, Same, Same-length, Yields-shuffle}
use soc_dashboard.Seed.Known.{category_names}
use soc_dashboard.Seed.Drafts.{IsDraft, Yields-build_alert}

pub count-map :
    {A B : Type 0} (p : B → Bool) (f : A → B) (xs : List A)
    → count p (map f xs) ≡ count (λ x. p (f x)) xs
count-map p f [] = refl
count-map p f (x ∷ xs) = omega (arith, count-map p f xs)

none_fails :
    (q : String → Bool) (xs : List String)
    → count (λ x. not (q x)) xs ≡ 0
    → All (λ x. q x ≡ true) xs
none_fails q [] h = tt
none_fails q (x ∷ xs) h = (ground (arith, h), none_fails q xs (omega (arith, h)))

All-map_back :
    {A B : Type 0} (P : B → Type 0) (f : A → B) (xs : List A)
    → All P (map f xs)
    → All (λ x. P (f x)) xs
All-map_back P f [] h = tt
All-map_back P f (x ∷ xs) h = (h.0, All-map_back P f xs h.1)

-- Alerts whose categories and severities are those of the two lists.
record IsBuilt (now : ℕ) (categories severities : List String) (alerts : List Draft) : Type 0 where
  pub categories_of : map (λ d. d.category) alerts ≡ categories
  pub severities_of : map (λ d. d.severity) alerts ≡ severities
  pub each : All (λ d. IsDraft now d.category d.severity d) alerts

own_draft :
    (now : ℕ) (category severity : String) (d : Draft)
    → IsDraft now category severity d
    → IsDraft now d.category d.severity d
own_draft now category severity d h = record {
  category_of = refl;
  severity_of = refl;
  source_of = rw h.category_of h.source_of;
  past = h.past;
  recent = h.recent;
}

-- What `build_alerts` documents, and promises of each alert.
pub record IsDemo (now : ℕ) (alerts : List Draft) : Type 0 where
  pub size : length alerts ≡ 50
  pub brute_force : length (filter (λ d. d.category == "brute_force") alerts) ≡ 12
  pub malware : length (filter (λ d. d.category == "malware") alerts) ≡ 10
  pub phishing : length (filter (λ d. d.category == "phishing") alerts) ≡ 10
  pub port_scan : length (filter (λ d. d.category == "port_scan") alerts) ≡ 10
  pub anomaly : length (filter (λ d. d.category == "anomaly") alerts) ≡ 8
  pub critical : length (filter (λ d. d.severity == "CRITICAL") alerts) ≡ 8
  pub high : length (filter (λ d. d.severity == "HIGH") alerts) ≡ 15
  pub medium : length (filter (λ d. d.severity == "MEDIUM") alerts) ≡ 17
  pub low : length (filter (λ d. d.severity == "LOW") alerts) ≡ 10
  pub allowed : All (λ d. contains severities d.severity ≡ true) alerts
  pub each : All (λ d. IsDraft now d.category d.severity d) alerts

of_category :
    (now : ℕ) (cs ss : List String) (alerts : List Draft)
    → Same all_categories cs
    → IsBuilt now cs ss alerts
    → (c : String)
    → length (filter (λ d. d.category == c) alerts) ≡ count (λ x. x == c) all_categories
of_category now cs ss alerts same b c =
    length-filter (λ d. d.category == c) alerts
    ∙ sym (count-map (λ x. x == c) (λ d. d.category) alerts)
    ∙ ap (count (λ x. x == c)) b.categories_of
    ∙ same (λ x. x == c)

of_severity :
    (now : ℕ) (cs ss : List String) (alerts : List Draft)
    → Same all_severities ss
    → IsBuilt now cs ss alerts
    → (c : String)
    → length (filter (λ d. d.severity == c) alerts) ≡ count (λ x. x == c) all_severities
of_severity now cs ss alerts same b c =
    length-filter (λ d. d.severity == c) alerts
    ∙ sym (count-map (λ x. x == c) (λ d. d.severity) alerts)
    ∙ ap (count (λ x. x == c)) b.severities_of
    ∙ same (λ x. x == c)

built-IsDemo :
    (now : ℕ) (cs ss : List String) (alerts : List Draft)
    → Same all_categories cs
    → Same all_severities ss
    → IsBuilt now cs ss alerts
    → IsDemo now alerts
built-IsDemo now cs ss alerts same same' b =
    let category = of_category now cs ss alerts same b in
    let severity = of_severity now cs ss alerts same' b in
    record {
      size =
          sym (length-map (λ d. d.category) alerts)
          ∙ ap length b.categories_of
          ∙ Same-length all_categories cs same;
      brute_force = category "brute_force";
      malware = category "malware";
      phishing = category "phishing";
      port_scan = category "port_scan";
      anomaly = category "anomaly";
      critical = severity "CRITICAL";
      high = severity "HIGH";
      medium = severity "MEDIUM";
      low = severity "LOW";
      allowed =
          All-map_back (λ x. contains severities x ≡ true) (λ d. d.severity) alerts
            (subst (All (λ x. contains severities x ≡ true)) (sym b.severities_of)
              (none_fails (contains severities) ss (same' (λ c. not (contains severities c)))));
      each = b.each;
    }

module _ (stream : Stream) (fuel : ℕ) (fair : IsFair stream fuel) (now : ℕ) where
  Yields-build_each :
      (cs ss : List String)
      → length cs ≡ length ss
      → All (λ c. contains category_names c ≡ true) cs
      → Yields (build_each stream fuel now cs ss) (IsBuilt now cs ss)
  unfolding build_each
  Yields-build_each [] [] e h =
      Yields-pure [] _ (record { categories_of = refl; severities_of = refl; each = tt })
  Yields-build_each [] (s ∷ ss) e h = absurd (omega arith)
  Yields-build_each (c ∷ cs) [] e h = absurd (omega arith)
  Yields-build_each (c ∷ cs) (s ∷ ss) e h =
      Yields-bind _ _ (IsDraft now c s) _ (Yields-build_alert stream fuel fair now c s h.0)
        λ d draft.
          Yields-bind _ _ (IsBuilt now cs ss) _ (Yields-build_each cs ss (omega (arith, e)) h.1)
            λ rest b. Yields-pure (d ∷ rest) (IsBuilt now (c ∷ cs) (s ∷ ss)) (record {
              categories_of = rw (draft.category_of, b.categories_of) refl;
              severities_of = rw (draft.severity_of, b.severities_of) refl;
              each = (own_draft now c s d draft, b.each);
            })

  pub Yields-build_alerts : Yields (build_alerts stream fuel now) (IsDemo now)
  unfolding build_alerts
  Yields-build_alerts =
      Yields-bind _ _ (Same all_categories) _ (Yields-shuffle stream all_categories) λ cs hc.
        Yields-bind _ _ (Same all_severities) _ (Yields-shuffle stream all_severities) λ ss hs.
          Yields-imp _ (IsBuilt now cs ss) (IsDemo now)
            (Yields-build_each cs ss
              (Same-length all_categories cs hc ∙ sym (Same-length all_severities ss hs))
              (none_fails (contains category_names) cs (hc (λ c. not (contains category_names c)))))
            (λ alerts b. built-IsDemo now cs ss alerts hc hs b)

-- Where reserved first octets do not come `fuel` times in a row, `build_alerts` returns from any
-- position of the generator: 50 alerts, of the documented categories and severities, each with
-- its category's sensor as its source, not in the future and less than a week old.
pub build_alerts_lem :
    (stream : Stream) (fuel now c : ℕ)
    → IsFair stream fuel
    → (alerts : List Draft) × (c' : ℕ) × (build_alerts stream fuel now c ≡ some (alerts, c'))
      × IsDemo now alerts
build_alerts_lem stream fuel now c fair = (Yields-build_alerts stream fuel fair now).at c
