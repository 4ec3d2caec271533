-- ===== src/Seed/Known.antt =====
-- The templates of seed.py can all be filled in, and each category has its sensor.
use soc_dashboard.Common.{
  ℕ, ◌<◌, ◌≡◌, refl, sym, subst, String, true, some, List, [], ◌∷◌, length, All, arith, ◌==◌,
  text_eq, contains, Bool-cases, inl, inr, lookup, eq_iff,
}
use soc_dashboard.Seed.Constants.{templates, sources}
use soc_dashboard.Seed.Alerts.{format, format_from, fields_of, text_of}

-- A template that can be filled in with any values of the four fields.
abbrev pub Fills : String → Type 0
Fills tpl =
    (host user ip : String) (n : ℕ)
    → (s : String) × (format (fields_of host user ip n) tpl ≡ some s)

abbrev pub FillsBoth : String × String → Type 0
FillsBoth tpl = Fills tpl.0 × Fills tpl.1

abbrev pub category_names : List String
category_names = "brute_force" ∷ "malware" ∷ "phishing" ∷ "port_scan" ∷ "anomaly" ∷ []

-- A category with a source and with templates that can be filled in.
pub record Known (category : String) : Type 0 where
  pub texts : List (String × String)
  pub of_category : lookup category templates ≡ some texts
  pub some_texts : 0 < length texts
  pub filled : All FillsBoth texts
  pub sensor : String
  pub source_of : lookup category sources ≡ some sensor

brute_force-Known : Known "brute_force"
unfolding format format_from lookup text_of
brute_force-Known = record {
  texts = _;
  of_category = refl;
  some_texts = omega arith;
  filled = (
    (λ h u i n. (_, refl), λ h u i n. (_, refl)),
    (
      (λ h u i n. (_, refl), λ h u i n. (_, refl)),
      (
        (λ h u i n. (_, refl), λ h u i n. (_, refl)),
        (
          (λ h u i n. (_, refl), λ h u i n. (_, refl)),
          ((λ h u i n. (_, refl), λ h u i n. (_, refl)), tt),
        ),
      ),
    ),
  );
  sensor = _;
  source_of = refl;
}

malware-Known : Known "malware"
unfolding format format_from lookup text_of
malware-Known = record {
  texts = _;
  of_category = refl;
  some_texts = omega arith;
  filled = (
    (λ h u i n. (_, refl), λ h u i n. (_, refl)),
    (
      (λ h u i n. (_, refl), λ h u i n. (_, refl)),
      (
        (λ h u i n. (_, refl), λ h u i n. (_, refl)),
        (
          (λ h u i n. (_, refl), λ h u i n. (_, refl)),
          ((λ h u i n. (_, refl), λ h u i n. (_, refl)), tt),
        ),
      ),
    ),
  );
  sensor = _;
  source_of = refl;
}

phishing-Known : Known "phishing"
unfolding format format_from lookup text_of
phishing-Known = record {
  texts = _;
  of_category = refl;
  some_texts = omega arith;
  filled = (
    (λ h u i n. (_, refl), λ h u i n. (_, refl)),
    (
      (λ h u i n. (_, refl), λ h u i n. (_, refl)),
      (
        (λ h u i n. (_, refl), λ h u i n. (_, refl)),
        (
          (λ h u i n. (_, refl), λ h u i n. (_, refl)),
          ((λ h u i n. (_, refl), λ h u i n. (_, refl)), tt),
        ),
      ),
    ),
  );
  sensor = _;
  source_of = refl;
}

port_scan-Known : Known "port_scan"
unfolding format format_from lookup text_of
port_scan-Known = record {
  texts = _;
  of_category = refl;
  some_texts = omega arith;
  filled = (
    (λ h u i n. (_, refl), λ h u i n. (_, refl)),
    (
      (λ h u i n. (_, refl), λ h u i n. (_, refl)),
      (
        (λ h u i n. (_, refl), λ h u i n. (_, refl)),
        (
          (λ h u i n. (_, refl), λ h u i n. (_, refl)),
          ((λ h u i n. (_, refl), λ h u i n. (_, refl)), tt),
        ),
      ),
    ),
  );
  sensor = _;
  source_of = refl;
}

anomaly-Known : Known "anomaly"
unfolding format format_from lookup text_of
anomaly-Known = record {
  texts = _;
  of_category = refl;
  some_texts = omega arith;
  filled = (
    (λ h u i n. (_, refl), λ h u i n. (_, refl)),
    (
      (λ h u i n. (_, refl), λ h u i n. (_, refl)),
      (
        (λ h u i n. (_, refl), λ h u i n. (_, refl)),
        (
          (λ h u i n. (_, refl), λ h u i n. (_, refl)),
          ((λ h u i n. (_, refl), λ h u i n. (_, refl)), tt),
        ),
      ),
    ),
  );
  sensor = _;
  source_of = refl;
}

pub contained :
    (P : String → Type 0) (names : List String) (s : String)
    → All P names
    → contains names s ≡ true
    → P s
contained P [] s h e = absurd (cc)
contained P (name ∷ names) s h e = elim (Bool-cases (s == name)) [
  | inl same ↦ subst P (sym ((eq_iff s name).0 same)) h.0
  | inr other ↦ contained P names s h.1 (ground arith)
]

pub known : (category : String) → contains category_names category ≡ true → Known category
known category =
    contained Known category_names category
      (brute_force-Known, (malware-Known, (phishing-Known, (port_scan-Known, (anomaly-Known, tt)))))
