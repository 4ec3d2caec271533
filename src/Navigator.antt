-- ===== src/Navigator.antt =====
-- `api_navigator_layer` of app.py, from the rows of its GROUP BY query on. Of the layer, the parts
-- that depend on the rows are kept: the techniques and the total of the description.
pub mod Score
use soc_dashboard.Common.{
  ℕ, ◌+◌, String, Bool, true, Option, none, some, List, [], ◌∷◌, ◌==◌, text_eq, ltb, Dict, lookup,
  insert, map, if◌then◌else◌,
}

-- `_CATEGORY_MITRE`
abbrev pub category_mitre : Dict String
category_mitre =
    ("brute_force", "T1110.001")
    ∷ ("port_scan", "T1046")
    ∷ ("malware", "T1059")
    ∷ ("phishing", "T1566")
    ∷ ("anomaly", "T1078")
    ∷ []

-- `_NAVIGATOR_SCORE`
abbrev pub navigator_score : Dict ℕ
navigator_score = ("CRITICAL", 100) ∷ ("HIGH", 75) ∷ ("MEDIUM", 50) ∷ ("LOW", 25) ∷ []

-- A row of SELECT category, severity, count(*) AS c … GROUP BY category, severity.
pub record Group : Type 0 where
  pub category : String
  pub severity : String
  pub c : ℕ

-- An entry of `techniques`: the comment names its three parts.
pub record Technique : Type 0 where
  pub technique_id : String
  pub score : ℕ
  pub comment_of : Group

-- `_NAVIGATOR_SCORE.get(sev, 25)`
unfoldable pub score_of : String → ℕ
score_of sev = elim (lookup sev navigator_score) [ none ↦ 25 | some n ↦ n ]

-- `tid not in techniques or score > techniques[tid]["score"]`
unfoldable pub improves : ℕ → Option Technique → Bool
improves score none = true
improves score (some t) = ltb t.score score

unfoldable pub add_technique : Group → Option String → Dict Technique → Dict Technique
add_technique row none d = d
add_technique row (some tid) d =
    if improves (score_of row.severity) (lookup tid d)
    then insert tid (record { technique_id = tid; score = score_of row.severity; comment_of = row })
        d
    else d

-- The loop over the rows, with `total`.
unfoldable pub add_rows : List Group → ℕ → Dict Technique → ℕ × Dict Technique
add_rows [] total d = (total, d)
add_rows (row ∷ rows) total d =
    add_rows rows (total + row.c) (add_technique row (lookup row.category category_mitre) d)

pub record Layer : Type 0 where
  pub total : ℕ
  pub techniques : List Technique

unfoldable pub navigator_layer : List Group → Layer
navigator_layer rows =
    let (total, d) = add_rows rows 0 [] in record { total = total; techniques = map (λ e. e.1) d }
