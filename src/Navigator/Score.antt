-- ===== src/Navigator/Score.antt =====
-- The Navigator layer against the rows that it is made of.
use soc_dashboard.Common.{
  ℕ, ◌+◌, ◌≡◌, refl, ap, max, String, Option, none, some, List, [], ◌∷◌, ◌==◌, text_eq, Dict,
  lookup, insert, lookup-insert, map, All, if◌then◌else◌, arith, eq_iff, Bool-cases, inl, inr,
}
use soc_dashboard.Navigator.{
  category_mitre, Group, Technique, score_of, improves, add_technique, add_rows, navigator_layer,
}

-- The score that a row of a category gives a technique, and the greatest one.
abbrev gives : String → ℕ → Option String → ℕ
gives tid score none = 0
gives tid score (some t) = if t == tid then score else 0

abbrev pub greatest : String → List Group → ℕ
greatest tid [] = 0
greatest tid (row ∷ rows) =
    max (gives tid (score_of row.severity) (lookup row.category category_mitre)) (greatest tid rows)

abbrev pub total_count : List Group → ℕ
total_count [] = 0
total_count (row ∷ rows) = row.c + total_count rows

abbrev score_found : Option Technique → ℕ
score_found none = 0
score_found (some t) = t.score

-- The score of a technique in the layer's list, 0 where it is not listed.
abbrev pub score_in : String → List Technique → ℕ
score_in tid [] = 0
score_in tid (t ∷ ts) = if t.technique_id == tid then t.score else score_in tid ts

-- An entry names a row, of a category of its technique, whose severity has the entry's score.
abbrev pub IsBacked : Technique → Type 0
IsBacked t =
    (lookup t.comment_of.category category_mitre ≡ some t.technique_id)
    × (t.score ≡ score_of t.comment_of.severity)

abbrev IsEntry : String × Technique → Type 0
IsEntry e = (e.1.technique_id ≡ e.0) × IsBacked e.1

improves-max :
    (score : ℕ) (o : Option Technique)
    → (if improves score o then score else score_found o) ≡ max (score_found o) score
unfolding improves
improves-max score none = omega arith
improves-max score (some t) = ground arith

score-add_technique :
    (tid : String) (row : Group) (o : Option String) (d : Dict Technique)
    → score_found (lookup tid (add_technique row o d))
      ≡ max (score_found (lookup tid d)) (gives tid (score_of row.severity) o)
unfolding add_technique
score-add_technique tid row none d = omega arith
score-add_technique tid row (some t) d =
    let new : Technique = record {
      technique_id = t;
      score = score_of row.severity;
      comment_of = row;
    } in
    let f = ap score_found (lookup-insert t tid new d) in
    ground (arith, f, improves-max (score_of row.severity) (lookup t d), eq_iff t tid)

total-add_rows :
    (rows : List Group) (n : ℕ) (d : Dict Technique) → (add_rows rows n d).0 ≡ n + total_count rows
unfolding add_rows
total-add_rows [] n d = omega arith
total-add_rows (row ∷ rows) n d = omega (
  arith,
  total-add_rows rows (n + row.c) (add_technique row (lookup row.category category_mitre) d),
)

score-add_rows :
    (tid : String) (rows : List Group) (n : ℕ) (d : Dict Technique)
    → score_found (lookup tid (add_rows rows n d).1)
      ≡ max (score_found (lookup tid d)) (greatest tid rows)
unfolding add_rows
score-add_rows tid [] n d = omega arith
score-add_rows tid (row ∷ rows) n d =
    let o = lookup row.category category_mitre in
    omega (
      arith,
      score-add_rows tid rows (n + row.c) (add_technique row o d),
      score-add_technique tid row o d,
    )

All-insert :
    (k : String) (t : Technique) (d : Dict Technique)
    → IsEntry (k, t)
    → All IsEntry d
    → All IsEntry (insert k t d)
unfolding insert
All-insert k t [] h hd = (h, tt)
All-insert k t ((j, u) ∷ d) h hd = elim (Bool-cases (j == k)) [
  | inl e ↦ rw e (h, hd.1)
  | inr e ↦ rw e (hd.0, All-insert k t d h hd.1)
]

IsEntry-add_technique :
    (row : Group) (o : Option String) (d : Dict Technique)
    → lookup row.category category_mitre ≡ o
    → All IsEntry d
    → All IsEntry (add_technique row o d)
unfolding add_technique
IsEntry-add_technique row none d e hd = hd
IsEntry-add_technique row (some t) d e hd =
    elim (Bool-cases (improves (score_of row.severity) (lookup t d))) [
      | inl b ↦ rw b (All-insert t _ d (refl, (e, refl)) hd)
      | inr b ↦ rw b hd
    ]

IsEntry-add_rows :
    (rows : List Group) (n : ℕ) (d : Dict Technique)
    → All IsEntry d
    → All IsEntry (add_rows rows n d).1
unfolding add_rows
IsEntry-add_rows [] n d hd = hd
IsEntry-add_rows (row ∷ rows) n d hd =
    IsEntry-add_rows rows _ _ (IsEntry-add_technique row _ d refl hd)

score_in-map :
    (tid : String) (d : Dict Technique)
    → All IsEntry d
    → score_in tid (map (λ e. e.1) d) ≡ score_found (lookup tid d)
unfolding lookup
score_in-map tid [] hd = refl
score_in-map tid ((k, t) ∷ d) hd =
    ground (arith, eq_iff k tid, eq_iff t.technique_id tid, hd.0.0, score_in-map tid d hd.1)

IsBacked-map : (d : Dict Technique) → All IsEntry d → All IsBacked (map (λ e. e.1) d)
IsBacked-map [] hd = tt
IsBacked-map (e ∷ d) hd = (hd.0.1, IsBacked-map d hd.1)

missing : (tid : String) → score_found (lookup tid []) ≡ 0
unfolding lookup
missing tid = refl

-- What the layer says of any rows: the total is the sum of the counts; the score of a technique is
-- the greatest score that a row of one of its categories has, and 0 where there is no such
-- row; and each entry's comment names a row of a category of that technique whose
-- severity has the entry's score.
pub navigator_layer_lem :
    (rows : List Group) (tid : String)
    → ((navigator_layer rows).total ≡ total_count rows)
      × (score_in tid (navigator_layer rows).techniques ≡ greatest tid rows)
      × All IsBacked (navigator_layer rows).techniques
unfolding navigator_layer
navigator_layer_lem rows tid =
    let entries = IsEntry-add_rows rows 0 [] tt in
    (
      omega (arith, total-add_rows rows 0 []),
      omega (arith, score-add_rows tid rows 0 [], score_in-map tid _ entries, missing tid),
      IsBacked-map _ entries,
    )
