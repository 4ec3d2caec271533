-- ===== src/Validation/Accepted.antt =====
-- Which bodies the two ways in accept.
use soc_dashboard.Common.{
  String, Dict, ◌≡◌, ◌≢◌, ◌↔◌, true, arith, eq_iff, contains, text_eq, inl, inr, sym, ap, subst,
  false, Option, none, some, lookup, strip, upper, refl,
}
use soc_dashboard.Values.{
  ok, Value, null, str, other, Result-cases, get, strip_value, ok-injective, err-ok,
}
use soc_dashboard.Db.Statements.{severities}
use soc_dashboard.World.{Env}
use soc_dashboard.Validation.{
  Payload, severity_rank, has_key, read_payload, check_ingest_payload, parse_ingest_payload,
  check_kafka_payload, parse_kafka_payload,
}

-- The keys of SEVERITY_RANK are the severities of the table's CHECK.
pub has_key-severity_rank : (s : String) → has_key s severity_rank ≡ contains severities s
unfolding has_key
has_key-severity_rank s = ground (
  arith,
  eq_iff "CRITICAL" s,
  eq_iff "HIGH" s,
  eq_iff "MEDIUM" s,
  eq_iff "LOW" s,
  eq_iff s "CRITICAL",
  eq_iff s "HIGH",
  eq_iff s "MEDIUM",
  eq_iff s "LOW",
)

-- What both ways in demand of a payload, in the schema's terms.
abbrev pub IsComplete : Payload → Type 0
IsComplete p = (p.title ≢ "") × (p.category ≢ "") × (contains severities p.severity ≡ true)

check_ingest_payload-eq-ok :
    (q p : Payload)
    → (check_ingest_payload q ≡ ok p)
      ↔ ((q ≡ p) × (q.title ≢ "") × (q.category ≢ "") × (has_key q.severity severity_rank ≡ true))
unfolding check_ingest_payload
check_ingest_payload-eq-ok q p = ground (arith, eq_iff q.title "", eq_iff q.category "")

check_kafka_payload-eq-ok :
    (q p : Payload)
    → (check_kafka_payload q ≡ ok p)
      ↔ ((q ≡ p) × (q.title ≢ "") × (q.category ≢ "") × (has_key q.severity severity_rank ≡ true))
unfolding check_kafka_payload
check_kafka_payload-eq-ok q p = ground (arith, eq_iff q.title "", eq_iff q.category "")

checked_ingest :
    (env : Env) (body : Dict Value) (p : Payload)
    → (parse_ingest_payload env body ≡ ok p) ↔ ((read_payload env body ≡ ok p) × IsComplete p)
unfolding parse_ingest_payload
checked_ingest env body p = elim (Result-cases (read_payload env body)) [
  | inl (q, e) ↦
      rw e
        (rw (← has_key-severity_rank p.severity) (ground (arith, check_ingest_payload-eq-ok q p)))
  | inr (x, e) ↦ rw e (ground arith)
]

checked_kafka :
    (env : Env) (body : Dict Value) (p : Payload)
    → (parse_kafka_payload env body ≡ ok p) ↔ ((read_payload env body ≡ ok p) × IsComplete p)
unfolding parse_kafka_payload
checked_kafka env body p = elim (Result-cases (read_payload env body)) [
  | inl (q, e) ↦
      rw e (rw (← has_key-severity_rank p.severity) (ground (arith, check_kafka_payload-eq-ok q p)))
  | inr (x, e) ↦ rw e (ground arith)
]

-- The text that a field of a body stands for: a text without the spaces around it, the empty text
-- where the field is missing, null or another falsy value, and none where it is a truthy non-text.
abbrev pub StandsFor : Option Value → String → Type 0
StandsFor none t = t ≡ ""
StandsFor (some null) t = t ≡ ""
StandsFor (some (str s)) t = t ≡ strip s
StandsFor (some (other _ false _)) t = t ≡ ""
StandsFor (some (other _ true _)) t = ⊥

abbrev pub Stands : Dict Value → String → String → Type 0
Stands body key t = StandsFor (lookup key body) t

-- A payload is what a body says.
pub record IsReadFrom (env : Env) (body : Dict Value) (p : Payload) : Type 0 where
  pub given : String
  pub title : Stands body "title" p.title
  pub category : Stands body "category" p.category
  pub given_severity : Stands body "severity" given
  pub severity : p.severity ≡ upper env.upper_of given

strip_value_iff :
    (o : Option Value) (t : String)
    → (strip_value (elim o [ none ↦ null | some v ↦ v ]) ≡ ok t) ↔ StandsFor o t
unfolding strip_value
strip_value_iff none t = (λ h. sym (ok-injective h), λ h. ap ok (sym h))
strip_value_iff (some null) t = (λ h. sym (ok-injective h), λ h. ap ok (sym h))
strip_value_iff (some (str s)) t = (λ h. sym (ok-injective h), λ h. ap ok (sym h))
strip_value_iff (some (other k false s)) t = (λ h. sym (ok-injective h), λ h. ap ok (sym h))
strip_value_iff (some (other k true s)) t = (λ h. err-ok h, λ h. absurd h)

field_iff :
    (body : Dict Value) (key t : String) → (strip_value (get key body) ≡ ok t) ↔ Stands body key t
unfolding get
field_iff body key t = strip_value_iff (lookup key body) t

module _ (env : Env) (body : Dict Value) (p : Payload) where
  read_payload-IsReadFrom : read_payload env body ≡ ok p → IsReadFrom env body p
  unfolding read_payload
  read_payload-IsReadFrom h = elim (Result-cases (strip_value (get "title" body))) [
    | inr (x, e) ↦ absurd (err-ok (rw e at h))
    | inl (t, e) ↦ elim (Result-cases (strip_value (get "category" body))) [
      | inr (x, e') ↦ absurd (err-ok (rw (e, e') at h))
      | inl (c, e') ↦ elim (Result-cases (strip_value (get "severity" body))) [
        | inr (x, e'') ↦ absurd (err-ok (rw (e, e', e'') at h))
        | inl (s, e'') ↦
            let made = ok-injective (rw (e, e', e'') at h) in
            record {
              given = s;
              title =
                  subst (λ (q : Payload). Stands body "title" q.title) made
                    ((field_iff body "title" t).0 e);
              category =
                  subst (λ (q : Payload). Stands body "category" q.category) made
                    ((field_iff body "category" c).0 e');
              given_severity = (field_iff body "severity" s).0 e'';
              severity = ap (λ (q : Payload). q.severity) (sym made);
            }
      ]
    ]
  ]

  IsReadFrom-read_payload : IsReadFrom env body p → read_payload env body ≡ ok p
  unfolding read_payload
  IsReadFrom-read_payload r =
      rw
        (
          (field_iff body "title" p.title).1 r.title,
          (field_iff body "category" p.category).1 r.category,
          (field_iff body "severity" r.given).1 r.given_severity,
          ← r.severity,
        )
        refl

-- `POST /api/alerts` takes a body, as the given fields, exactly when these are what the body says
-- (the stripped title and category, and the severity stripped and in upper case), the title and the
-- category are not empty, and the severity is one that the table's CHECK allows.
pub parse_ingest_payload_iff :
    (env : Env) (body : Dict Value) (p : Payload)
    → (parse_ingest_payload env body ≡ ok p) ↔ (IsReadFrom env body p × IsComplete p)
parse_ingest_payload_iff env body p =
    let (to, from) = checked_ingest env body p in
    (
      λ h. (read_payload-IsReadFrom env body p (to h).0, (to h).1),
      λ h. from (IsReadFrom-read_payload env body p h.0, h.1),
    )

-- The Kafka path takes a body, as the given fields, under the same condition.
pub parse_kafka_payload_iff :
    (env : Env) (body : Dict Value) (p : Payload)
    → (parse_kafka_payload env body ≡ ok p) ↔ (IsReadFrom env body p × IsComplete p)
parse_kafka_payload_iff env body p =
    let (to, from) = checked_kafka env body p in
    (
      λ h. (read_payload-IsReadFrom env body p (to h).0, (to h).1),
      λ h. from (IsReadFrom-read_payload env body p h.0, h.1),
    )
