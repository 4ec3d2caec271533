-- ===== src/Seed/Ranges.antt =====
-- The ranges of seed.py against the targets of app.py.
use soc_dashboard.Common.{
  zero, suc, ℕ, ◌^◌, ◌≤◌, ◌<◌, ◌≡◌, refl, String, true, false, some, ◌++◌, All, All-append, arith,
  ◌==◌, text_eq, contains, lookup,
}
use soc_dashboard.Db.Statements.{severities, statuses}
use soc_dashboard.Requests
use soc_dashboard.Sla.{sla_seconds}
use soc_dashboard.Seed.Constants.{action_to_status}
use soc_dashboard.Seed.Random.{repeat}
use soc_dashboard.Seed.Ages.{open_age, get_or}
use soc_dashboard.Seed.Main.{response_range, action_pool}
use soc_dashboard.Seed.Known.{contained}

abbrev pub ages : String → ℕ × ℕ
ages severity = get_or (10, 60) (lookup severity open_age)

abbrev pub responses : String → ℕ × ℕ
responses severity = get_or (300, 3600) (lookup severity response_range)

-- Both ranges of a severity are ranges, and its longest response is within its target.
pub record IsInTime (severity : String) : Type 0 where
  pub target : ℕ
  pub target_of : lookup severity sla_seconds ≡ some target
  pub ages_range : (ages severity).0 ≤ (ages severity).1
  pub responses_range : (responses severity).0 ≤ (responses severity).1
  pub in_time : (responses severity).1 ≤ target
  pub small : (responses severity).1 < 2 ^ 31

critical-IsInTime : IsInTime "CRITICAL"
unfolding lookup
critical-IsInTime = record {
  target = _;
  target_of = refl;
  ages_range = omega arith;
  responses_range = omega arith;
  in_time = omega arith;
  small = omega arith;
}

high-IsInTime : IsInTime "HIGH"
unfolding lookup
high-IsInTime = record {
  target = _;
  target_of = refl;
  ages_range = omega arith;
  responses_range = omega arith;
  in_time = omega arith;
  small = omega arith;
}

medium-IsInTime : IsInTime "MEDIUM"
unfolding lookup
medium-IsInTime = record {
  target = _;
  target_of = refl;
  ages_range = omega arith;
  responses_range = omega arith;
  in_time = omega arith;
  small = omega arith;
}

low-IsInTime : IsInTime "LOW"
unfolding lookup
low-IsInTime = record {
  target = _;
  target_of = refl;
  ages_range = omega arith;
  responses_range = omega arith;
  in_time = omega arith;
  small = omega arith;
}

pub in_time : (severity : String) → contains severities severity ≡ true → IsInTime severity
in_time severity =
    contained IsInTime severities severity
      (critical-IsInTime, (high-IsInTime, (medium-IsInTime, (low-IsInTime, tt))))

-- An action that closes an alert, in seed.py as in app.py.
pub record IsAction (action : String) : Type 0 where
  pub status : String
  pub status_of : lookup action action_to_status ≡ some status
  pub same_status : lookup action Requests.action_to_status ≡ some status
  pub allowed : contains statuses status ≡ true
  pub closed : (status == "open") ≡ false

All-repeat : {A : Type 0} (P : A → Type 0) (n : ℕ) (x : A) → P x → All P (repeat n x)
All-repeat P zero x h = tt
All-repeat P (suc n) x h = (h, All-repeat P n x h)

classify_tp-IsAction : IsAction "classify_tp"
unfolding lookup
classify_tp-IsAction = record {
  status = _;
  status_of = refl;
  same_status = refl;
  allowed = refl;
  closed = refl;
}

classify_fp-IsAction : IsAction "classify_fp"
unfolding lookup
classify_fp-IsAction = record {
  status = _;
  status_of = refl;
  same_status = refl;
  allowed = refl;
  closed = refl;
}

escalate-IsAction : IsAction "escalate"
unfolding lookup
escalate-IsAction = record {
  status = _;
  status_of = refl;
  same_status = refl;
  allowed = refl;
  closed = refl;
}

pub pool_actions : All IsAction action_pool
pool_actions =
    All-append IsAction (repeat 11 "classify_tp") (repeat 7 "classify_fp" ++ repeat 2 "escalate")
      (All-repeat IsAction 11 "classify_tp" classify_tp-IsAction)
      (All-append IsAction (repeat 7 "classify_fp") (repeat 2 "escalate")
        (All-repeat IsAction 7 "classify_fp" classify_fp-IsAction)
        (All-repeat IsAction 2 "escalate" escalate-IsAction))
