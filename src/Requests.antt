-- ===== src/Requests.antt =====
-- What `api_classify` and `api_add_note` of app.py read from a request body.
use soc_dashboard.Common.{
  String, Option, none, some, [], ◌∷◌, ◌==◌, text_eq, Dict, lookup, if◌then◌else◌,
}
use soc_dashboard.Values.{
  Exn, http, type_error, Result, ok, err, boolean, number, array, mapping, Value, null, str, other,
  get, strip_value, ◌>>=◌,
}

-- `ACTION_TO_STATUS`
abbrev pub action_to_status : Dict String
action_to_status =
    ("classify_tp", "true_positive")
    ∷ ("classify_fp", "false_positive")
    ∷ ("escalate", "escalated")
    ∷ []

pub record Verdict : Type 0 where
  pub action : String
  pub status : String

abbrev pub unknown_action : Exn
unknown_action = http 400 "action must be classify_tp, classify_fp or escalate"

abbrev pub verdict_at : String → Option String → Result Verdict
verdict_at action none = err unknown_action
verdict_at action (some status) = ok (record { action = action; status = status })

-- `action not in ACTION_TO_STATUS` and the status after it: a list or a dict has no hash.
unfoldable pub verdict : Value → Result Verdict
unfolding lookup
verdict null = err unknown_action
verdict (str s) = verdict_at s (lookup s action_to_status)
verdict (other boolean _ _) = err unknown_action
verdict (other number _ _) = err unknown_action
verdict (other array _ _) = err type_error
verdict (other mapping _ _) = err type_error

abbrev pub require_text : String → String → Result String
require_text s message = if s == "" then err (http 400 message) else ok s

-- The analyst's name of a classify request, stripped.
unfoldable pub read_analyst : Dict Value → Result String
read_analyst body =
    strip_value (get "analyst" body) >>= λ name. require_text name "analyst is required"

-- The text of an add-note request, stripped.
unfoldable pub read_note : Dict Value → Result String
read_note body = strip_value (get "note" body) >>= λ note. require_text note "note is required"
