-- ===== src/World/Failure.antt =====
-- Answers that report an error.
use soc_dashboard.Common.{ℕ, String, ◌≡◌, refl}
use soc_dashboard.Values.{Exn, http}
use soc_dashboard.World.{Response, failure, error_response}

abbrev pub IsFailure : {A : Type 0} → Response A → Type 0
IsFailure reply = (code : ℕ) × (message : String) × (reply ≡ failure code message)

pub error_response-IsFailure : {A : Type 0} (e : Exn) → IsFailure (error_response {A = A} e)
unfolding error_response
error_response-IsFailure (http code text) = (code, text, refl)
error_response-IsFailure _ = (500, "internal server error", refl)
