-- ===== src/Access.antt =====
-- Who may call a view: `class User` and `require_role` of app.py. The session's user is an argument,
-- as Flask-Login found it; its `login_required` stands around the views, and is its own code.
use soc_dashboard.Common.{ℕ, String, Option, none, some, List, text_eq, contains, if◌then◌else◌}
use soc_dashboard.Values.{http}
use soc_dashboard.World.{Env, App, raise}

-- `class User`; `int(current_user.id)` gives back the number that `str` was applied to.
pub record User : Type 0 where
  pub id : ℕ
  pub username : String
  pub role : String

-- `require_role(*roles)`, on a view of the current user
unfoldable pub require_role :
    {A : Type 0} → Env → List String → Option User → (User → App A) → App A
require_role env roles none view = raise (http 401 env.unauthorized_description)
require_role env roles (some u) view =
    if contains roles u.role then view u else raise (http 403 "insufficient role")
