-- ===== src/Embedding.antt =====
-- The embedding model of app.py: loaded on the first call, never tried again after a failure.
use soc_dashboard.Common.{String, Bool, true, false, Option, none, some, List, [], ◌∷◌, join}
use soc_dashboard.Common.{if◌then◌else◌}
use Prim.Native.String.{◌++◌}
use soc_dashboard.Values.{
  Result, ok, err, type_error, model_error, Value, null, str, other, truthy, ◌>>=◌,
}
use soc_dashboard.World.{Env, Model, ModelState, unloaded, unavailable, loaded, App}

-- `_EMBEDDING_MODEL` after `_get_embedding_model`
unfoldable pub ensure_model : Option Model → ModelState → ModelState
ensure_model (some m) unloaded = loaded m
ensure_model none unloaded = unavailable
ensure_model _ unavailable = unavailable
ensure_model _ (loaded m) = loaded m

abbrev pub usable : ModelState → Option Model
usable unloaded = none
usable unavailable = none
usable (loaded m) = some m

unfoldable pub get_embedding_model : Env → App (Option Model)
unfolding ensure_model
get_embedding_model env w =
    let state = ensure_model env.load_model w.embedding_model in
    (ok (usable state), record w { embedding_model = state })

unfoldable pub embeddings_available : ModelState → Bool
embeddings_available unavailable = false
embeddings_available unloaded = true
embeddings_available (loaded _) = true

-- "[" + ",".join(…) + "]"
abbrev pub vector_literal : List String → String
vector_literal components = "[" ++ (join "," components ++ "]")

abbrev pub embedded : Option (List String) → Result (Option String)
embedded none = err model_error
embedded (some components) = ok (some (vector_literal components))

abbrev pub embed_with : String → Option Model → Result (Option String)
embed_with text none = ok none
embed_with text (some m) = embedded (m text)

unfoldable pub embed_text : Env → String → App (Option String)
unfolding get_embedding_model join
embed_text env text w =
    let (found, w') = get_embedding_model env w in (found >>= embed_with text, w')

-- `filter(None, …)` under `" ".join(…)`, which takes texts alone.
unfoldable pub truthy_texts : List Value → Result (List String)
truthy_texts [] = ok []
truthy_texts (null ∷ rest) = truthy_texts rest
truthy_texts (str s ∷ rest) = do
  texts ← truthy_texts rest
  ok (if truthy (str s) then s ∷ texts else texts)
truthy_texts (other _ false _ ∷ rest) = truthy_texts rest
truthy_texts (other _ true _ ∷ rest) = err type_error
