-- ===== src/World/Publishing.antt =====
-- What `_sse_publish` does to the state.
use soc_dashboard.Common.{
  ◌≡◌, refl, ap, ◌∙◌, inl, inr, Bool, true, false, Bool-cases, [], ◌∷◌, ◌++◌, arith,
}
use soc_dashboard.Values.{ok}
use soc_dashboard.Sse.{Event, publish}
use soc_dashboard.World.{Env, World, sse_publish}

pub db-sse_publish :
    (env : Env) (event : Event) (w : World) → (sse_publish env event w).1.session.db ≡ w.session.db
unfolding sse_publish
db-sse_publish env event w = ground arith

-- `event` went to every subscriber of this process, or to the Redis channel.
abbrev pub Published : Bool → Event → World → World → Type 0
Published false event w w' = (w'.sse ≡ publish event w.sse) × (w'.channel ≡ w.channel)
Published true event w w' = (w'.sse ≡ w.sse) × (w'.channel ≡ w.channel ++ event ∷ [])

pub sse_publish-ok :
    (env : Env) (event : Event) (w : World)
    → w.session.faults ≡ []
    → ((sse_publish env event w).0 ≡ ok tt)
      × Published env.has_redis event w (sse_publish env event w).1
unfolding sse_publish
sse_publish-ok env event w calm = elim (Bool-cases env.has_redis) [
  | inl redis ↦ rw (redis, calm) (refl, (refl, refl))
  | inr local ↦ rw local (refl, (refl, refl))
]

pub Published-after :
    (redis : Bool) (event : Event) (u v w : World)
    → v.sse ≡ u.sse
    → v.channel ≡ u.channel
    → Published redis event v w
    → Published redis event u w
Published-after false event u v w s c h = (h.0 ∙ ap (publish event) s, h.1 ∙ c)
Published-after true event u v w s c h = (h.0 ∙ s, h.1 ∙ ap (λ l. l ++ event ∷ []) c)
