-- ===== src/Seed/Drafts.antt =====
-- `build_alerts` returns, each with what is promised of it.
use soc_dashboard.Common.{
  ℕ, ◌+◌, ◌-◌, ◌*◌, ◌≤◌, ◌<◌, ◌≡◌, refl, sym, ap, ◌∙◌, String, true, some, [], ◌∷◌, arith, text_eq,
  contains, Bool-cases, inl, inr, lookup,
}
use soc_dashboard.Seed.Constants.{sources, hosts, users}
use soc_dashboard.Seed.Random.{Stream}
use soc_dashboard.Seed.Alerts.{
  Draft, fields_of, rand_internal_ip, host_part, draw_ip, draw_age, write_up, build_alert, minute,
}
use soc_dashboard.Seed.Yields.{
  Yields, Yields-pure, Yields-lift, Yields-bind, Yields-randint, Yields-choice, All-unit,
}
use soc_dashboard.Seed.Addresses.{IsFair, Yields-public}
use soc_dashboard.Seed.Known.{Known, FillsBoth, category_names, known}

-- What `build_alerts` promises of one alert: the category's source, and an age below a week.
pub record IsDraft (now : ℕ) (category severity : String) (d : Draft) : Type 0 where
  pub category_of : d.category ≡ category
  pub severity_of : d.severity ≡ severity
  pub source_of : lookup category sources ≡ some d.source
  pub past : d.created_at ≤ now
  pub recent : now < d.created_at + 7 * 24 * 60 * minute

module _ (stream : Stream) (fuel : ℕ) (fair : IsFair stream fuel) where
  abbrev Any : {A : Type 0} → A → Type 0
  Any a = Unit {0}

  Yields-host_part : (a high : ℕ) → Yields (host_part stream a high) Any
  unfolding host_part
  Yields-host_part a high =
      Yields-bind _ _ _ Any (Yields-randint stream 0 high (omega arith)) λ b hb.
        Yields-bind _ _ _ Any (Yields-randint stream 0 255 (omega arith)) λ c hc.
          Yields-bind _ _ _ Any (Yields-randint stream 1 254 (omega arith))
            λ d hd. Yields-pure _ Any tt

  Yields-draw_ip : (category : String) → Yields (draw_ip stream fuel category) Any
  unfolding draw_ip rand_internal_ip
  Yields-draw_ip category =
      elim (Bool-cases
        (contains ("brute_force" ∷ "port_scan" ∷ "phishing" ∷ "malware" ∷ []) category)) [
          | inl e ↦ rw e (Yields-public stream fuel fair)
          | inr e ↦ rw e (
              Yields-bind _ _ Any Any (Yields-public stream fuel fair) λ outer ho.
                Yields-bind _ _ Any Any (Yields-host_part 10 40) λ inner hi.
                  Yields-choice stream (outer ∷ inner ∷ []) Any (omega arith) (tt, (tt, tt)))
        ]

  Yields-draw_age : Yields (draw_age stream) (λ age. age < 7 * 24 * 60 * minute)
  unfolding draw_age
  Yields-draw_age = Yields-bind _ _ _ _ (Yields-randint stream 0 6 (omega arith)) λ days hd.
      Yields-bind _ _ _ _ (Yields-randint stream 0 23 (omega arith)) λ hours hh.
        Yields-bind _ _ _ _ (Yields-randint stream 0 59 (omega arith))
          λ minutes hm. Yields-pure _ _ (omega (arith, hd.1, hh.1, hm.1))

  Yields-write_up :
      (now : ℕ) (category severity : String) (k : Known category) (tpl : String × String)
      (host user ip : String) (n age : ℕ)
      → FillsBoth tpl
      → age < 7 * 24 * 60 * minute
      → Yields
          (write_up category severity tpl (fields_of host user ip n) ip (now - age))
          (IsDraft now category severity)
  Yields-write_up now category severity k tpl host user ip n age fills lt =
      let (title, et) = fills.0 host user ip n in
      let (text, ed) = fills.1 host user ip n in
      Yields-bind _ _ Any _ (Yields-lift _ title _ et tt) λ t ht.
        Yields-bind _ _ (λ s. s ≡ k.sensor) _ (Yields-lift _ k.sensor _ k.source_of refl)
          λ s hs. Yields-bind _ _ Any _ (Yields-lift _ text _ ed tt) λ d hd.
            Yields-pure _ _ (record {
              category_of = refl;
              severity_of = refl;
              source_of = k.source_of ∙ ap some (sym hs);
              past = omega arith;
              recent = omega (arith, lt);
            })

  pub Yields-build_alert :
      (now : ℕ) (category severity : String)
      → contains category_names category ≡ true
      → Yields (build_alert stream fuel now category severity) (IsDraft now category severity)
  unfolding build_alert
  Yields-build_alert now category severity h =
      let k = known category h in
      Yields-bind _ _ (λ t. t ≡ k.texts) _ (Yields-lift _ k.texts _ k.of_category refl)
        λ texts et.
          Yields-bind _ _ FillsBoth _
            (rw et (Yields-choice stream k.texts FillsBoth k.some_texts k.filled))
            λ tpl fills.
              Yields-bind _ _ Any _ (Yields-choice stream hosts Any (omega arith) (All-unit hosts))
                λ host hh.
                  Yields-bind _ _ Any _
                    (Yields-choice stream users Any (omega arith) (All-unit users))
                    λ user hu. Yields-bind _ _ Any _ (Yields-draw_ip category) λ ip hi.
                      Yields-bind _ _ _ _ (Yields-randint stream 8 240 (omega arith)) λ n hn.
                        Yields-bind _ _ _ _ Yields-draw_age λ age ha.
                          Yields-write_up now category severity k tpl host user ip n age fills ha
