-- ===== src/Changes/Overlap.antt =====
-- Two overlapping classify calls both succeed.
use soc_dashboard.Common.{
  ℕ, ◌≡◌, refl, ap, subst, ◌∙◌, true, some, List, [], ◌∷◌, ◌++◌, arith, ◌==◌, nat_eq, text_eq,
  eq_iff, inl, inr,
}
use soc_dashboard.Values.{ok}
use soc_dashboard.Db.{Alert, AnalystAction, Db}
use soc_dashboard.Db.Session.{Session, leave, spend, later}
use soc_dashboard.Db.Settles.{Settles, Settles-pure, Settles-execute_then, Settles-lift_then}
use soc_dashboard.Db.Statements.{find_alert, has_user, close_row, select_alert}
use soc_dashboard.World.{Env}
use soc_dashboard.Changes.{look_tx}
use soc_dashboard.Changes.Effects.{find_alert-update_rows, action_row}
use soc_dashboard.System.History.{actions_of, actions_of-append}
use soc_dashboard.Changes.Race.{
  Call, Stage, race, begun, has_read, has_closed, Race, read_stage, close_stage, close_turn, Turn,
  first_reads, second_reads, first_closes, second_closes, Turns, no_turn, then_turn,
}
use soc_dashboard.Changes.Closing.{IsReady, HasClosed, Settles-close_tx}

-- A block that settles, with its commit, where no call fails.
abbrev Commits : Env → ℕ → Call → Alert → Session → Type 0
Commits env alert_id c a s =
    (shown : Alert) × (s' : Session) × (close_turn env alert_id c a s ≡ (ok shown, s'))
    × (s'.faults ≡ [])
    × HasClosed alert_id c a s.now s.db s'.db
    × (s'.now ≡ s.now)

close_turn_lem :
    (env : Env) (alert_id : ℕ) (c : Call) (a row : Alert) (s : Session)
    → IsReady env alert_id c a.created_at s.now row s.db
    → s.faults ≡ []
    → Commits env alert_id c a s
unfolding leave
close_turn_lem env alert_id c a row s h calm = elim (Settles-close_tx env alert_id c a row s h).at [
  | inr (e, s', raised, faulty) ↦ absurd (faulty calm)
  | inl (shown, s', done, kept, (closed, same)) ↦
      let quiet : s'.faults ≡ [] = kept calm in
      (shown, spend s', rw (done, quiet) refl, ap later quiet, closed, same)
]

look_tx_lem :
    (alert_id : ℕ) (a : Alert) (s : Session)
    → find_alert alert_id s.db.tables.alerts ≡ some a
    → a.status ≡ "open"
    → s.faults ≡ []
    → (s' : Session) × (look_tx alert_id s ≡ (ok a, s'))
      × (s'.faults ≡ [])
      × (s'.db ≡ s.db)
      × (s'.now ≡ s.now)
unfolding look_tx select_alert
look_tx_lem alert_id a s found was calm =
    let still_open : (a.status == "open") ≡ true = (eq_iff a.status "open").1 was in
    let settles : Settles (look_tx alert_id) s
        (λ b s'. (b ≡ a) × (s'.db ≡ s.db) × (s'.now ≡ s.now)) =
      Settles-execute_then _ _ s _ (some a) s.db (ap (λ o. (ok o, s.db)) found) (
        Settles-lift_then _ _ _ _ a refl (rw still_open (Settles-pure a _ _ (refl, refl, refl)))) in
    elim settles.at [
      | inr (e, s', raised, faulty) ↦ absurd (faulty calm)
      | inl (b, s', done, kept, (same, db, now)) ↦
          (s', done ∙ ap (λ x. (ok x, s')) same, kept calm, db, now)
    ]

IsReady-after :
    (env : Env) (alert_id : ℕ) (p q : Call) (a : Alert) (now : ℕ) (d d' : Db)
    → IsReady env alert_id q a.created_at now a d
    → HasClosed alert_id p a now d d'
    → IsReady env alert_id q a.created_at now (close_row p.verdict.status p.analyst a) d'
IsReady-after env alert_id p q a now d d' h k = record {
  found =
      ap (find_alert alert_id) k.alerts
      ∙ find_alert-update_rows alert_id p.verdict.status p.analyst d.tables.alerts a h.found;
  sendable = h.sendable;
  status_in = h.status_in;
  in_range = h.in_range;
  known = ap (has_user q.user.id) k.users ∙ h.known;
}

two_actions :
    (alert_id : ℕ) (rows : List AnalystAction) (r t : AnalystAction)
    → actions_of alert_id rows ≡ []
    → r.alert_id ≡ alert_id
    → t.alert_id ≡ alert_id
    → actions_of alert_id ((rows ++ r ∷ []) ++ t ∷ []) ≡ r ∷ t ∷ []
two_actions alert_id rows r t h hr ht =
    let er : (r.alert_id == alert_id) ≡ true = ground arith in
    let et : (t.alert_id == alert_id) ≡ true = ground arith in
    rw (actions_of-append alert_id (rows ++ r ∷ []) t, actions_of-append alert_id rows r, er, et, h)
      refl

-- Both calls have committed, and the alert has the action of each.
pub record BothClosed (alert_id : ℕ) (p q : Call) (r : Race) : Type 0 where
  pub first_shown : Alert
  pub second_shown : Alert
  pub first_closed : r.first ≡ has_closed first_shown
  pub second_closed : r.second ≡ has_closed second_shown
  pub first_action : AnalystAction
  pub second_action : AnalystAction
  pub actions :
      actions_of alert_id r.session.db.tables.analyst_actions ≡ first_action ∷ second_action ∷ []
  pub first_analyst : first_action.analyst_name ≡ p.analyst
  pub second_analyst : second_action.analyst_name ≡ q.analyst

both_closed :
    (alert_id : ℕ) (p q : Call) (a x y : Alert) (s t u : Session)
    → actions_of alert_id s.db.tables.analyst_actions ≡ []
    → HasClosed alert_id p a s.now s.db t.db
    → HasClosed alert_id q a t.now t.db u.db
    → BothClosed alert_id p q (race u (has_closed x) (has_closed y))
both_closed alert_id p q a x y s t u none_yet h k =
    let r = action_row s.db.sequences.analyst_actions_id alert_id p.analyst p.verdict a s.now in
    let r' = action_row t.db.sequences.analyst_actions_id alert_id q.analyst q.verdict a t.now in
    record {
      first_shown = x;
      second_shown = y;
      first_closed = refl;
      second_closed = refl;
      first_action = r;
      second_action = r';
      actions =
          ap (actions_of alert_id) (k.analyst_actions ∙ ap (λ l. l ++ r' ∷ []) h.analyst_actions)
          ∙ two_actions alert_id s.db.tables.analyst_actions r r' none_yet refl refl;
      first_analyst = refl;
      second_analyst = refl;
    }

module _ (env : Env) (alert_id : ℕ) (p q : Call) where
  abbrev Turned : Race → Race → Type 0
  Turned = Turn env alert_id p q

  first_read :
      (s s' : Session) (a : Alert) (t : Stage)
      → look_tx alert_id s ≡ (ok a, s')
      → Turned (race s begun t) (race s' (has_read a) t)
  first_read s s' a t e =
      subst (λ o. Turned (race s begun t) (race o.1 (read_stage o.0) t)) e (first_reads s t)

  second_read :
      (s s' : Session) (a : Alert) (t : Stage)
      → look_tx alert_id s ≡ (ok a, s')
      → Turned (race s t begun) (race s' t (has_read a))
  second_read s s' a t e =
      subst (λ o. Turned (race s t begun) (race o.1 t (read_stage o.0))) e (second_reads s t)

  first_close :
      (s s' : Session) (a x : Alert) (t : Stage)
      → close_turn env alert_id p a s ≡ (ok x, s')
      → Turned (race s (has_read a) t) (race s' (has_closed x) t)
  first_close s s' a x t e =
      subst (λ o. Turned (race s (has_read a) t) (race o.1 (close_stage o.0) t)) e
        (first_closes s a t)

  second_close :
      (s s' : Session) (a x : Alert) (t : Stage)
      → close_turn env alert_id q a s ≡ (ok x, s')
      → Turned (race s t (has_read a)) (race s' t (has_closed x))
  second_close s s' a x t e =
      subst (λ o. Turned (race s t (has_read a)) (race o.1 t (close_stage o.0))) e
        (second_closes s a t)

-- Where no call to the database fails: two accepted classify calls on one open alert without
-- actions can overlap so that both succeed, and leave the alert with an action of each analyst.
pub overlap_lem :
    (env : Env) (alert_id : ℕ) (p q : Call) (a : Alert) (s : Session)
    → IsReady env alert_id p a.created_at s.now a s.db
    → IsReady env alert_id q a.created_at s.now a s.db
    → a.status ≡ "open"
    → actions_of alert_id s.db.tables.analyst_actions ≡ []
    → s.faults ≡ []
    → (end : Race) × Turns env alert_id p q (race s begun begun) end × BothClosed alert_id p q end
overlap_lem env alert_id p q a s hp hq was none_yet calm =
    let (s1, e1, c1, b1, n1) = look_tx_lem alert_id a s hp.found was calm in
    let found1 : find_alert alert_id s1.db.tables.alerts ≡ some a =
      ap (λ (d : Db). find_alert alert_id d.tables.alerts) b1 ∙ hp.found in
    let (s2, e2, c2, b2, n2) = look_tx_lem alert_id a s1 found1 was c1 in
    let same_db : s2.db ≡ s.db = b2 ∙ b1 in
    let same_now : s2.now ≡ s.now = n2 ∙ n1 in
    let hp2 : IsReady env alert_id p a.created_at s2.now a s2.db = rw (same_db, same_now) hp in
    let hq2 : IsReady env alert_id q a.created_at s2.now a s2.db = rw (same_db, same_now) hq in
    let (x, s3, e3, c3, k3, n3) = close_turn_lem env alert_id p a a s2 hp2 c2 in
    let after_p = close_row p.verdict.status p.analyst a in
    let hq3 : IsReady env alert_id q a.created_at s3.now after_p s3.db =
      rw n3 (IsReady-after env alert_id p q a s2.now s2.db s3.db hq2 k3) in
    let (y, s4, e4, c4, k4, n4) = close_turn_lem env alert_id q a after_p s3 hq3 c3 in
    let none2 : actions_of alert_id s2.db.tables.analyst_actions ≡ [] =
      ap (λ (d : Db). actions_of alert_id d.tables.analyst_actions) same_db ∙ none_yet in
    let t1 = first_read env alert_id p q s s1 a begun e1 in
    let t2 = second_read env alert_id p q s1 s2 a (has_read a) e2 in
    let t3 = first_close env alert_id p q s2 s3 a x (has_read a) e3 in
    let t4 = second_close env alert_id p q s3 s4 a y (has_closed x) e4 in
    (
      race s4 (has_closed x) (has_closed y),
      then_turn (then_turn (then_turn (then_turn no_turn t1) t2) t3) t4,
      both_closed alert_id p q a x y s2 s3 s4 none2 k3 k4,
    )
