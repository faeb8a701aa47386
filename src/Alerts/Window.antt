-- ===== src/Alerts/Window.antt =====
-- What the window holds back, and what it lets through.
use omnibioai_security_audit.Prelude.{
  ℕ, ◌+◌, ◌<◌, ◌≤◌, ◌≡◌, ends_with, ◌<>◌, ◌==◌, if◌then◌else◌, String, true, false, not, ◌&&◌, ◌||◌,
  ◌∷◌, refl, Option, none, some, ◌⊎◌, inl, inr, lookup, lookup-insert, eq_iff, eq_refl, arith,
  Bool-cases, is_some,
}
use omnibioai_security_audit.Alerts.{
  SecurityAlert, AlertState, emit_security_alert, alert_key, is_recovery, in_window, valid_severity,
}

abbrev pub IsSeverity : String → Type 0
IsSeverity s = (s ≡ "info") ⊎ ((s ≡ "warning") ⊎ (s ≡ "critical"))

-- A severity that is one of the three is kept, and any other becomes a warning.
abbrev pub IsSentAs : String → String → Type 0
IsSentAs given shown =
    (IsSeverity given × (shown ≡ given)) ⊎ (¬ IsSeverity given × (shown ≡ "warning"))

valid_severity-IsSentAs : (s : String) → IsSentAs s (valid_severity s)
unfolding valid_severity
valid_severity-IsSentAs s = elim (Bool-cases (s == "info" || s == "warning" || s == "critical")) [
  | inl known ↦
      inl (ground (arith, eq_iff s "info", eq_iff s "warning", eq_iff s "critical"), rw known refl)
  | inr other ↦
      inr (
        λ h. ground (arith, eq_iff s "info", eq_iff s "warning", eq_iff s "critical"),
        rw other refl,
      )
]

in_window-true :
    (sent : Option ℕ) (now window : ℕ)
    → in_window sent now window ≡ true
    → (last : ℕ) × (sent ≡ some last) × (now < last + window)
unfolding in_window
in_window-true none now window h = absurd (cc)
in_window-true (some last) now window h = (last, refl, ground arith)

in_window-false :
    (sent : Option ℕ) (now window last : ℕ)
    → in_window sent now window ≡ false
    → sent ≡ some last
    → last + window ≤ now
unfolding in_window
in_window-false none now window last h e = absurd (cc)
in_window-false (some t) now window last h e = ground arith

-- An alert of a condition that does not end in _recovered, whose component and condition were last
-- let through less than the window ago, changes nothing and returns none. Every other alert is
-- handed to the sink once, as the caller made it but with a severity that is none of the three
-- replaced by warning; its time is recorded, and no other time changes.
pub emit_effect :
    (window now : ℕ) (a : SecurityAlert) (st : AlertState)
    → let key = a.component <> (":" <> a.condition) in
      let r = emit_security_alert window now a st in
      ((last : ℕ) × (ends_with a.condition "_recovered" ≡ false)
        × (lookup key st.last_sent ≡ some last)
        × (now < last + window)
        × (r ≡ (none, st)))
      ⊎ (((ends_with a.condition "_recovered" ≡ true)
            ⊎ ((last : ℕ) → lookup key st.last_sent ≡ some last → last + window ≤ now))
          × (shown : String) × IsSentAs a.severity shown
          × (r.0 ≡ some (record a { severity = shown }))
          × (r.1.sent ≡ record a { severity = shown } ∷ st.sent)
          × ((other : String)
              → lookup other r.1.last_sent
                ≡ (if key == other then some now else lookup other st.last_sent)))
unfolding emit_security_alert is_recovery alert_key
emit_effect window now a st =
    let key = a.component <> (":" <> a.condition) in
    let recovery = ends_with a.condition "_recovered" in
    elim (Bool-cases (not recovery && in_window (lookup key st.last_sent) now window)) [
      | inl held ↦
          let fresh : in_window (lookup key st.last_sent) now window ≡ true = ground arith in
          let (last, was, soon) = in_window-true (lookup key st.last_sent) now window fresh in
          inl (last, ground arith, was, soon, rw held refl)
      | inr through ↦ inr (
        elim (Bool-cases recovery) [
          | inl recovered ↦ inl recovered
          | inr ordinary ↦
              inr (λ last. in_window-false (lookup key st.last_sent) now window last (ground arith))
        ],
        valid_severity a.severity,
        valid_severity-IsSentAs a.severity,
        rw through refl,
        rw through refl,
        λ other. rw through (lookup-insert key other now st.last_sent),
      )
    ]

-- When an alert was sent and is no recovery, a second one of the same key that is no recovery,
-- before the end of the window, is held back.
pub repeat_held_back :
    (window now later : ℕ) (a b : SecurityAlert) (st : AlertState)
    → is_recovery a.condition ≡ false
    → alert_key a.component a.condition ≡ alert_key b.component b.condition
    → is_recovery b.condition ≡ false
    → later < now + window
    → is_some (emit_security_alert window now a st).0 ≡ true
    → (emit_security_alert window later b (emit_security_alert window now a st).1).0 ≡ none
unfolding emit_security_alert
repeat_held_back window now later a b st ra same rb h sent = ground (
  arith,
  lookup-insert (alert_key a.component a.condition) (alert_key a.component a.condition) now
      st.last_sent,
  eq_refl (alert_key a.component a.condition),
)
