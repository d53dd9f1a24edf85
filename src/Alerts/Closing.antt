-- ===== src/Alerts/Closing.antt =====
-- What `resolve` and `acknowledge` of src/api/alert_manager.py leave active.
use simple_lcp.Prelude.{
  ℕ, String, ◌≡◌, Option, none, some, ◌==◌, string_eq, arith, lookup, lookup-insert, lookup-remove,
  Option-cases, inl, inr, if◌then◌else◌,
}
use simple_lcp.Alerts.Manager.{
  Alert, AlertTable, Manager, close_active, mark_active, resolve, acknowledge,
}

-- the alert with the date at which it was acknowledged
unfoldable pub marked : String → Option Alert → Option Alert
marked now none = none
marked now (some a) = some (record a { acknowledged_at = some now })

module _ (T : AlertTable) (show : ℕ → String) where
  -- A resolved alert is no longer active, whatever the table answers or if it raises, while an
  -- acknowledged one stays active with its date; neither touches an alert of another key.
  closing_is_local :
      (m : Manager T show) (k j now : String)
      → (lookup j (resolve T show m k now).1.active ≡ (if k == j then none else lookup j m.active))
        × (lookup j (acknowledge T show m k now).1.active
            ≡ (if k == j then marked now (lookup j m.active) else lookup j m.active))
  unfolding resolve close_active acknowledge mark_active marked
  closing_is_local m k j now = (
    ground (arith, string_eq.beq_iff k j, lookup-remove k j m.active),
    elim (Option-cases (lookup k m.active)) [
      | inl e ↦ ground (arith, string_eq.beq_iff k j)
      | inr (a, e) ↦ ground (
        arith,
        string_eq.beq_iff k j,
        lookup-insert k j (record a { acknowledged_at = some now }) m.active,
      )
    ],
  )
