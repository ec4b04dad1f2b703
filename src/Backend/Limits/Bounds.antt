-- ===== src/Backend/Limits/Bounds.antt =====
-- How many messages and events a connection's limits let through.
use private_communication.Common.{
  ℕ, ◌+◌, ◌-◌, ◌≤◌, ◌≡◌, ◌≢◌, refl, sym, subst, inl, inr, ap, ◌∙◌, String, Bool, true, false,
  Option, none, some, List, [], ◌∷◌, str_eq, str_eq_iff, ltb, leb, if◌then◌else◌, arith, All,
  All-imp, Map, lookup, string_key, Key-cases, Bool-cases, Option-cases, lookup-insert_self,
  lookup-insert_ne,
}
use private_communication.Backend.Limits.{
  Limits, RateState, EventRateState, create_event_rate_state, get_event_limit, count_message,
  within_limit, count_event, known_rate, stored_rates, admit_event,
}

abbrev pub one_if : Bool → ℕ
one_if true = 1
one_if false = 0

module _ (l : Limits) where
  -- How many of the messages that come at the times given pass the limit.
  unfoldable pub messages_passed : List ℕ → RateState → ℕ
  messages_passed [] r = 0
  messages_passed (now ∷ times) r =
      let counted = count_message l now r in
      one_if (within_limit l counted) + messages_passed times counted

  -- While the window lasts, no more pass than the limit has left.
  passed_in_window :
      (times : List ℕ) (r : RateState)
      → All (λ t. t ≤ r.window_start + l.window_ms) times
      → messages_passed times r ≤ l.max_messages - r.count
  unfolding messages_passed count_message within_limit
  passed_in_window [] r h = omega arith
  passed_in_window (now ∷ times) r h =
      let rest = passed_in_window times (record r { count = r.count + 1 }) h.1 in ground arith

  -- Of all the messages that come in an interval no longer than a window, at whatever times and in
  -- whatever order, no more pass than the current window has left and a whole window's number.
  pub passed_in_interval :
      (start : ℕ) (times : List ℕ) (r : RateState)
      → All (λ t. (start ≤ t) × (t ≤ start + l.window_ms)) times
      → messages_passed times r ≤ (l.max_messages - r.count) + l.max_messages
  unfolding messages_passed count_message within_limit
  passed_in_interval start [] r h = omega arith
  passed_in_interval start (now ∷ times) r h =
      let later =
        passed_in_window times (record { window_start = now; count = 1; auth_count = 0 })
          (All-imp (λ t. (start ≤ t) × (t ≤ start + l.window_ms)) (λ t. t ≤ now + l.window_ms) times
            (λ t k. omega arith) h.1) in
      let same = passed_in_interval start times (record r { count = r.count + 1 }) h.1 in
      ground arith

module _ (l : Limits) (event : String) where
  -- How many events of the kind pass their limit, of the kinds and times given.
  unfoldable pub events_passed : List (String × ℕ) → Map String EventRateState → ℕ
  events_passed [] rates = 0
  events_passed (e ∷ events) rates =
      let step = admit_event l e.0 e.1 rates in
      (if str_eq e.0 event then one_if step.1 else 0) + events_passed events step.0

  -- What the map holds for the kind after one event of it.
  abbrev stored : Option EventRateState → Bool → EventRateState → Option EventRateState
  stored (some old) allowed r = some r
  stored none true r = some r
  stored none false r = none

  stored_own :
      (known : Option EventRateState) (allowed : Bool) (r : EventRateState)
      → (rates : Map String EventRateState) → lookup event rates ≡ known
      → lookup event (stored_rates l known allowed event r rates) ≡ stored known allowed r
  stored_own (some old) allowed r rates e = lookup-insert_self event r rates
  stored_own none true r rates e = lookup-insert_self event r rates
  stored_own none false r rates e = e

  stored_other :
      (other : String) (known : Option EventRateState) (allowed : Bool) (r : EventRateState)
      → (rates : Map String EventRateState) → other ≢ event
      → lookup event (stored_rates l known allowed other r rates) ≡ lookup event rates
  stored_other other (some old) allowed r rates n = lookup-insert_ne other event r rates n
  stored_other other none true r rates n = lookup-insert_ne other event r rates n
  stored_other other none false r rates n = refl

  admit_own :
      (now : ℕ) (rates : Map String EventRateState)
      → lookup event (admit_event l event now rates).0
        ≡ stored
            (lookup event rates)
            (admit_event l event now rates).1
            (count_event l now (known_rate l (lookup event rates) now))
  unfolding admit_event
  admit_own now rates =
      let known = lookup event rates in
      let r = count_event l now (known_rate l known now) in
      stored_own known (leb r.count (get_event_limit l event)) r rates refl

  admit_other :
      (other : String) (now : ℕ) (rates : Map String EventRateState)
      → other ≢ event
      → lookup event (admit_event l other now rates).0 ≡ lookup event rates
  unfolding admit_event
  admit_other other now rates n =
      let known = lookup other rates in
      let r = count_event l now (known_rate l known now) in
      stored_other other known (leb r.count (get_event_limit l other)) r rates n

  passed_own :
      (now : ℕ) (events : List (String × ℕ)) (rates : Map String EventRateState)
      → events_passed ((event, now) ∷ events) rates
        ≡ one_if (admit_event l event now rates).1
          + events_passed events (admit_event l event now rates).0
  unfolding events_passed
  passed_own now events rates = rw ((str_eq_iff event event).1 refl) refl

  passed_other :
      (other : String) (now : ℕ) (events : List (String × ℕ)) (rates : Map String EventRateState)
      → other ≢ event
      → events_passed ((other, now) ∷ events) rates
        ≡ events_passed events (admit_event l other now rates).0
  unfolding events_passed
  passed_other other now events rates n = ground (arith, str_eq_iff other event)

  own_step :
      (now : ℕ) (rates : Map String EventRateState)
      → (admit_event l event now rates).1
        ≡ leb
            (count_event l now (known_rate l (lookup event rates) now)).count
            (get_event_limit l event)
  unfolding admit_event
  own_step now rates = refl

  admit_known :
      (now : ℕ) (rates : Map String EventRateState) (r next : EventRateState)
      → lookup event rates ≡ some r
      → count_event l now r ≡ next
      → (lookup event (admit_event l event now rates).0 ≡ some next)
        × ((admit_event l event now rates).1 ≡ leb next.count (get_event_limit l event))
  admit_known now rates r next k c = (
    admit_own now rates
        ∙ (λ i.
            stored (k i) (admit_event l event now rates).1
              (count_event l now (known_rate l (k i) now)))
        ∙ ap some c,
    own_step now rates
        ∙ (λ i. leb (count_event l now (known_rate l (k i) now)).count (get_event_limit l event))
        ∙ ap (λ (n : EventRateState). leb n.count (get_event_limit l event)) c,
  )

  admit_new :
      (now : ℕ) (rates : Map String EventRateState) (next : EventRateState)
      → lookup event rates ≡ none
      → count_event l now (create_event_rate_state now) ≡ next
      → (lookup event (admit_event l event now rates).0
          ≡ stored none (admit_event l event now rates).1 next)
        × ((admit_event l event now rates).1 ≡ leb next.count (get_event_limit l event))
  admit_new now rates next k c = (
    admit_own now rates
        ∙ (λ i.
            stored (k i) (admit_event l event now rates).1
              (count_event l now (known_rate l (k i) now)))
        ∙ ap (stored none (admit_event l event now rates).1) c,
    own_step now rates
        ∙ (λ i. leb (count_event l now (known_rate l (k i) now)).count (get_event_limit l event))
        ∙ ap (λ (n : EventRateState). leb n.count (get_event_limit l event)) c,
  )

  -- While the window lasts, no more events pass than the limit has left.
  events_in_window :
      (events : List (String × ℕ)) (rates : Map String EventRateState) (r : EventRateState)
      → lookup event rates ≡ some r
      → All (λ e. e.1 ≤ r.window_start + l.window_ms) events
      → events_passed events rates ≤ get_event_limit l event - r.count
  unfolding events_passed
  events_in_window [] rates r k h = omega arith
  events_in_window ((other, now) ∷ events) rates r k h = elim (Key-cases other event) [
    | inl p ↦
        let counted : count_event l now r ≡ record r { count = r.count + 1 } =
          unfold count_event in ground arith in
        let step = admit_known now rates r (record r { count = r.count + 1 }) k counted in
        let rest =
          events_in_window events (admit_event l event now rates).0
            (record r { count = r.count + 1 }) step.0 h.1 in
        subst (λ o. events_passed ((o, now) ∷ events) rates ≤ get_event_limit l event - r.count)
          (sym p) (rw (passed_own now events rates) (ground arith))
    | inr n ↦ rw (passed_other other now events rates n) (
        events_in_window events (admit_event l other now rates).0 r
          (rw (admit_other other now rates n) k) h.1)
  ]

  -- What comes later in an interval no longer than a window lies in a window that opens now.
  later :
      (start now : ℕ) (events : List (String × ℕ))
      → All (λ e. (start ≤ e.1) × (e.1 ≤ start + l.window_ms)) ((event, now) ∷ events)
      → All (λ e. e.1 ≤ now + l.window_ms) events
  later start now events h =
      All-imp (λ (e : String × ℕ). (start ≤ e.1) × (e.1 ≤ start + l.window_ms))
        (λ (e : String × ℕ). e.1 ≤ now + l.window_ms) events (λ e k. omega arith) h.1

  -- What may pass in an interval no longer than a window.
  abbrev pub room : Option EventRateState → ℕ
  room none = get_event_limit l event
  room (some r) = (get_event_limit l event - r.count) + get_event_limit l event

  -- Of all the events of a kind that come in an interval no longer than a window, among events of other
  -- kinds, no more pass than the kind's limit, where none came before; otherwise no more than the
  -- current window has left and a whole limit.
  pub events_in_interval :
      (start : ℕ) (events : List (String × ℕ)) (rates : Map String EventRateState)
      → All (λ e. (start ≤ e.1) × (e.1 ≤ start + l.window_ms)) events
      → events_passed events rates ≤ room (lookup event rates)
  unfolding events_passed
  events_in_interval start [] rates h = elim (Option-cases (lookup event rates)) [
    | inl k ↦ rw k (omega arith)
    | inr (r, k) ↦ rw k (omega arith)
  ]
  events_in_interval start ((other, now) ∷ events) rates h = elim (Key-cases other event) [
    | inl p ↦
        subst (λ o. events_passed ((o, now) ∷ events) rates ≤ room (lookup event rates)) (sym p)
          (rw (passed_own now events rates) (elim (Option-cases (lookup event rates)) [
            | inl k ↦
                let fresh : EventRateState = record { window_start = now; count = 1 } in
                let step = admit_new now rates fresh k (unfold count_event in ground arith) in
                elim (Bool-cases (admit_event l event now rates).1) [
                  | inl t ↦
                      let rest =
                        events_in_window events (admit_event l event now rates).0 fresh
                          (step.0 ∙ ap (λ b. stored none b fresh) t) (later start now events h) in
                      rw k (ground arith)
                  | inr f ↦
                      let rest =
                        subst (λ m. events_passed events (admit_event l event now rates).0 ≤ room m)
                          (step.0 ∙ ap (λ b. stored none b fresh) f)
                          (events_in_interval start events (admit_event l event now rates).0 h.1) in
                      rw k (ground arith)
                ]
            | inr (r, k) ↦ elim (Bool-cases (ltb l.window_ms (now - r.window_start))) [
              | inl t ↦
                  let fresh : EventRateState = record { window_start = now; count = 1 } in
                  let step = admit_known now rates r fresh k (unfold count_event in rw t refl) in
                  let rest =
                    events_in_window events (admit_event l event now rates).0 fresh step.0
                      (later start now events h) in
                  rw k (ground arith)
              | inr f ↦
                  let next : EventRateState = record r { count = r.count + 1 } in
                  let step = admit_known now rates r next k (unfold count_event in rw f refl) in
                  let rest =
                    subst (λ m. events_passed events (admit_event l event now rates).0 ≤ room m)
                      step.0
                      (events_in_interval start events (admit_event l event now rates).0 h.1) in
                  rw k (ground arith)
            ]
          ]))
    | inr n ↦ rw (passed_other other now events rates n) (
        subst (λ k. events_passed events (admit_event l other now rates).0 ≤ room k)
          (admit_other other now rates n)
          (events_in_interval start events (admit_event l other now rates).0 h.1))
  ]
