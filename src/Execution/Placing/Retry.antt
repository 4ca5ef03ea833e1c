-- ===== src/Execution/Placing/Retry.antt =====
-- What `place` of apps/api/quanta/services/execution.py does to the venue, once and when it
-- is called again.
use catpn.Prelude.{
  ℕ, ◌≡◌, refl, ◌≢◌, ◌∙◌, sym, ap, ◌⊎◌, inl, inr, String, true, false, Option, none, some, List,
  arith, Bool-cases, Option-cases,
}
use catpn.Prelude.Decimal.{Decimal}
use catpn.Trading.{
  Credentials, OrderRequest, RequestError, Order, Reply, ok, refused, crashed, post_init,
  TradingAdapter,
}
use catpn.Risk.{Time, allow, RiskLimits, RiskState, RiskVerdict, check_order}
use catpn.Execution.{Outcome, blocked, BotContext, ExecutionResult}
use catpn.Execution.Placing.{
  Ended, returned, value_error, died, Signal, id_of, request_of, settle, submit, place,
}

-- The contract of `place_order` (apps/api/quanta/exchanges/trading.py): a client id that has an
-- order gives that order again, and the venue stays as it is.
pub record IsIdempotent (D V : Type 0) (venue : TradingAdapter D V) : Type 0 where
  pub replay :
      (c : Credentials) (r r' : OrderRequest D) (v : V) (o : Order D)
      → (venue.place_order c r v).0 ≡ ok o
      → r'.client_id ≡ r.client_id
      → venue.place_order c r' (venue.place_order c r v).1 ≡ (ok o, (venue.place_order c r v).1)

-- What a call reports: the outcome and the order of the result, where one was returned.
abbrev pub outcome_in : {D : Type 0} → Ended (ExecutionResult D) → Option Outcome
outcome_in (returned r) = some r.outcome
outcome_in (value_error e) = none
outcome_in died = none

abbrev pub order_in : {D : Type 0} → Ended (ExecutionResult D) → Option (Order D)
order_in (returned r) = r.order
order_in (value_error e) = none
order_in died = none

module _ {D V : Type 0} ⦃d : Decimal D⦄ (digest : List ℕ → String) (venue : TradingAdapter D V)
    (limits : RiskLimits D) (context : BotContext) (signal : Signal D) (s : RiskState D)
    (v : V) where
  -- What the venue answers to the request of the signal.
  abbrev pub answer : Reply (Order D) × V
  answer = venue.place_order context.credentials (request_of digest venue context signal) v

  abbrev pub result : Ended (ExecutionResult D) × RiskState D × V
  result = place digest venue limits context signal s v

  -- The guard's verdict on the request, with the guard as it leaves it.
  abbrev pub judged : RiskVerdict D × RiskState D
  judged =
      check_order limits (request_of digest venue context signal) signal.price signal.equity
        signal.positions context.leverage signal.moment s

  exit_is_allowed : signal.reduce_only ≡ true → judged ≡ (allow, s)
  unfolding check_order request_of
  exit_is_allowed exits = ground arith

  built_is_submitted :
      post_init (request_of digest venue context signal) ≡ none
      → result ≡ submit digest venue limits context signal s v
  unfolding place
  built_is_submitted built = rw (built, place)

  -- What the call makes of the answer, once the guard has let the order go.
  abbrev settled : Ended (ExecutionResult D) × RiskState D
  settled = settle digest venue (id_of digest venue context signal) signal.moment answer.0 judged.1

  submit-allowed :
      judged.0.allowed ≡ true
      → submit digest venue limits context signal s v ≡ (settled.0, settled.1, answer.1)
  unfolding submit
  submit-allowed h = rw h refl

  abbrev stopped_result : ExecutionResult D
  stopped_result = record {
    outcome = blocked;
    client_id = id_of digest venue context signal;
    order = none;
    verdict = some judged.0;
    error = none;
  }

  submit-blocked :
      judged.0.allowed ≡ false
      → submit digest venue limits context signal s v ≡ (returned stopped_result, judged.1, v)
  unfolding submit
  submit-blocked h = rw h refl

  -- The three ways that a call takes.
  data Course : Type 0 where
    unbuilt : (e : RequestError) → result ≡ (value_error e, s, v) → Course
    stopped : judged.0.allowed ≡ false → result ≡ (returned stopped_result, judged.1, v) → Course
    went : judged.0.allowed ≡ true → result ≡ (settled.0, settled.1, answer.1) → Course

  course : Course
  unfolding place
  course = elim (Option-cases (post_init (request_of digest venue context signal))) [
    | inr (e, x) ↦ unbuilt e (rw (x, place))
    | inl x ↦ elim (Bool-cases judged.0.allowed) [
      | inl h ↦ went h (built_is_submitted x ∙ submit-allowed h)
      | inr h ↦ stopped h (built_is_submitted x ∙ submit-blocked h)
    ]
  ]

  -- An order in the result is the order of the answer.
  settle-order :
      (id : String) (m : Time) (a : Reply (Order D)) (t : RiskState D) (o : Order D)
      → order_in (settle digest venue id m a t).0 ≡ some o
      → a ≡ ok o
  unfolding settle
  settle-order id m (ok o') t o x = ground arith
  settle-order id m (refused exc) t o x = cc
  settle-order id m crashed t o x = cc

  settle-ne-blocked :
      (id : String) (m : Time) (a : Reply (Order D)) (t : RiskState D)
      → outcome_in (settle digest venue id m a t).0 ≢ some blocked
  unfolding settle
  settle-ne-blocked id m (ok o) t b = ground arith
  settle-ne-blocked id m (refused x) t b = ground arith
  settle-ne-blocked id m crashed t b = cc

  went-ne-blocked : result ≡ (settled.0, settled.1, answer.1) → outcome_in result.0 ≢ some blocked
  went-ne-blocked w b =
      settle-ne-blocked (id_of digest venue context signal) signal.moment answer.0 judged.1
        (ap (λ t. outcome_in t.0) (sym w) ∙ b)

  -- A reduce-only order whose request can be built reaches the venue, whatever the limits, the
  -- equity and the memory of the guard are, and is not reported as blocked.
  pub exit_reaches_venue :
      signal.reduce_only ≡ true
      → post_init (request_of digest venue context signal) ≡ none
      → (result.2 ≡ answer.1) × (outcome_in result.0 ≢ some blocked)
  exit_reaches_venue exits built =
      let allowed : judged.0.allowed ≡ true = ap (λ j. j.0.allowed) (exit_is_allowed exits) in
      let whole : result ≡ (settled.0, settled.1, answer.1) =
        built_is_submitted built ∙ submit-allowed allowed in
      (ap (λ t. t.2) whole, went-ne-blocked whole)

  -- A call of place either leaves the venue alone and reports no order, or the guard allowed
  -- the request, the venue is as the one place_order of this request leaves it, and the report
  -- is not that the order was blocked.
  pub place_touches_venue_once :
      ((result.2 ≡ v) × (order_in result.0 ≡ none))
      ⊎ ((judged.0.allowed ≡ true) × (result.2 ≡ answer.1) × (outcome_in result.0 ≢ some blocked))
  place_touches_venue_once = elim course [
    | unbuilt e w ↦ inl (ap (λ t. t.2) w, ap (λ t. order_in t.0) w)
    | stopped h w ↦ inl (ap (λ t. t.2) w, ap (λ t. order_in t.0) w)
    | went h w ↦ inr (h, ap (λ t. t.2) w, went-ne-blocked w)
  ]

  -- A result that carries an order went to the venue, which answered with this order.
  answered : (o : Order D) → order_in result.0 ≡ some o → (answer.0 ≡ ok o) × (result.2 ≡ answer.1)
  answered o x = elim course [
    | unbuilt e' w ↦ cc
    | stopped h w ↦ ground arith
    | went h w ↦ (
      settle-order (id_of digest venue context signal) signal.moment answer.0 judged.1 o
          (ap (λ t. order_in t.0) (sym w) ∙ x),
      ap (λ t. t.2) w,
    )
  ]

module _ {D V : Type 0} ⦃d : Decimal D⦄ (digest : List ℕ → String) (venue : TradingAdapter D V)
    (idempotent : IsIdempotent D V venue) (context : BotContext) where
  same_id :
      (signal signal' : Signal D)
      → signal'.bar_time ≡ signal.bar_time
      → signal'.purpose ≡ signal.purpose
      → signal'.attempt ≡ signal.attempt
      → (request_of digest venue context signal').client_id
        ≡ (request_of digest venue context signal).client_id
  unfolding request_of id_of
  same_id signal signal' bar purpose attempt = cc

  -- On a venue that keeps the idempotency contract of place_order: once placing a signal has
  -- reported an order, placing a signal for the same bar, purpose and attempt again, with any
  -- other arguments, limits and guard memory, leaves the venue as it is and reports either no
  -- order or that same order.
  pub place_again :
      (limits limits' : RiskLimits D) (signal signal' : Signal D) (s s' : RiskState D) (v : V)
      (o : Order D)
      → order_in (result digest venue limits context signal s v).0 ≡ some o
      → signal'.bar_time ≡ signal.bar_time
      → signal'.purpose ≡ signal.purpose
      → signal'.attempt ≡ signal.attempt
      → let after = (result digest venue limits context signal s v).2 in
        let again = result digest venue limits' context signal' s' after in
        (again.2 ≡ after) × ((order_in again.0 ≡ none) ⊎ (order_in again.0 ≡ some o))
  place_again limits limits' signal signal' s s' v o x bar purpose attempt =
      let first = answered digest venue limits context signal s v o x in
      let after = (result digest venue limits context signal s v).2 in
      let replayed =
        idempotent.replay context.credentials (request_of digest venue context signal)
          (request_of digest venue context signal') v o first.0
          (same_id signal signal' bar purpose attempt) in
      let second : answer digest venue limits' context signal' s' after ≡ (ok o, after) =
        rw first.1 replayed in
      let again = result digest venue limits' context signal' s' after in
      (
        elim (place_touches_venue_once digest venue limits' context signal' s' after) [
          | inl same ↦ same.0
          | inr moved ↦ moved.1 ∙ ap (λ t. t.1) second
        ],
        elim (Option-cases (order_in again.0)) [
          | inl nothing ↦ inl nothing
          | inr (o', e) ↦
              let there = (answered digest venue limits' context signal' s' after o' e).0 in
              let is_o : o' ≡ o = cc (second, there) in inr (e ∙ ap some is_o)
        ],
      )
