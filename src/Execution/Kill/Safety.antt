-- ===== src/Execution/Kill/Safety.antt =====
-- What the kill switch of apps/api/quanta/services/execution.py asks of a venue, and how a run of
-- it ends there.
use catpn.Prelude.{
  ℕ, suc, ◌≡◌, ◌≢◌, refl, String, true, false, Option, none, some, List, [], ◌∷◌, Bool-cases, inl,
  inr,
}
use catpn.Prelude.Decimal.{Decimal, ◌≼◌, nought}
use catpn.Trading.{
  Credentials, OrderRequest, Order, Position, post_init, Reply, ok, refused, crashed,
  TradingAdapter,
}
use catpn.Execution.{BotContext}
use catpn.Execution.Placing.{Ended, returned}
use catpn.Execution.Kill.{
  KillReport, empty_report, closing_request, note_closing, close_one, close_positions, flatten_from,
  flatten_account, kill_from, kill_one, kill_all, kill,
}
use catpn.Execution.Kill.Accounts.{closing_request_builds}

-- A venue that, as long as `P` holds of it, answers the calls of the kill switch with a value or
-- a `TradingError`, and on which cancelling, reading positions and orders marked reduce-only keep
-- `P`. Nothing is asked of other orders.
pub record Serves (D V : Type 0) ⦃d : Decimal D⦄ (venue : TradingAdapter D V) (P : V → Type 0)
    : Type 0 where
  pub cancels :
      (c : Credentials) (symbol : Option String) (v : V)
      → P v
      → ((venue.cancel_all c symbol v).0 ≢ crashed) × P (venue.cancel_all c symbol v).1
  pub reads :
      (c : Credentials) (symbol : Option String) (v : V)
      → P v
      → ((venue.positions c symbol v).0 ≢ crashed) × P (venue.positions c symbol v).1
  pub reduces :
      (c : Credentials) (r : OrderRequest D) (v : V)
      → post_init r ≡ none
      → r.reduce_only ≡ true
      → P v
      → ((venue.place_order c r v).0 ≢ crashed) × P (venue.place_order c r v).1

module _ {D V : Type 0} ⦃d : Decimal D⦄ (digest : List ℕ → String) (clock : ℕ → ℕ)
    (venue : TradingAdapter D V) (P : V → Type 0) (serves : Serves D V venue P) where
  -- A run that came to a report and left `P` true.
  abbrev pub Done : Ended (KillReport D) × V → Type 0
  Done x = ((r : KillReport D) × (x.0 ≡ returned r)) × P x.1

  note_closing-returns :
      (p : Position D) (a : Reply (Order D)) (report : KillReport D)
      → a ≢ crashed
      → (r : KillReport D) × (note_closing digest clock venue p a report ≡ returned r)
  unfolding note_closing
  note_closing-returns p (ok o) report h = (_, refl)
  note_closing-returns p (refused exc) report h = (_, refl)
  note_closing-returns p crashed report h = absurd (h refl)

  closing_request-reduces :
      (context : BotContext) (i : ℕ) (p : Position D)
      → (closing_request digest clock venue context i p).reduce_only ≡ true
  unfolding closing_request
  closing_request-reduces context i p = refl

  close_one-Done :
      (context : BotContext) (i : ℕ) (p : Position D) (report : KillReport D) (v : V)
      → p.qty ≼ nought ≡ false
      → P v
      → Done (close_one digest clock venue context i p report v)
  unfolding close_one
  close_one-Done context i p report v held h =
      let built = closing_request_builds digest clock venue context i p held in
      let request = closing_request digest clock venue context i p in
      let sent =
        serves.reduces context.credentials request v built (closing_request-reduces context i p)
          h in
      rw (built, close_one) (note_closing-returns p _ report sent.0, sent.1)

  close_positions-Done :
      (context : BotContext) (i : ℕ) (ps : List (Position D)) (report : KillReport D) (v : V)
      → P v
      → Done (close_positions digest clock venue context i ps report v)
  unfolding close_positions
  close_positions-Done context i [] report v h = ((report, refl), h)
  close_positions-Done context i (p ∷ ps) report v h = elim (Bool-cases (p.qty ≼ nought)) [
    | inl e ↦ rw (e, close_positions) (close_positions-Done context (suc i) ps report v h)
    | inr e ↦
        let one = close_one-Done context i p report v e h in
        rw (e, one.0.1, close_positions) (close_positions-Done context (suc i) ps one.0.0 _ one.1)
  ]

  flatten_account-Done :
      (context : BotContext) (report : KillReport D) (v : V)
      → P v
      → Done (flatten_account digest clock venue context report v)
  unfolding flatten_account
  flatten_account-Done context report v h =
      let read = serves.reads context.credentials (some context.symbol) v h in
      go context report _ _ read.0 read.1
    where
      go :
          (context : BotContext) (report : KillReport D) (a : Reply (List (Position D))) (v : V)
          → a ≢ crashed
          → P v
          → Done (flatten_from digest clock venue context a report v)
      go context report (ok ps) v n h = close_positions-Done context 0 ps report v h
      go context report (refused exc) v n h = ((_, refl), h)
      go context report crashed v n h = absurd (n refl)

  kill_one-Done :
      (context : BotContext) (report : KillReport D) (v : V)
      → P v
      → Done (kill_one digest clock venue context report v)
  unfolding kill_one
  kill_one-Done context report v h =
      let cancelled = serves.cancels context.credentials (some context.symbol) v h in
      go context report _ _ cancelled.0 cancelled.1
    where
      go :
          (context : BotContext) (report : KillReport D) (a : Reply ℕ) (v : V)
          → a ≢ crashed
          → P v
          → Done (kill_from digest clock venue context a report v)
      go context report (ok n) v z h = flatten_account-Done context _ v h
      go context report (refused exc) v z h = flatten_account-Done context _ v h
      go context report crashed v z h = absurd (z refl)

  kill_all-Done :
      (contexts : List BotContext) (report : KillReport D) (v : V)
      → P v
      → Done (kill_all digest clock venue contexts report v)
  unfolding kill_all
  kill_all-Done [] report v h = ((report, refl), h)
  kill_all-Done (context ∷ contexts) report v h =
      let one = kill_one-Done context report v h in
      rw (one.0.1, kill_all) (kill_all-Done contexts one.0.0 _ one.1)

  -- On a venue whose cancellations, position readings and reduce-only orders never end in
  -- another exception than TradingError and keep a predicate of the venue, the kill switch
  -- always comes to a report and keeps the predicate, whatever the venue refuses.
  pub kill_reports_and_reduces :
      (contexts : List BotContext) (v : V) → P v → Done (kill digest clock venue contexts v)
  unfolding kill
  kill_reports_and_reduces contexts v h = kill_all-Done contexts empty_report v h
