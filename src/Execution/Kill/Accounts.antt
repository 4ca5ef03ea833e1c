-- ===== src/Execution/Kill/Accounts.antt =====
-- What the report of the kill switch (apps/api/quanta/services/execution.py) counts.
use catpn.Prelude.{
  ℕ, ◌+◌, suc, ◌≡◌, String, Bool, true, false, not, none, List, [], ◌∷◌, ◌++◌, arith, count_if,
}
use catpn.Prelude.Decimal.{Decimal, ◌≼◌, nought}
use catpn.Trading.{Order, Position, post_init, Reply, ok, refused, TradingAdapter}
use catpn.Execution.{flatten, BotContext}
use catpn.Execution.Ids.{client_id_for-ne-empty}
use catpn.Execution.Kill.{Failure, not_closed, not_cancelled, KillReport, closing_request}

-- The closing orders of one account, each with the position it closes and the venue's answer.
abbrev pub Sent : Type 0 → Type 0
Sent D = List (Position D × Reply (Order D))

-- What the cancellation adds: the orders it cancelled, or why it did not.
abbrev pub cancelled_by : Reply ℕ → ℕ
cancelled_by (ok n) = n
cancelled_by _ = 0

module _ {D : Type 0} where
  abbrev pub is_accepted : Position D × Reply (Order D) → Bool
  is_accepted (p, ok o) = true
  is_accepted (p, _) = false

  -- What is to be read of the refused ones.
  abbrev pub refusals : Sent D → List (Failure D)
  refusals [] = []
  refusals ((p, refused exc) ∷ sent) = not_closed p.symbol p.qty exc.message ∷ refusals sent
  refusals ((p, _) ∷ sent) = refusals sent

  abbrev pub uncancelled : String → Reply ℕ → List (Failure D)
  uncancelled symbol (refused exc) = not_cancelled symbol exc.message ∷ []
  uncancelled symbol _ = []

  -- A report that has grown by accepted and refused closing orders.
  pub record Grown (report : KillReport D) (cancelled : ℕ) (named : List (Failure D))
      (sent : Sent D) (r : KillReport D) : Type 0 where
    pub closed : r.positions_closed ≡ report.positions_closed + count_if is_accepted sent
    pub removed : r.orders_cancelled ≡ report.orders_cancelled + cancelled
    pub told : r.failures ≡ report.failures ++ (named ++ refusals sent)

  -- A position that is there to be closed.
  abbrev pub is_held : ⦃d : Decimal D⦄ → Position D → Bool
  is_held p = not (p.qty ≼ nought)

module _ {D V : Type 0} ⦃d : Decimal D⦄ (digest : List ℕ → String) (clock : ℕ → ℕ)
    (venue : TradingAdapter D V) where
  -- The request that closes a held position is one that can be built.
  pub closing_request_builds :
      (context : BotContext) (index : ℕ) (p : Position D)
      → p.qty ≼ nought ≡ false
      → post_init (closing_request digest clock venue context index p) ≡ none
  unfolding closing_request post_init
  closing_request_builds context index p h =
      ground (arith, client_id_for-ne-empty digest context.bot_id (clock index) flatten index)

  -- The closing orders that are sent, one for each held position in the order of the list, and
  -- what the venue answers to each as the one before has left it.
  unfoldable pub answers : BotContext → ℕ → List (Position D) → V → Sent D
  answers context index [] v = []
  answers context index (p ∷ ps) v = elim (p.qty ≼ nought) [
    | true ↦ answers context (suc index) ps v
    | false ↦
        let one =
          venue.place_order context.credentials (closing_request digest clock venue context index p)
            v in
        (p, one.0) ∷ answers context (suc index) ps one.1
  ]
