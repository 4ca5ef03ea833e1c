-- ===== src/Bots/KillSwitch.antt =====
-- The route `kill_switch` of apps/api/quanta/api/routes/bots.py: the user's bots are halted and the
-- kill switch of the execution service runs over those whose key can be opened. The halts are
-- committed after the venue was called.
use text.Mathlib.Text.{◌==◌}
use catpn.Prelude.{
  ℕ, ◌≡◌, refl, String, Bool, true, not, Option, none, some, List, [], ◌∷◌, if◌then◌else◌,
  Bool-cases, inl, inr, length, keep_if,
}
use catpn.Prelude.Decimal.{Decimal}
use catpn.Prelude.Dict.{Dict, find, values, map_values}
use catpn.Trading.{Credentials, TradingAdapter}
use catpn.Risk.{Time}
use catpn.Execution.{BotContext}
use catpn.Execution.Placing.{Ended, returned, value_error, died}
use catpn.Execution.Kill.{Failure, KillReport, kill}
use catpn.Execution.Kill.Safety.{Serves, kill_reports_and_reduces}
use catpn.Bots.{Bot, halted, ExchangeKey, User, first_chars, halt, context_of}
use catpn.Bots.Routes.{Answer, done, denied, broke, Desk, require_2fa}

-- What the route answers; the bots whose key could not be opened are named apart.
pub record KillAnswer (D : Type 0) : Type 0 where
  pub bots_halted : ℕ
  pub orders_cancelled : ℕ
  pub positions_closed : ℕ
  pub failures : List (Failure D)
  pub unreadable : List String

module _ {D : Type 0} where
  abbrev pub is_owned : User → Bot D → Bool
  is_owned user bot = bot.user_id == user.user_key

  unfoldable pub halted_by : User → Time → Bot D → Bot D
  halted_by user now bot =
      if is_owned user bot then halt "kill_switch" "Stopped by the kill switch." now bot else bot

  -- The row under an id after the route: a row of the user is halted, with the reason, the text and
  -- the moment of the kill switch, and is the same in all else; another's row is untouched.
  abbrev pub halted_row : User → Time → Option (Bot D) → Option (Bot D)
  halted_row user now none = none
  halted_row user now (some bot) = some (
      if bot.user_id == user.user_key
      then record bot {
        state = halted;
        halt_reason = some "kill_switch";
        halt_detail = some "Stopped by the kill switch.";
        halted_at = some now;
      }
      else bot)

  halted_by-row :
      (user : User) (now : Time) (bot : Bot D)
      → some (halted_by user now bot) ≡ halted_row user now (some bot)
  unfolding halted_by halt first_chars
  halted_by-row user now bot = refl

  find-map_values :
      (user : User) (now : Time) (bots : Dict (Bot D)) (id : String)
      → find id (map_values (halted_by user now) bots) ≡ halted_row user now (find id bots)
  unfolding find map_values
  find-map_values user now [] id = refl
  find-map_values user now ((j, b) ∷ bots) id = elim (Bool-cases (j == id)) [
    | inl same ↦ rw same (halted_by-row user now b)
    | inr other ↦ rw other (find-map_values user now bots id)
  ]

module _ {D V : Type 0} ⦃d : Decimal D⦄ (digest : List ℕ → String) (clock : ℕ → ℕ)
    (venue : TradingAdapter D V) (verified : User → String → Bool)
    (opened : ExchangeKey → Option Credentials) where
  -- The loop over the user's bots: a context where there is a key that opens, a name where there
  -- is one that does not.
  abbrev with_key :
      Bot D → Option ExchangeKey → List BotContext × List String → List BotContext × List String
  with_key bot none rest = rest
  with_key bot (some key) rest = elim (opened key) [
    | none ↦ (rest.0, bot.name ∷ rest.1)
    | some credentials ↦ (context_of bot credentials ∷ rest.0, rest.1)
  ]

  unfoldable pub contexts_of : Dict ExchangeKey → List (Bot D) → List BotContext × List String
  contexts_of keys [] = ([], [])
  contexts_of keys (bot ∷ bots) =
      with_key bot (find bot.exchange_key_id keys) (contexts_of keys bots)

  unfoldable pub kill_answer :
      ℕ → List String → Ended (KillReport D) → Desk D → Desk D → Answer (KillAnswer D) × Desk D
  kill_answer count unreadable (returned report) before after = (
    done (record {
      bots_halted = count;
      orders_cancelled = report.orders_cancelled;
      positions_closed = report.positions_closed;
      failures = report.failures;
      unreadable = unreadable;
    }),
    after,
  )
  kill_answer count unreadable (value_error e) before after = (broke, before)
  kill_answer count unreadable died before after = (broke, before)

  unfoldable pub kill_switch :
      User → Option String → Bool → Time → Desk D → V → (Answer (KillAnswer D) × Desk D) × V
  kill_switch user code confirm_flatten now desk v =
      let mine = keep_if (is_owned user) (values desk.bots) in
      let (contexts, unreadable) = contexts_of desk.keys mine in
      let (ended, v') = kill digest clock venue contexts v in
      let after = record desk { bots = map_values (halted_by user now) desk.bots } in
      elim (require_2fa verified user code) [
        | some s ↦ ((denied s, desk), v)
        | none ↦
            if not confirm_flatten
            then ((denied 400, desk), v)
            else (kill_answer (length mine) unreadable ended desk after, v')
      ]

  -- With a right second factor and the confirmation, on a venue whose cancellations, position
  -- readings and reduce-only orders end in no other exception than TradingError and keep a
  -- predicate of the venue that holds: the route of the kill switch answers; afterwards under
  -- every id stands the row that was there, a row of the user being halted with the reason,
  -- the text and the moment of the kill switch and the same in all else, any other row being
  -- untouched; and the predicate holds of the venue.
  pub kill_switch_halts :
      (P : V → Type 0)
      → Serves D V venue P
      → (user : User) (code : Option String) (now : Time) (desk : Desk D) (v : V)
      → require_2fa verified user code ≡ none
      → P v
      → let run = kill_switch user code true now desk v in
        ((answer : KillAnswer D) × (run.0.0 ≡ done answer))
        × ((id : String) → find id run.0.1.bots ≡ halted_row user now (find id desk.bots))
        × P run.1
  unfolding kill_switch kill_answer
  kill_switch_halts P serves user code now desk v second h =
      let mine = keep_if (is_owned user) (values desk.bots) in
      let ran =
        kill_reports_and_reduces digest clock venue P serves (contexts_of desk.keys mine).0 v h in
      rw (second, kill_switch, ran.0.1, kill_answer)
        ((_, refl), find-map_values user now desk.bots, ran.1)
