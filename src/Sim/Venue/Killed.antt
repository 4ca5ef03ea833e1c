-- ===== src/Sim/Venue/Killed.antt =====
-- What the kill switch does to the simulated venue's positions.
use text.Mathlib.Text.{◌==◌}
use text.Mathlib.TextEquality.{eq_iff}
use catpn.Prelude.{
  ℕ, suc, ◌≡◌, ◌≢◌, refl, ◌∙◌, sym, ap, subst, String, true, false, Option, none, some, List, arith,
  Bool-cases, Option-cases, inl, inr, if◌then◌else◌,
}
use catpn.Prelude.Decimal.{Decimal}
use catpn.Prelude.Dict.{find, put, find-put}
use catpn.Trading.{
  Credentials, OrderRequest, Order, Position, isolated, Reply, ok, refused, crashed, post_init,
  is_limit,
}
use catpn.Sim.{SimAccount, SimVenue, account_of, store_account}
use catpn.Sim.Access.{Admits, find-of-Admits, account_of-ne-crashed}
use catpn.Sim.Positions.{apply, grow, shrink, get_or}
use catpn.Sim.Positions.Reducing.{Reduced, apply-Reduced}
use catpn.Sim.Orders.{
  record_with, is_closing, nothing_to_reduce, target_key, apply_request, place_order,
}
use catpn.Sim.Orders.Course.{
  Executed, kept, traded, turned_away, dangling, priceless, again, anew, placed,
}
use catpn.Sim.Cancel.{is_cancellable, cancel, cancel_orders, cancel_all, positions}
use catpn.Sim.Cancel.Counts.{after_cancel, find-cancel_orders}
use catpn.Sim.Venue.{sim_adapter}
use catpn.Execution.{BotContext}
use catpn.Execution.Placing.{returned}
use catpn.Execution.Kill.{KillReport, kill}
use catpn.Execution.Kill.Safety.{Serves, kill_reports_and_reduces}

module _ {D : Type 0} ⦃d : Decimal D⦄ where
  -- The position that a venue holds for an API key under a position key.
  abbrev pub position_of : Option (SimAccount D) → String → Option (Position D)
  position_of none k = none
  position_of (some a) k = find k a.positions

  abbrev pub held_at : SimVenue D → String → String → Option (Position D)
  held_at venue api_key k = position_of (find api_key venue.accounts) k

  -- Every id in the idempotency index of an account is the id of an order.
  abbrev pub IsIndexed : SimAccount D → Type 0
  IsIndexed a =
      (id oid : String)
      → find id a.by_client_id ≡ some oid
      → (o : Order D) × (find oid a.orders ≡ some o)

  -- All accounts are indexed, and nothing is held where the venue `before` held nothing.
  pub record Narrowed (before after : SimVenue D) : Type 0 where
    pub indexed :
        (api_key : String) (a : SimAccount D) → find api_key after.accounts ≡ some a → IsIndexed a
    pub opens_nothing :
        (api_key k : String) → held_at before api_key k ≡ none → held_at after api_key k ≡ none

  -- Writing an account back that is indexed and holds nothing new.
  Narrowed-store :
      (before venue : SimVenue D) (c : Credentials) (a a' : SimAccount D) (n : ℕ)
      → Narrowed before venue
      → Admits venue c a
      → IsIndexed a'
      → ((k : String) → find k a.positions ≡ none → find k a'.positions ≡ none)
      → Narrowed before (store_account c a' (record venue { next_id = n }))
  Narrowed-store before venue c a a' n w h i opens = record {
    indexed = λ key b e. elim (Bool-cases (c.api_key == key)) [
      | inl s ↦
          let is_b : a' ≡ b =
            some_inj (rw s at (sym (find-put c.api_key key a' venue.accounts) ∙ e)) in
          subst IsIndexed is_b i
      | inr s ↦ w.indexed key b (rw s at (sym (find-put c.api_key key a' venue.accounts) ∙ e))
    ];
    opens_nothing = λ key k e.
        rw (find-put c.api_key key a' venue.accounts) (elim (Bool-cases (c.api_key == key)) [
          | inl s ↦
              let there : find key venue.accounts ≡ some a =
                subst (λ j. find j venue.accounts ≡ some a) ((eq_iff c.api_key key).0 s)
                  (find-of-Admits venue c a h) in
              rw s (opens k (ap (λ x. position_of x k) (sym there) ∙ w.opens_nothing key k e))
          | inr s ↦ rw s (w.opens_nothing key k e)
        ]);
  }
    where
      some_inj : {A : Type 0} {x y : A} → some x ≡ some y → x ≡ y
      some_inj e = cc

  -- What a recorded order does to the books of the account.
  Executed-orders :
      {id : String} {a : SimAccount D} {r : OrderRequest D} {x : Order D × SimAccount D}
      → Executed id a r x
      → (x.1.orders ≡ put x.0.order_id x.0 a.orders)
        × (x.1.by_client_id ≡ put r.client_id x.0.order_id a.by_client_id)
  unfolding record_with apply_request apply grow shrink
  Executed-orders (kept status qty average reason) = (refl, refl)
  Executed-orders {id} {a} {r} (traded price there) = ground arith

  Executed-IsIndexed :
      {id : String} {a : SimAccount D} {r : OrderRequest D} {x : Order D × SimAccount D}
      → Executed id a r x
      → IsIndexed a
      → IsIndexed x.1
  Executed-IsIndexed {id} {a} {r} {x} e i cid oid h =
      let books = Executed-orders e in
      let seen : (if r.client_id == cid then some x.0.order_id else find cid a.by_client_id)
          ≡ some oid =
        sym (find-put r.client_id cid x.0.order_id a.by_client_id)
        ∙ ap (find cid) (sym books.1)
        ∙ h in
      let stored : find oid x.1.orders
          ≡ (if x.0.order_id == oid then some x.0 else find oid a.orders) =
        ap (find oid) books.0 ∙ find-put x.0.order_id oid x.0 a.orders in
      elim (Bool-cases (x.0.order_id == oid)) [
        | inl s ↦ (x.0, stored ∙ rw s refl)
        | inr s ↦
            let other : (r.client_id == cid) ≡ false = ground (arith, eq_iff x.0.order_id oid) in
            let old = i cid oid (rw other at seen) in (old.0, stored ∙ rw s old.1)
      ]

  Reduced-none :
      (r : OrderRequest D) (p q : Option (Position D)) → Reduced r p q → p ≡ none → q ≡ none
  Reduced-none r none none h e = refl
  Reduced-none r none (some q) h e = absurd h
  Reduced-none r (some p) q h e = cc

  nothing_there :
      (a : SimAccount D) (r : OrderRequest D)
      → r.reduce_only ≡ true
      → find (target_key a r) a.positions ≡ none
      → nothing_to_reduce a r ≡ true
  nothing_there a r only missing = simp (only, missing)

  closed_by :
      (a : SimAccount D) (r : OrderRequest D) (price : D) (p : Position D)
      → r.reduce_only ≡ true
      → find (target_key a r) a.positions ≡ some p
      → (k : String) → Reduced r (find k a.positions) (find k (apply_request a r price).positions)
  unfolding apply_request
  closed_by a r price p only held k =
      let closing : is_closing r ≡ true = simp only in
      rw closing (
        apply-Reduced a (target_key a r) r price (get_or (find r.symbol a.leverage) 1)
          (get_or (find r.symbol a.margin_mode) isolated) p only held k)

  Executed-opens_nothing :
      {id : String} {a : SimAccount D} {r : OrderRequest D} {x : Order D × SimAccount D}
      → Executed id a r x
      → r.reduce_only ≡ true
      → (k : String) → find k a.positions ≡ none
      → find k x.1.positions ≡ none
  unfolding record_with
  Executed-opens_nothing (kept status qty average reason) only k h = h
  Executed-opens_nothing {id} {a} {r} (traded price there) only k h =
      elim (Option-cases (find (target_key a r) a.positions)) [
        | inl missing ↦
            let clash : true ≡ false = sym (nothing_there a r only missing) ∙ there in cc
        | inr (p, held) ↦
            Reduced-none r (find k a.positions) (find k (apply_request a r price).positions)
              (closed_by a r price p only held k) h
      ]

  limit_has_price :
      (r : OrderRequest D) → post_init r ≡ none → is_limit r.order_type ≡ true → r.price ≢ none
  unfolding post_init
  limit_has_price r built l p = ground arith

  -- The calls of the kill switch, on a venue whose index is sound.
  place-Narrowed :
      (before : SimVenue D) (c : Credentials) (r : OrderRequest D) (venue : SimVenue D)
      → post_init r ≡ none
      → r.reduce_only ≡ true
      → Narrowed before venue
      → ((place_order c r venue).0 ≢ crashed) × Narrowed before (place_order c r venue).1
  place-Narrowed before c r venue built only w = elim (placed c r venue) [
    | turned_away x e ↦ rw e (λ q. cc, w)
    | dangling a id h seen lost e ↦
        let o = w.indexed c.api_key a (find-of-Admits venue c a h) r.client_id id seen in
        let clash : none ≡ some o.0 = sym lost ∙ o.1 in cc
    | priceless l p e ↦ absurd (limit_has_price r built l p)
    | again a id o h trades seen there e ↦ rw e (λ q. cc, w)
    | anew a x h trades unseen made e ↦ rw e (
      λ q. cc,
      Narrowed-store before venue c a x.1 (suc venue.next_id) w h
          (Executed-IsIndexed made (w.indexed c.api_key a (find-of-Admits venue c a h)))
          (Executed-opens_nothing made only),
    )
  ]

  cancel-Narrowed :
      (before : SimVenue D) (c : Credentials) (symbol : Option String) (venue : SimVenue D)
      → Narrowed before venue
      → ((cancel_all c symbol venue).0 ≢ crashed) × Narrowed before (cancel_all c symbol venue).1
  unfolding cancel_all
  cancel-Narrowed before c symbol venue w = go (account_of venue c) refl
    where
      kept_there :
          (a : SimAccount D)
          → IsIndexed a
          → IsIndexed (record a { orders = (cancel_orders symbol a.orders).1 })
      kept_there a i cid oid e =
          let o = i cid oid e in
          (
            if is_cancellable symbol o.0 then cancel o.0 else o.0,
            find-cancel_orders symbol a.orders oid ∙ ap (after_cancel symbol) o.1,
          )

      go :
          (x : Reply (SimAccount D))
          → account_of venue c ≡ x
          → ((cancel_all c symbol venue).0 ≢ crashed)
            × Narrowed before (cancel_all c symbol venue).1
      go (ok a) h =
          rw (h, cancel_all)
            (
              λ q. cc,
              Narrowed-store before venue c a
                  (record a { orders = (cancel_orders symbol a.orders).1 }) venue.next_id w h
                  (kept_there a (w.indexed c.api_key a (find-of-Admits venue c a h))) (λ k e. e),
            )
      go (refused x) h = rw (h, cancel_all) (λ q. cc, w)
      go crashed h = absurd (account_of-ne-crashed venue c h)

  positions-Narrowed :
      (before : SimVenue D) (c : Credentials) (symbol : Option String) (venue : SimVenue D)
      → Narrowed before venue
      → ((positions c symbol venue).0 ≢ crashed) × Narrowed before (positions c symbol venue).1
  unfolding positions
  positions-Narrowed before c symbol venue w = go (account_of venue c) refl
    where
      go :
          (x : Reply (SimAccount D))
          → account_of venue c ≡ x
          → ((positions c symbol venue).0 ≢ crashed) × Narrowed before (positions c symbol venue).1
      go (ok a) h = rw (h, positions) (λ q. cc, w)
      go (refused x) h = rw (h, positions) (λ q. cc, w)
      go crashed h = absurd (account_of-ne-crashed venue c h)

  -- The simulated venue serves the kill switch.
  pub sim_adapter-Serves :
      (before : SimVenue D) → Serves D (SimVenue D) sim_adapter (Narrowed before)
  sim_adapter-Serves before = record {
    cancels = cancel-Narrowed before;
    reads = positions-Narrowed before;
    reduces = λ c r v built only w. place-Narrowed before c r v built only w;
  }

  -- On the simulated venue, if every client id that an account knows belongs to one of its
  -- orders, the kill switch comes to a report for any contexts, and where an account held no
  -- position under a key, it holds none there afterwards.
  pub kill_opens_nothing :
      (digest : List ℕ → String) (clock : ℕ → ℕ) (contexts : List BotContext) (venue : SimVenue D)
      → ((api_key : String) (a : SimAccount D) → find api_key venue.accounts ≡ some a → IsIndexed a)
      → (api_key k : String) → held_at venue api_key k ≡ none
      → let after = kill digest clock sim_adapter contexts venue in
        ((r : KillReport D) × (after.0 ≡ returned r)) × (held_at after.1 api_key k ≡ none)
  kill_opens_nothing digest clock contexts venue indexed api_key k e =
      let start : Narrowed venue venue = record {
        indexed = indexed;
        opens_nothing = λ key k e. e;
      } in
      let run =
        kill_reports_and_reduces digest clock sim_adapter (Narrowed venue)
          (sim_adapter-Serves venue) contexts venue start in
      (run.0, run.1.opens_nothing api_key k e)
