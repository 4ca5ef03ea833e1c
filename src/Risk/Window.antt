-- ===== src/Risk/Window.antt =====
-- The rate window of apps/api/quanta/services/risk.py: `_trim` against a filter, and what the
-- window says of the whole history of sent orders.
use catpn.Prelude.{
  ℕ, ◌+◌, ◌≤◌, ◌<◌, ◌≡◌, refl, ◌⊎◌, inl, inr, ◌∙◌, sym, ap, Bool, true, false, List, [], ◌∷◌, ◌++◌,
  ltb, arith, length, keep_if, count_if, length-keep_if, count_if-append, All, All-append, All-imp,
}
use catpn.Prelude.Decimal.{Decimal}
use catpn.Trading.{OrderRequest, Position}
use catpn.Risk.{
  RiskLimits, RiskState, Time, minute_length, trim_orders, record_order, observe,
  orders_in_last_minute, check_equity, judge_order, check_order,
}

-- A timestamp that the window at `moment` still counts.
abbrev pub in_window : Time → Time → Bool
in_window moment t = ltb moment (t + minute_length)

-- Timestamps in the order in which a clock gives them.
abbrev pub InOrder : List Time → Type 0
InOrder [] = Unit
InOrder (t ∷ ts) = All (λ u. t ≤ u) ts × InOrder ts

keep-All :
    (moment t : Time) (ts : List Time)
    → moment < t + minute_length
    → All (λ u. t ≤ u) ts
    → keep_if (in_window moment) ts ≡ ts
keep-All moment t [] h a = refl
keep-All moment t (u ∷ ts) h a = ground (arith, keep-All moment t ts h a.1)

-- On timestamps in order, dropping old ones from the front keeps exactly those less than a
-- minute old.
pub trim_orders-eq-keep_if :
    (moment : Time) (ts : List Time)
    → InOrder ts
    → trim_orders moment ts ≡ keep_if (in_window moment) ts
unfolding trim_orders
trim_orders-eq-keep_if moment [] h = refl
trim_orders-eq-keep_if moment (t ∷ ts) h =
    ground (arith, trim_orders-eq-keep_if moment ts h.1, keep-All moment t ts _ h.0)

All-keep_if :
    (P : Time → Type 0) (p : Time → Bool) (ts : List Time) → All P ts → All P (keep_if p ts)
All-keep_if P p [] h = tt
All-keep_if P p (t ∷ ts) h = ground (arith, All-keep_if P p ts h.1)

InOrder-keep_if : (p : Time → Bool) (ts : List Time) → InOrder ts → InOrder (keep_if p ts)
InOrder-keep_if p [] h = tt
InOrder-keep_if p (t ∷ ts) h =
    ground (arith, InOrder-keep_if p ts h.1, All-keep_if (λ u. t ≤ u) p ts h.0)

keep_if-keep_if :
    (m m' : Time) (ts : List Time)
    → m ≤ m'
    → keep_if (in_window m') (keep_if (in_window m) ts) ≡ keep_if (in_window m') ts
keep_if-keep_if m m' [] h = refl
keep_if-keep_if m m' (t ∷ ts) h = ground (arith, keep_if-keep_if m m' ts h)

keep_if-append :
    (p : Time → Bool) (xs ys : List Time) → keep_if p (xs ++ ys) ≡ keep_if p xs ++ keep_if p ys
keep_if-append p [] ys = refl
keep_if-append p (x ∷ xs) ys = ground (arith, keep_if-append p xs ys)

InOrder-snoc :
    (ts : List Time) (m : Time) → InOrder ts → All (λ u. u ≤ m) ts → InOrder (ts ++ m ∷ [])
InOrder-snoc [] m h a = (tt, tt)
InOrder-snoc (t ∷ ts) m h a =
    (All-append (λ u. t ≤ u) ts (m ∷ []) h.0 (a.0, tt), InOrder-snoc ts m h.1 a.1)

module _ {D : Type 0} ⦃d : Decimal D⦄ (l : RiskLimits D) where
  -- The states that a guard goes through, with the moments of all orders sent so far and the
  -- moment of the last event: any orders are checked, any equity is observed, and any order, an
  -- exit too, is recorded when it was sent.
  pub data History : RiskState D → List Time → Time → Type 0 where
    booted : (s : RiskState D) (t : Time) → s.recent_orders ≡ [] → History s [] t
    observed :
        {s : RiskState D} {log : List Time} {t : Time} (equity : D) (m : Time)
        → History s log t
        → t ≤ m
        → History (check_equity l equity m s).1 log m
    checked :
        {s : RiskState D} {log : List Time} {t : Time} (r : OrderRequest D) (price equity : D)
        (ps : List (Position D)) (leverage : ℕ) (m : Time)
        → History s log t
        → t ≤ m
        → History (check_order l r price equity ps leverage m s).1 log m
    sent :
        {s : RiskState D} {log : List Time} {t : Time} (m : Time)
        → History s log t
        → t ≤ m
        → History (record_order m s) (log ++ m ∷ []) m

  -- What the window remembers of the log.
  record Tracks (recent log : List Time) (t : Time) : Type 0 where
    ordered : InOrder recent
    past : All (λ u. u ≤ t) recent
    agrees : (m : Time) → t ≤ m → keep_if (in_window m) recent ≡ keep_if (in_window m) log

  Tracks-later :
      (recent log : List Time) (t m : Time) → t ≤ m → Tracks recent log t → Tracks recent log m
  Tracks-later recent log t m h k = record {
    ordered = k.ordered;
    past = All-imp (λ u. u ≤ t) (λ u. u ≤ m) recent (λ u p. omega arith) k.past;
    agrees = λ m' h'. k.agrees m' (omega arith);
  }

  Tracks-trim :
      (recent log : List Time) (m : Time)
      → Tracks recent log m
      → Tracks (trim_orders m recent) log m
  Tracks-trim recent log m k = rw (trim_orders-eq-keep_if m recent k.ordered) (record {
    ordered = InOrder-keep_if (in_window m) recent k.ordered;
    past = All-keep_if (λ u. u ≤ m) (in_window m) recent k.past;
    agrees = λ m' h. keep_if-keep_if m m' recent h ∙ k.agrees m' h;
  })

  Tracks-snoc :
      (recent log : List Time) (m : Time)
      → Tracks recent log m
      → Tracks (recent ++ m ∷ []) (log ++ m ∷ []) m
  Tracks-snoc recent log m k = record {
    ordered = InOrder-snoc recent m k.ordered k.past;
    past = All-append (λ u. u ≤ m) recent (m ∷ []) k.past (omega arith, tt);
    agrees = λ m' h.
        keep_if-append _ recent (m ∷ [])
        ∙ ap (λ xs. xs ++ keep_if (in_window m') (m ∷ [])) (k.agrees m' h)
        ∙ sym (keep_if-append _ log (m ∷ []));
  }

  -- A check leaves the window as it is, or trims it.
  recent-check_equity :
      (s : RiskState D) (equity : D) (m : Time)
      → (check_equity l equity m s).1.recent_orders ≡ s.recent_orders
  unfolding check_equity observe
  recent-check_equity s equity m = ground arith

  recent-judge_order :
      (s : RiskState D) (r : OrderRequest D) (price : D) (ps : List (Position D)) (leverage : ℕ)
      (m : Time)
      → let after = (judge_order l r price ps leverage m s).1.recent_orders in
        (after ≡ s.recent_orders) ⊎ (after ≡ trim_orders m s.recent_orders)
  unfolding judge_order orders_in_last_minute
  recent-judge_order s r price ps leverage m = ground arith

  recent-check_order :
      (s : RiskState D) (r : OrderRequest D) (price equity : D) (ps : List (Position D))
      (leverage : ℕ) (m : Time)
      → let after = (check_order l r price equity ps leverage m s).1.recent_orders in
        (after ≡ s.recent_orders) ⊎ (after ≡ trim_orders m s.recent_orders)
  unfolding check_order
  recent-check_order s r price equity ps leverage m = ground (
    arith,
    recent-check_equity s equity m,
    recent-judge_order (check_equity l equity m s).1 r price ps leverage m,
  )

  History-Tracks :
      {s : RiskState D} {log : List Time} {t : Time}
      → History s log t
      → Tracks s.recent_orders log t
  unfolding record_order
  History-Tracks (booted s t e) = rw e (record { ordered = tt; past = tt; agrees = λ m h. refl })
  History-Tracks (observed {s} {log} {t} equity m h le) =
      rw (recent-check_equity s equity m) (Tracks-later _ log t m le (History-Tracks h))
  History-Tracks (checked {s} {log} {t} r price equity ps leverage m h le) =
      let k = Tracks-later _ log t m le (History-Tracks h) in
      elim (recent-check_order s r price equity ps leverage m) [
        | inl e ↦ rw e k
        | inr e ↦ rw e (Tracks-trim _ log m k)
      ]
  History-Tracks (sent {s} {log} {t} m h le) =
      Tracks-trim _ _ m (Tracks-snoc _ log m (Tracks-later _ log t m le (History-Tracks h)))

  room_when_allowed :
      (s : RiskState D) (r : OrderRequest D) (price equity : D) (ps : List (Position D))
      (leverage : ℕ) (m : Time)
      → r.reduce_only ≡ false
      → (check_order l r price equity ps leverage m s).0.allowed ≡ true
      → length (trim_orders m s.recent_orders) < l.max_orders_per_minute
  unfolding check_order check_equity observe judge_order orders_in_last_minute
  room_when_allowed s r price equity ps leverage m opens h = ground arith

  -- Along any history of checks, observations and orders sent at moments that do not go back,
  -- exits included, an order that is not reduce-only is allowed only if, with it, at most
  -- max_orders_per_minute orders lie in the last minute of the log of all orders sent.
  pub orders_per_minute_bound :
      {s : RiskState D} {log : List Time} {t : Time} (r : OrderRequest D) (price equity : D)
      (ps : List (Position D)) (leverage : ℕ) (m : Time)
      → History s log t
      → t ≤ m
      → r.reduce_only ≡ false
      → (check_order l r price equity ps leverage m s).0.allowed ≡ true
      → count_if (in_window m) (log ++ m ∷ []) ≤ l.max_orders_per_minute
  orders_per_minute_bound {s} {log} {t} r price equity ps leverage m h le opens allowed =
      let k = History-Tracks h in
      let seen = trim_orders-eq-keep_if m s.recent_orders k.ordered ∙ k.agrees m le in
      omega (
        arith,
        room_when_allowed s r price equity ps leverage m opens allowed,
        ap length seen,
        length-keep_if (in_window m) log,
        count_if-append (in_window m) log (m ∷ []),
        one m,
      )
    where
      one : (m : Time) → count_if (in_window m) (m ∷ []) ≡ 1
      one m = ground arith
