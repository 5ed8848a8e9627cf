-- ===== src/OrderBook/Quantities.antt =====
-- What becomes of the quantities of orders.
use executors.Base.{
  ℕ, zero, suc, ◌+◌, ◌-◌, ◌<◌, ◌≤◌, ◌≡◌, refl, ap, List, [], ◌∷◌, ◌++◌, Bool, Bool-cases, subst,
  sym, ◌∙◌, true, false, none, some, Option-cases, inl, inr, Ensures, Ensures-map, ◌==◌,
  if◌then◌else◌, length, arith, All, All-append, append-nil, append_assoc,
}
use native.Mathlib.Decide.{dec_lt}
use executors.OrderBook.{
  OrderSide, buy, sell, Order, NewOrder, MarketData, trade, new_order, OrderBook, push, other_side,
  this_side, Matched, match_top, find_match, find_matches, after_trade, is_apart, set_other_side,
  tell, min,
}

unfoldable pub volume : List Order → ℕ
volume [] = 0
volume (o ∷ os) = o.quantity + volume os

-- What was traded, of the market data.
abbrev pub traded_by : MarketData → ℕ
traded_by (trade side price quantity) = quantity
traded_by (new_order side price quantity) = 0

unfoldable pub traded : List MarketData → ℕ
traded [] = 0
traded (d ∷ ds) = traded_by d + traded ds

pub traded-append : (ds es : List MarketData) → traded (ds ++ es) ≡ traded ds + traded es
unfolding traded
traded-append [] es = omega arith
traded-append (d ∷ ds) es = omega (arith, traded-append ds es)

pub volume-push : (o : Order) (os : List Order) → volume (push o os) ≡ o.quantity + volume os
unfolding volume push
volume-push o [] = refl
volume-push o (x ∷ xs) = ground (arith, volume-push o xs)

pub length-push : (o : Order) (os : List Order) → length (push o os) ≡ suc (length os)
unfolding push
length-push o [] = refl
length-push o (x ∷ xs) = ground (arith, length-push o xs)

-- A trade at a price that the order allows.
abbrev pub Within : OrderSide → ℕ → MarketData → Type 0
Within buy limit (trade side price quantity) = price ≤ limit
Within sell limit (trade side price quantity) = limit ≤ price
Within side limit (new_order s price quantity) = ⊥

-- From an order and a book to what is left: the quantity that the order loses is traded, at allowed
-- prices, and leaves the other side, and this side stays.
pub record IsFilled (o : NewOrder) (b : OrderBook) (m : Matched) : Type 0 where
  pub filled : m.order.quantity + traded m.book.market_data ≡ o.quantity + traded b.market_data
  pub paid :
      volume (other_side o.side m.book) + traded m.book.market_data
      ≡ volume (other_side o.side b) + traded b.market_data
  pub kept : this_side o.side m.book ≡ this_side o.side b
  pub same :
      (m.order.side ≡ o.side)
      × (m.order.price ≡ o.price)
      × (m.order.immediate_or_cancel ≡ o.immediate_or_cancel)
  pub news : List MarketData
  pub told : m.book.market_data ≡ b.market_data ++ news
  pub within : All (Within o.side o.price) news

other_side-set :
    (s : OrderSide) (d : MarketData) (orders : List Order) (b : OrderBook)
    → (other_side s (tell d (set_other_side s orders b)) ≡ orders)
      × (this_side s (tell d (set_other_side s orders b)) ≡ this_side s b)
      × ((tell d (set_other_side s orders b)).market_data ≡ b.market_data ++ d ∷ [])
other_side-set buy d orders b = (refl, refl, refl)
other_side-set sell d orders b = (refl, refl, refl)

volume-after_trade :
    (quantity : ℕ) (passive : Order) (rest : List Order)
    → quantity ≤ passive.quantity
    → volume (after_trade quantity passive rest) + quantity ≡ passive.quantity + volume rest
volume-after_trade quantity passive rest le =
    ground (arith, volume-push (record passive { quantity = passive.quantity - quantity }) rest)

length-after_trade :
    (quantity : ℕ) (passive : Order) (rest : List Order)
    → passive.quantity ≤ quantity
    → length (after_trade quantity passive rest) ≡ length rest
length-after_trade quantity passive rest le = ground arith

-- What `match_top` gives, with its top, when they cross.
abbrev matched : NewOrder → OrderBook → Order → List Order → Matched
matched o b passive rest =
    let quantity = min o.quantity passive.quantity in
    record {
      order = record o { quantity = o.quantity - quantity };
      book =
          tell (trade o.side passive.price quantity)
            (set_other_side o.side (after_trade quantity passive rest) b);
    }

abbrev IsSmaller : NewOrder → OrderBook → Matched → Type 0
IsSmaller o b m =
    0 < m.order.quantity → length (other_side o.side m.book) < length (other_side o.side b)

crosses-Within :
    (s : OrderSide) (limit price quantity : ℕ)
    → is_apart s limit price ≡ false
    → Within s limit (trade s price quantity)
crosses-Within buy limit price quantity e = ground (arith, e)
crosses-Within sell limit price quantity e = ground (arith, e)

matched-IsFilled :
    (o : NewOrder) (b : OrderBook) (passive : Order) (rest : List Order)
    → other_side o.side b ≡ passive ∷ rest
    → is_apart o.side o.price passive.price ≡ false
    → IsFilled o b (matched o b passive rest) × IsSmaller o b (matched o b passive rest)
unfolding volume traded
matched-IsFilled o b passive rest e crosses =
    let quantity = min o.quantity passive.quantity in
    let d = trade o.side passive.price quantity in
    let left = after_trade quantity passive rest in
    let (others, mine, data_) = other_side-set o.side d left b in
    let less_own : quantity ≤ o.quantity = ground arith in
    let less_passive : quantity ≤ passive.quantity = ground arith in
    let told = traded-append b.market_data (d ∷ []) in
    (
      record {
        filled = omega (arith, ap traded data_, told, less_own);
        paid = omega (
          arith,
          ap traded data_,
          told,
          ap volume others,
          ap volume e,
          volume-after_trade quantity passive rest less_passive,
        );
        kept = mine;
        same = (refl, refl, refl);
        news = d ∷ [];
        told = data_;
        within = (crosses-Within o.side o.price passive.price quantity crosses, tt);
      },
      λ p.
          let all : passive.quantity ≤ quantity = ground (arith, p) in
          omega
            (arith, ap length others, ap length e, length-after_trade quantity passive rest all),
    )

crossed : (b : Bool) (m k : Matched) → (if b then none else some m) ≡ some k → b ≡ false → m ≡ k
crossed false m k h f = ap (λ o. elim o [ none ↦ m | some j ↦ j ]) h
crossed true m k h f = absurd (ground (arith, f))

match_top-IsFilled :
    (o : NewOrder) (b : OrderBook) (m : Matched) (orders : List Order)
    → other_side o.side b ≡ orders
    → match_top o b orders ≡ some m
    → IsFilled o b m × IsSmaller o b m
unfolding match_top
match_top-IsFilled o b m [] e h = absurd (ground (arith, h))
match_top-IsFilled o b m (passive ∷ rest) e h =
    elim (Bool-cases (is_apart o.side o.price passive.price)) [
      | inl apart ↦ absurd (ground (arith, h, apart))
      | inr crosses ↦
          let same =
            crossed (is_apart o.side o.price passive.price) (matched o b passive rest) m h
              crosses in
          subst (λ k. IsFilled o b k × IsSmaller o b k) same
            (matched-IsFilled o b passive rest e crosses)
    ]

find_match-IsFilled :
    (o : NewOrder) (b : OrderBook) (m : Matched)
    → find_match o b ≡ some m
    → IsFilled o b m × IsSmaller o b m
unfolding find_match
find_match-IsFilled o b m h = match_top-IsFilled o b m (other_side o.side b) refl h

match_top-Cons :
    (o : NewOrder) (b : OrderBook) (m : Matched) (orders : List Order)
    → match_top o b orders ≡ some m
    → 0 < length orders
unfolding match_top
match_top-Cons o b m [] h = absurd (ground (arith, h))
match_top-Cons o b m (passive ∷ rest) h = omega arith

no_match-IsFilled : (o : NewOrder) (b : OrderBook) → IsFilled o b (record { order = o; book = b })
no_match-IsFilled o b = record {
  filled = refl;
  paid = refl;
  kept = refl;
  same = (refl, refl, refl);
  news = [];
  told = sym (append-nil b.market_data);
  within = tt;
}

more-IsFilled :
    (o : NewOrder) (b : OrderBook) (m k : Matched)
    → IsFilled o b m
    → IsFilled m.order m.book k
    → IsFilled o b k
more-IsFilled o b m k f g = record {
  filled = omega (arith, f.filled, g.filled);
  paid = omega (
    arith,
    f.paid,
    g.paid,
    ap (λ s. volume (other_side s k.book)) f.same.0,
    ap (λ s. volume (other_side s m.book)) f.same.0,
  );
  kept =
      ap (λ s. this_side s k.book) (sym f.same.0)
      ∙ g.kept
      ∙ ap (λ s. this_side s m.book) f.same.0
      ∙ f.kept;
  same = (g.same.0 ∙ f.same.0, g.same.1 ∙ f.same.1, g.same.2 ∙ f.same.2);
  news = f.news ++ g.news;
  told = g.told ∙ ap (λ ds. ds ++ g.news) f.told ∙ append_assoc b.market_data f.news g.news;
  within = All-append (Within o.side o.price) f.news g.news f.within (
      subst (λ s. All (Within s o.price) g.news) f.same.0
        (subst (λ p. All (Within m.order.side p) g.news) f.same.1 g.within));
}

spent-find_matches :
    (fuel : ℕ) (o : NewOrder) (b : OrderBook)
    → 0 < fuel
    → o.quantity ≡ 0
    → find_matches fuel o b ≡ some (record { order = o; book = b })
unfolding find_matches
spent-find_matches zero o b lt e = absurd (omega arith)
spent-find_matches (suc fuel) o b lt e = ground (arith, e)

-- Fuel above the number of orders on the other side is enough.
pub find_matches-IsFilled :
    (fuel : ℕ) (o : NewOrder) (b : OrderBook)
    → length (other_side o.side b) < fuel
    → Ensures (IsFilled o b) (find_matches fuel o b)
unfolding find_matches find_match
find_matches-IsFilled zero o b lt = absurd (omega arith)
find_matches-IsFilled (suc fuel) o b lt = elim (dec_lt 0 o.quantity) [
  | no done ↦
      subst (λ k. Ensures (IsFilled o b) k)
        (sym (spent-find_matches (suc fuel) o b (omega arith) (omega (arith, done))))
        (no_match-IsFilled o b)
  | yes more ↦
      let open_ : (o.quantity == 0) ≡ false = ground (arith, more) in
      elim (Option-cases (find_match o b)) [
        | inl h ↦ rw (open_, h) (no_match-IsFilled o b)
        | inr (m, h) ↦
            let (f, smaller) = find_match-IsFilled o b m h in
            let some_left = match_top-Cons o b m (other_side o.side b) h in
            rw (open_, h)
              (Ensures-map (IsFilled m.order m.book) (IsFilled o b)
                (find_matches fuel m.order m.book) (λ k g. more-IsFilled o b m k f g)
                (elim (dec_lt 0 m.order.quantity) [
                  | no done ↦
                      subst (λ k. Ensures (IsFilled m.order m.book) k)
                        (sym (
                          spent-find_matches fuel m.order m.book (omega (arith, lt, some_left))
                            (omega (arith, done))))
                        (no_match-IsFilled m.order m.book)
                  | yes left ↦ find_matches-IsFilled fuel m.order m.book (
                      omega
                        (arith, lt, smaller left, ap (λ s. length (other_side s m.book)) f.same.0))
                ]))
      ]
]
