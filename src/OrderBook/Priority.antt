-- ===== src/OrderBook/Priority.antt =====
-- What a new order does to the book, and which orders it meets.
use executors.Base.{
  ℕ, suc, ◌+◌, ◌<◌, ◌≤◌, ◌≡◌, refl, ap, sym, ◌∙◌, subst, List, [], ◌∷◌, ◌++◌, Bool-cases, true,
  ◌==◌, ◌||◌, false, none, Option-cases, inl, inr, Ensures, length, arith, append-nil, All, not,
  ◌&&◌, ltb, if◌then◌else◌,
}
use executors.OrderBook.{
  OrderSide, buy, sell, Order, NewOrder, MarketData, new_order, OrderBook, push, less, other_side,
  this_side, Matched, match_top, find_match, add_order, find_matches, enter_rest, process_new_order,
  set_this_side, tell, is_apart,
}
use executors.OrderBook.Quantities.{
  volume, traded, Within, IsFilled, traded-append, volume-push, find_matches-IsFilled,
}

-- What is told of an order of which a quantity is left: nothing if that is to be cancelled, or if it is 0.
abbrev pub announced : NewOrder → ℕ → List MarketData
announced o left =
    if o.immediate_or_cancel || left == 0 then [] else new_order o.side o.price left ∷ []

-- What the order left of itself goes to its side of the book, unless it is to be cancelled; the rest was
-- traded and has left the other side. The market data tells of trades at allowed prices, and then, at most,
-- of what went to the book.
pub record IsSettled (o : NewOrder) (b k : OrderBook) : Type 0 where
  pub left : ℕ
  pub filled : left + traded k.market_data ≡ o.quantity + traded b.market_data
  pub paid :
      volume (other_side o.side k) + traded k.market_data
      ≡ volume (other_side o.side b) + traded b.market_data
  pub entered :
      volume (this_side o.side k)
      ≡ volume (this_side o.side b) + (if o.immediate_or_cancel then 0 else left)
  pub trades : List MarketData
  pub told : k.market_data ≡ b.market_data ++ trades ++ announced o left
  pub within : All (Within o.side o.price) trades

this_side-set :
    (s : OrderSide) (d : MarketData) (passive : Order) (b : OrderBook)
    → let k = tell d (
        set_this_side s
          (push passive (this_side s b))
          (record b { next_time = suc b.next_time })) in
      (other_side s k ≡ other_side s b)
      × (this_side s k ≡ push passive (this_side s b))
      × (k.market_data ≡ b.market_data ++ d ∷ [])
this_side-set buy d passive b = (refl, refl, refl)
this_side-set sell d passive b = (refl, refl, refl)

add_order_lem :
    (o : NewOrder) (b : OrderBook)
    → (other_side o.side (add_order o b) ≡ other_side o.side b)
      × (volume (this_side o.side (add_order o b)) ≡ o.quantity + volume (this_side o.side b))
      × ((add_order o b).market_data ≡ b.market_data ++ new_order o.side o.price o.quantity ∷ [])
unfolding add_order
add_order_lem o b =
    let passive : Order = record { price = o.price; time = b.next_time; quantity = o.quantity } in
    let (others, mine, data_) =
      this_side-set o.side (new_order o.side o.price o.quantity) passive b in
    (others, ap volume mine ∙ volume-push passive (this_side o.side b), data_)

enter-IsSettled :
    (o : NewOrder) (b : OrderBook) (m : Matched) → IsFilled o b m → IsSettled o b (enter_rest m)
unfolding traded
enter-IsSettled o b m f =
    elim (Bool-cases (ltb 0 m.order.quantity && not m.order.immediate_or_cancel)) [
      | inl enters ↦
          let (others, mine, data_) = add_order_lem m.order m.book in
          let k = add_order m.order m.book in
          let d = new_order m.order.side m.order.price m.order.quantity in
          let stays : o.immediate_or_cancel ≡ false = ground (arith, enters, f.same.2) in
          let keeps : (if o.immediate_or_cancel then 0 else m.order.quantity) ≡ m.order.quantity =
            ground (arith, stays) in
          let entry : d ∷ [] ≡ announced o m.order.quantity =
            ground (arith, enters, f.same.0, f.same.1, f.same.2) in
          let none_traded : traded k.market_data ≡ traded m.book.market_data =
            ap traded data_ ∙ traded-append m.book.market_data (d ∷ []) ∙ ground arith in
          rw enters (record {
            left = m.order.quantity;
            filled = omega (arith, f.filled, none_traded);
            paid = omega (
              arith,
              f.paid,
              none_traded,
              ap volume others,
              ap (λ s. volume (other_side s k)) f.same.0,
              ap (λ s. volume (other_side s m.book)) f.same.0,
            );
            entered = omega (
              arith,
              mine,
              keeps,
              ap volume f.kept,
              ap (λ s. volume (this_side s k)) f.same.0,
              ap (λ s. volume (this_side s m.book)) f.same.0,
            );
            trades = f.news;
            told =
                data_
                ∙ ap (λ ds. ds ++ d ∷ []) f.told
                ∙ ap (λ ds. (b.market_data ++ f.news) ++ ds) entry;
            within = f.within;
          })
      | inr stops ↦
          let nothing : (if o.immediate_or_cancel then 0 else m.order.quantity) ≡ 0 =
            ground (arith, stops, f.same.2) in
          let entry : [] ≡ announced o m.order.quantity = ground (arith, stops, f.same.2) in
          rw stops (record {
            left = m.order.quantity;
            filled = f.filled;
            paid = f.paid;
            entered = omega (arith, nothing, ap volume f.kept);
            trades = f.news;
            told =
                f.told
                ∙ sym (append-nil (b.market_data ++ f.news))
                ∙ ap (λ ds. (b.market_data ++ f.news) ++ ds) entry;
            within = f.within;
          })
    ]

-- The processing of an order, with more fuel than there are orders on the other side, ends. What of its
-- quantity is traded has left the other side, and the rest goes to its own side, unless the order is
-- to be cancelled at once. The market data that it adds are trades, none of them at a price that the order
-- does not allow, and then one entry for that rest if it goes to the book.
pub process_new_order_lem :
    (fuel : ℕ) (o : NewOrder) (b : OrderBook)
    → length (other_side o.side b) < fuel
    → Ensures (IsSettled o b) (process_new_order fuel o b)
unfolding process_new_order
process_new_order_lem fuel o b lt = elim (Option-cases (find_matches fuel o b)) [
  | inl h ↦ absurd (subst (λ k. Ensures (IsFilled o b) k) h (find_matches-IsFilled fuel o b lt))
  | inr (m, h) ↦
      rw (h, Ensures)
        (enter-IsSettled o b m
          (subst (λ k. Ensures (IsFilled o b) k) h (find_matches-IsFilled fuel o b lt)))
]

-- The top of the queue is at no lower price than what was pushed.
push-top :
    (o : Order) (os : List Order)
    → (x : Order) × (xs : List Order) × (push o os ≡ x ∷ xs) × (o.price ≤ x.price)
unfolding push
push-top o [] = (o, [], refl, omega arith)
push-top o (x ∷ xs) = elim (Bool-cases (less o x)) [
  | inl l ↦ (x, push o xs, rw l refl, ground (arith, l))
  | inr g ↦ (o, x ∷ xs, rw g refl, omega arith)
]

-- One order to sell above the price of an order to buy keeps it from all orders to sell, also from those
-- at a price that it allows.
pub find_match-push :
    (o : NewOrder) (b : OrderBook) (dear : Order) (others : List Order)
    → o.side ≡ buy
    → o.price < dear.price
    → find_match o (record b { sell_orders = push dear others }) ≡ none
unfolding find_match match_top
find_match-push o b dear others s lt =
    let (x, xs, e, le) = push-top dear others in
    let k = record b { sell_orders = push dear others } in
    let top : other_side o.side k ≡ x ∷ xs = ap (λ s. other_side s k) s ∙ e in
    let apart : is_apart o.side o.price x.price ≡ true =
      ap (λ s. is_apart s o.price x.price) s ∙ ground (arith, lt, le) in
    ap (match_top o k) top ∙ rw apart refl
