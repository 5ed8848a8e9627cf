-- ===== src/OrderBook.antt =====
-- src/examples/trading/server/price_time_order_book.cpp: a book of orders to buy and to sell. A
-- `std::priority_queue` is the list of its orders from the top down. Of prices only the order counts, so
-- that they are numbers; quantities and times are numbers as well: the code subtracts no more than there is.
pub mod Quantities
pub mod Priority
use executors.Base.{
  ℕ, zero, suc, ◌+◌, ◌-◌, List, [], ◌∷◌, ◌++◌, Bool, true, false, Option, none, some, ltb, ◌==◌,
  ◌&&◌, ◌||◌, not, if◌then◌else◌,
}

pub data OrderSide : Type 0 where
  buy : OrderSide
  sell : OrderSide

pub record Order : Type 0 where
  pub price : ℕ
  pub time : ℕ
  pub quantity : ℕ

pub record NewOrder : Type 0 where
  pub side : OrderSide
  pub price : ℕ
  pub quantity : ℕ
  pub immediate_or_cancel : Bool

-- What the market data bus is told.
pub data MarketData : Type 0 where
  trade : OrderSide → ℕ → ℕ → MarketData
  new_order : OrderSide → ℕ → ℕ → MarketData

pub record OrderBook : Type 0 where
  pub buy_orders : List Order
  pub sell_orders : List Order
  pub next_time : ℕ
  pub market_data : List MarketData

-- `operator<` of orders.
abbrev pub less : Order → Order → Bool
less a b = ltb a.price b.price || ((a.price == b.price) && ltb a.time b.time)

-- `push` of a priority queue.
unfoldable pub push : Order → List Order → List Order
push o [] = o ∷ []
push o (x ∷ xs) = let rest = push o xs in if less o x then x ∷ rest else o ∷ x ∷ xs

abbrev pub min : ℕ → ℕ → ℕ
min a b = if ltb b a then b else a

abbrev pub other_side : OrderSide → OrderBook → List Order
other_side buy b = b.sell_orders
other_side sell b = b.buy_orders

abbrev pub set_other_side : OrderSide → List Order → OrderBook → OrderBook
set_other_side buy orders b = record b { sell_orders = orders }
set_other_side sell orders b = record b { buy_orders = orders }

abbrev pub this_side : OrderSide → OrderBook → List Order
this_side buy b = b.buy_orders
this_side sell b = b.sell_orders

abbrev pub set_this_side : OrderSide → List Order → OrderBook → OrderBook
set_this_side buy orders b = record b { buy_orders = orders }
set_this_side sell orders b = record b { sell_orders = orders }

-- The order does not cross the one on the other side.
abbrev pub is_apart : OrderSide → ℕ → ℕ → Bool
is_apart buy price passive_price = ltb price passive_price
is_apart sell price passive_price = ltb passive_price price

-- The other side after a trade with its top.
abbrev pub after_trade : ℕ → Order → List Order → List Order
after_trade quantity passive rest =
    let left = record passive { quantity = passive.quantity - quantity } in
    if ltb 0 left.quantity then push left rest else rest

abbrev pub tell : MarketData → OrderBook → OrderBook
tell d b = record b { market_data = b.market_data ++ d ∷ [] }

pub record Matched : Type 0 where
  pub order : NewOrder
  pub book : OrderBook

-- One match of an order with the orders of the other side, if there is one.
unfoldable pub match_top : NewOrder → OrderBook → List Order → Option Matched
unfolding push
match_top o b [] = none
match_top o b (passive ∷ rest) =
    let quantity = min o.quantity passive.quantity in
    if is_apart o.side o.price passive.price
    then none
    else some (record {
      order = record o { quantity = o.quantity - quantity };
      book =
          tell (trade o.side passive.price quantity)
            (set_other_side o.side (after_trade quantity passive rest) b);
    })

unfoldable pub find_match : NewOrder → OrderBook → Option Matched
unfolding match_top
find_match o b = match_top o b (other_side o.side b)

unfoldable pub add_order : NewOrder → OrderBook → OrderBook
unfolding push
add_order o b =
    let passive : Order = record { price = o.price; time = b.next_time; quantity = o.quantity } in
    tell (new_order o.side o.price o.quantity) (
      set_this_side o.side (push passive (this_side o.side b))
        (record b { next_time = suc b.next_time }))

-- The loop of `process_new_order`, on fuel: what it leaves of the order, and the book.
unfoldable pub find_matches : ℕ → NewOrder → OrderBook → Option Matched
unfolding find_match
find_matches zero o b = none
find_matches (suc fuel) o b =
    if o.quantity == 0 then some (record { order = o; book = b }) else elim (find_match o b) [
      | none ↦ some (record { order = o; book = b })
      | some m ↦ find_matches fuel m.order m.book
    ]

abbrev pub enter_rest : Matched → OrderBook
enter_rest m =
    if ltb 0 m.order.quantity && not m.order.immediate_or_cancel
    then add_order m.order m.book
    else m.book

unfoldable pub process_new_order : ℕ → NewOrder → OrderBook → Option OrderBook
unfolding find_matches add_order
process_new_order fuel o b = elim (find_matches fuel o b) [
  | none ↦ none
  | some m ↦ some (enter_rest m)
]
