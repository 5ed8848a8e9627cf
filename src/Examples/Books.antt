-- ===== src/Examples/Books.antt =====
-- A book with two orders to sell, of 5 at the price 100 and of 10 at the price 105.
use executors.Base.{ℕ, ◌≡◌, refl, arith, [], ◌∷◌, false, none, Ensures}
use executors.OrderBook.{buy, Order, NewOrder, OrderBook, push, find_match, process_new_order}
use executors.OrderBook.Priority.{IsSettled, process_new_order_lem, find_match-push}

abbrev cheap : Order
cheap = record { price = 100; time = 1; quantity = 5 }

abbrev dear : Order
dear = record { price = 105; time = 0; quantity = 10 }

abbrev book : OrderBook
book = record {
  buy_orders = [];
  sell_orders = push dear (cheap ∷ []);
  next_time = 2;
  market_data = [];
}

abbrev order : ℕ → NewOrder
order price = record { side = buy; price = price; quantity = 12; immediate_or_cancel = false }

process_new_order_lem_example :
    Ensures (IsSettled (order 110) book) (process_new_order 3 (order 110) book)
unfolding push
process_new_order_lem_example = process_new_order_lem 3 (order 110) book (omega arith)

-- The price 102 is above that of the cheap order.
find_match-push_example : find_match (order 102) book ≡ none
find_match-push_example = find_match-push (order 102) book dear (cheap ∷ []) refl (omega arith)
