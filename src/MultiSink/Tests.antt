-- ===== src/MultiSink/Tests.antt =====
-- Calls for two books, and what the sink of several books shows of each.
use lobsim.MultiSink.{records_for}
use lobsim.Types.{add, subtract}
use lobsim.MultiSink.{receive}
use lobsim.Base.{assoc_map, List, String, [], pos, refl, some, ◌∷◌, ◌≡◌}
use lobsim.Types.{
  on_fill as fill_call, on_event_apply as event_call, reset as reset_call, SinkCall, subtract,
}
use lobsim.Ledger.{empty_sink, fill_entry, maker, opened, receive_all}
use lobsim.Ledger.Tests.{applied, bought}
use lobsim.MultiSink.{
  Use, call, empty_multi_sink, fills_for, find_book_order, receive_each, send_all, take_events,
  use_all,
}
use lobsim.MultiSink.Agrees.{Agrees, calls_of, receive_each-Agrees}
use lobsim.MultiSink.Scoped.{send_all-Agrees, own_calls}
use lobsim.MultiSink.Split.{IsSplit, use_all-IsSplit}

-- The last use first: two books, a drain and a reset by the scoped sink.
abbrev two_books : List SinkCall
two_books =
    event_call (record (applied subtract (pos 1)) { book_key = "ETH" })
    ∷ fill_call bought
    ∷ event_call (record (applied add (pos 5)) { book_key = "ETH" })
    ∷ event_call (applied add (pos 5))
    ∷ []

abbrev uses : List Use
uses = call (fill_call bought) ∷ take_events ∷ call (event_call (applied add (pos 5))) ∷ []

abbrev sent : List (String × SinkCall)
sent =
    ("BTC", fill_call bought)
    ∷ ("BTC", reset_call)
    ∷ ("ETH", event_call (record (applied add (pos 5)) { book_key = "" }))
    ∷ ("BTC", event_call (applied add (pos 5)))
    ∷ []

-- The fill is on the ledger of its own book only.
kept_apart :
    (find_book_order "BTC" (pos 10) (receive_each two_books empty_multi_sink)
      ≡ some (fill_entry maker bought (opened (applied add (pos 5)))))
    × (fills_for "ETH" (receive_each two_books empty_multi_sink) ≡ some [])
unfolding receive_each receive records_for
kept_apart = (refl, refl)

use_all-IsSplit_example : IsSplit "BTC" (use_all uses empty_multi_sink)
use_all-IsSplit_example = use_all-IsSplit uses "BTC"

receive_each-Agrees_example :
    Agrees "ETH"
      (receive_each two_books empty_multi_sink)
      (receive_all (calls_of "ETH" two_books) empty_sink)
receive_each-Agrees_example = receive_each-Agrees two_books "ETH"

send_all-Agrees_example :
    Agrees "ETH" (send_all sent empty_multi_sink) (receive_all (own_calls "ETH" sent) empty_sink)
send_all-Agrees_example = send_all-Agrees sent "ETH" (refl, (tt, (refl, (refl, tt))))
