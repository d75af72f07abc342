-- ===== src/Api/Visits.antt =====
-- The handler of the WebSocket in src/bidding/api/routes.py, while other handlers use the manager.
use transaction_safe_bidding.Prelude.{ℕ, ◌++◌, Bool, Option, none, some, List, [], ◌∷◌}
use transaction_safe_bidding.Domain.Errors.{Exn, Result, ok, err}
use transaction_safe_bidding.Domain.Models.{Uuid, AuctionSnapshot}
use transaction_safe_bidding.Api.Sockets.{Connections, Socket, connect, disconnect, broadcast}
use transaction_safe_bidding.Api.Handlers.{AuctionResponse, auction_response}

-- A call of the manager by another handler.
pub data Action : Type 0 where
  joined left : Uuid → Socket → Action
  broadcasted : Uuid → (Socket → Bool) → Action

unfoldable pub act : Connections → Action → Connections
act connections (joined key s) = connect connections key s
act connections (left key s) = disconnect connections key s
act connections (broadcasted key delivers) = broadcast connections key delivers

unfoldable pub act_all : Connections → List Action → Connections
unfolding act
act_all connections [] = connections
act_all connections (action ∷ actions) = act_all (act connections action) actions

-- An exception of an operation on the socket.
pub data Interrupt : Type 0 where
  websocket_disconnect : Interrupt
  other_error : Exn → Interrupt

-- `except WebSocketDisconnect: pass`
unfoldable pub uncaught : Interrupt → Option Interrupt
uncaught websocket_disconnect = none
uncaught (other_error e) = some (other_error e)

-- What the socket and the other handlers do: the exception of each operation, if it raises one, the
-- calls of others from `connect` to the end of `send_json`, and those after it, until `receive_text`
-- raises, as in the end it does.
pub record Surroundings : Type 0 where
  pub close : Option Interrupt
  pub accept : Option Interrupt
  pub send_json : Option Interrupt
  pub receive_text : Interrupt
  pub early : List Action
  pub late : List Action

-- What the handler itself sends.
pub data Greeting : Type 0 where
  closed : ℕ → Greeting
  snapshot : AuctionResponse → Greeting

-- What the handler does: what it sends, the calls of others while it listens, the manager when it has
-- connected, when the snapshot is sent and when it stops listening, the manager at the end, and the
-- exception that it raises.
pub record Visit : Type 0 where
  pub sent : Option Greeting
  pub calls : List Action
  pub states : List Connections
  pub after : Connections
  pub raised : Option Interrupt

-- The `try` with its handler and `finally`, from the manager after `connect` on.
unfoldable pub listen :
    Connections → Uuid → Socket → AuctionSnapshot → Surroundings → Option Interrupt → Visit
unfolding act_all uncaught
listen connections auction_id s auction around (some interrupt) = record {
  sent = none;
  calls = around.early;
  states = connections ∷ act_all connections around.early ∷ [];
  after = disconnect (act_all connections around.early) auction_id s;
  raised = uncaught interrupt;
}
listen connections auction_id s auction around none =
    let greeted = act_all connections around.early in
    record {
      sent = some (snapshot (auction_response auction));
      calls = around.early ++ around.late;
      states = connections ∷ greeted ∷ act_all greeted around.late ∷ [];
      after = disconnect (act_all greeted around.late) auction_id s;
      raised = uncaught around.receive_text;
    }

-- A visit that ends before the socket is connected.
abbrev pub unconnected : Connections → Option Greeting → Option Interrupt → Visit
unconnected connections sent raised = record {
  sent = sent;
  calls = [];
  states = [];
  after = connections;
  raised = raised;
}

-- `manager.connect`, which accepts the socket first, and what follows.
unfoldable pub enter :
    Connections → Uuid → Socket → AuctionSnapshot → Surroundings → Option Interrupt → Visit
unfolding listen
enter connections auction_id s auction around (some interrupt) =
    unconnected connections none (some interrupt)
enter connections auction_id s auction around none =
    listen (connect connections auction_id s) auction_id s auction around around.send_json

-- `auction_websocket`, from what the look-up of the auction gives.
unfoldable pub auction_websocket :
    Connections → Uuid → Socket → Surroundings → Result (Option AuctionSnapshot) → Visit
unfolding enter
auction_websocket connections auction_id s around (err e) =
    unconnected connections none (some (other_error e))
auction_websocket connections auction_id s around (ok none) =
    unconnected connections (some (closed 4404)) around.close
auction_websocket connections auction_id s around (ok (some auction)) =
    enter connections auction_id s auction around around.accept
