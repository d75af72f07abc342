-- ===== src/Api/Listening.antt =====
-- A socket that listens to an auction: where the handler of the WebSocket leaves it.
use transaction_safe_bidding.Prelude.{
  ◌≡◌, refl, sym, ap, ◌++◌, ◌∙◌, inl, inr, Bool, true, false, not, ◌&&◌, ◌||◌, Option, none, some,
  List, [], ◌∷◌, arith, ◌==◌, Bool-cases,
}
use transaction_safe_bidding.Prelude.All.{All}
use transaction_safe_bidding.Domain.Errors.{Result, ok, err}
use transaction_safe_bidding.Domain.Models.{Uuid, AuctionSnapshot}
use transaction_safe_bidding.Api.Sockets.{
  Connections, Socket, connected, connect, disconnect, has, connect-connected, disconnect-connected,
  broadcast-connected,
}
use transaction_safe_bidding.Api.Visits.{
  Action, joined, left, broadcasted, act, act_all, Interrupt, websocket_disconnect, other_error,
  uncaught, Surroundings, Visit, listen, enter, auction_websocket,
}

-- The auction is there, and the socket is accepted.
abbrev pub is_admitted : Result (Option AuctionSnapshot) → Option Interrupt → Bool
is_admitted (ok (some auction)) none = true
is_admitted _ _ = false

abbrev pub has_states : List Connections → Bool
has_states [] = false
has_states (c ∷ states) = true

-- The action leaves the socket with the auction: it does not disconnect it, and a broadcast to the
-- auction gets through.
abbrev pub Leaves : Uuid → Socket → Action → Type 0
Leaves key s (joined other t) = Unit
Leaves key s (left other t) = (key == other && s == t) ≡ false
Leaves key s (broadcasted other delivers) = (not (key == other) || delivers s) ≡ true

act-connected :
    (connections : Connections) (key : Uuid) (s : Socket) (action : Action)
    → Leaves key s action
    → has s (connected connections key) ≡ true
    → has s (connected (act connections action) key) ≡ true
unfolding act
act-connected connections key s (joined other t) k h =
    connect-connected connections other key t s ∙ ground (arith, h)
act-connected connections key s (left other t) k h =
    disconnect-connected connections other key t s ∙ rw (k, h) refl
act-connected connections key s (broadcasted other delivers) k h =
    broadcast-connected connections other key delivers s ∙ rw (h, k) refl

act_all-connected :
    (connections : Connections) (key : Uuid) (s : Socket) (actions : List Action)
    → All (Leaves key s) actions
    → has s (connected connections key) ≡ true
    → has s (connected (act_all connections actions) key) ≡ true
unfolding act_all
act_all-connected connections key s [] k h = h
act_all-connected connections key s (action ∷ actions) k h =
    act_all-connected (act connections action) key s actions k.1
      (act-connected connections key s action k.0 h)

act_same :
    (c d : Connections) (key : Uuid) (t : Socket) (action : Action)
    → has t (connected c key) ≡ has t (connected d key)
    → has t (connected (act c action) key) ≡ has t (connected (act d action) key)
unfolding act
act_same c d key t (joined other u) h =
    connect-connected c other key u t ∙ rw h (sym (connect-connected d other key u t))
act_same c d key t (left other u) h =
    disconnect-connected c other key u t ∙ rw h (sym (disconnect-connected d other key u t))
act_same c d key t (broadcasted other delivers) h =
    broadcast-connected c other key delivers t
    ∙ rw h (sym (broadcast-connected d other key delivers t))

-- What others do to a socket does not depend on the other sockets.
act_all_same :
    (c d : Connections) (key : Uuid) (t : Socket) (actions : List Action)
    → has t (connected c key) ≡ has t (connected d key)
    → has t (connected (act_all c actions) key) ≡ has t (connected (act_all d actions) key)
unfolding act_all
act_all_same c d key t [] h = h
act_all_same c d key t (action ∷ actions) h =
    act_all_same (act c action) (act d action) key t actions (act_same c d key t action h)

act_all-append :
    (c : Connections) (early late : List Action)
    → act_all c (early ++ late) ≡ act_all (act_all c early) late
unfolding act_all
act_all-append c [] late = refl
act_all-append c (action ∷ early) late = act_all-append (act c action) early late

disconnect_self :
    (c : Connections) (key : Uuid) (s : Socket) → has s (connected (disconnect c key s) key) ≡ false
disconnect_self c key s = disconnect-connected c key key s s ∙ ground arith

-- What a visit comes to, for the socket itself and for another one.
abbrev pub Visits : Connections → Uuid → Socket → Uuid → Socket → Bool → Visit → Type 0
Visits connections key s other t admitted x =
    (has_states x.states ≡ admitted)
    × All (λ c. has s (connected c key) ≡ true) x.states
    × (has s (connected x.after key) ≡ false)
    × (has t (connected x.after other) ≡ has t (connected (act_all connections x.calls) other))
    × ¬ ((admitted ≡ true) × (x.raised ≡ some websocket_disconnect))

uncaught_other : (x : Interrupt) → ¬ (uncaught x ≡ some websocket_disconnect)
unfolding uncaught
uncaught_other websocket_disconnect e = absurd (cc)
uncaught_other (other_error x) e = absurd (cc)

module _ (connections : Connections) (key other : Uuid) (s t : Socket)
    (differs : (key == other && s == t) ≡ false) where
  -- For the other socket, connecting and disconnecting this one changes nothing.
  around_other :
      (actions : List Action)
      → has t (connected (disconnect (act_all (connect connections key s) actions) key s) other)
        ≡ has t (connected (act_all connections actions) other)
  around_other actions =
      disconnect-connected (act_all (connect connections key s) actions) key other s t
      ∙ elim (Bool-cases (other == key && t == s)) [
        | inl same ↦ absurd (ground (arith, same, differs))
        | inr apart ↦ rw apart refl
      ]
      ∙ act_all_same (connect connections key s) connections other t actions (
          connect-connected connections key other s t ∙ elim (Bool-cases (other == key && s == t)) [
            | inl same ↦ absurd (ground (arith, same, differs))
            | inr apart ↦ rw apart refl
          ])

  listen-Visits :
      (auction : AuctionSnapshot) (around : Surroundings) (x : Option Interrupt)
      → All (Leaves key s) around.early
      → All (Leaves key s) around.late
      → Visits connections key s other t true
          (listen (connect connections key s) key s auction around x)
  unfolding listen
  listen-Visits auction around (some interrupt) early late =
      let begun = connect-connected connections key key s s ∙ ground arith in
      let greeted = act_all-connected (connect connections key s) key s around.early early begun in
      (
        refl,
        (begun, (greeted, tt)),
        disconnect_self _ key s,
        around_other around.early,
        λ h. uncaught_other interrupt h.1,
      )
  listen-Visits auction around none early late =
      let begun = connect-connected connections key key s s ∙ ground arith in
      let greeted = act_all-connected (connect connections key s) key s around.early early begun in
      let last = act_all-connected _ key s around.late late greeted in
      (
        refl,
        (begun, (greeted, (last, tt))),
        disconnect_self _ key s,
        ap (λ c. has t (connected (disconnect c key s) other))
              (sym (act_all-append (connect connections key s) around.early around.late))
            ∙ around_other (around.early ++ around.late),
        λ h. uncaught_other around.receive_text h.1,
      )

  enter-Visits :
      (auction : AuctionSnapshot) (around : Surroundings) (x : Option Interrupt)
      → has s (connected connections key) ≡ false
      → All (Leaves key s) around.early
      → All (Leaves key s) around.late
      → Visits connections key s other t
          (is_admitted (ok (some auction)) x)
          (enter connections key s auction around x)
  unfolding enter act_all
  enter-Visits auction around (some interrupt) new_ early late =
      (refl, tt, new_, refl, λ h. absurd (cc (h.0)))
  enter-Visits auction around none new_ early late =
      listen-Visits auction around around.send_json early late

-- A socket that is not connected to an auction asks for it, and until it goes the calls of other
-- handlers do not disconnect it and it takes what they broadcast to the auction. Whatever the look-up
-- and the operations on the socket give: the handler connects the socket exactly when the auction is
-- there and the socket is accepted, and then it is connected when the snapshot is about to be sent,
-- when it is sent, and up to the moment it stops listening. After the handler the socket is not
-- connected to the auction, every other socket is where the calls of others alone would have left it,
-- and a disconnection of a connected socket is not raised.
pub auction_websocket-connected :
    (connections : Connections) (key other : Uuid) (s t : Socket) (around : Surroundings)
    (auction : Result (Option AuctionSnapshot))
    → (key == other && s == t) ≡ false
    → has s (connected connections key) ≡ false
    → All (Leaves key s) around.early
    → All (Leaves key s) around.late
    → Visits connections key s other t
        (is_admitted auction around.accept)
        (auction_websocket connections key s around auction)
unfolding auction_websocket act_all
auction_websocket-connected connections key other s t around (err e) differs new_ early late =
    (refl, tt, new_, refl, λ h. absurd (cc (h.0)))
auction_websocket-connected connections key other s t around (ok none) differs new_ early late =
    (refl, tt, new_, refl, λ h. absurd (cc (h.0)))
auction_websocket-connected connections key other s t around (ok (some auction)) differs new_ early
      late =
    enter-Visits connections key other s t differs auction around around.accept new_ early late
