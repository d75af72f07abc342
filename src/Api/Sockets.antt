-- ===== src/Api/Sockets.antt =====
-- `AuctionConnectionManager` of src/bidding/api/websockets.py. A socket is a number; the lock makes
-- each of the methods one step. Whether a socket takes the payload in time is a parameter, and what
-- is sent is not part of the model.
use transaction_safe_bidding.Prelude.{
  ℕ, ◌≡◌, refl, ◌∙◌, inl, inr, Bool, true, false, not, ◌&&◌, ◌||◌, Option, none, some, List, [],
  ◌∷◌, arith, ◌==◌, if◌then◌else◌, ==_iff, Bool-cases, keep_if,
}
use transaction_safe_bidding.Domain.Models.{Uuid}

abbrev pub Socket : Type 0
Socket = ℕ

-- `_connections`: no entry, or a set as a list without repetition.
abbrev pub Connections : Type 0
Connections = Uuid → Option (List Socket)

abbrev pub with_entry : Connections → Uuid → Option (List Socket) → Connections
with_entry connections key entry other = if other == key then entry else connections other

-- The sockets that `broadcast` finds: `self._connections.get(auction_id, ())`.
abbrev pub sockets_of : Option (List Socket) → List Socket
sockets_of none = []
sockets_of (some sockets) = sockets

unfoldable pub connected : Connections → Uuid → List Socket
connected connections key = sockets_of (connections key)

-- `set.add` and `set.discard`
unfoldable pub add : Socket → List Socket → List Socket
add s [] = s ∷ []
add s (t ∷ ts) = if t == s then t ∷ ts else t ∷ add s ts

unfoldable pub discard : Socket → List Socket → List Socket
discard s sockets = keep_if (λ t. not (t == s)) sockets

unfoldable pub connect : Connections → Uuid → Socket → Connections
unfolding connected add
connect connections key s = with_entry connections key (some (add s (connected connections key)))

-- What is left of an entry; an empty set is popped.
unfoldable pub non_empty : List Socket → Option (List Socket)
non_empty [] = none
non_empty (s ∷ sockets) = some (s ∷ sockets)

unfoldable pub disconnect_from : Connections → Uuid → Socket → Option (List Socket) → Connections
unfolding discard non_empty
disconnect_from connections key s none = connections
disconnect_from connections key s (some sockets) =
    with_entry connections key (non_empty (discard s sockets))

unfoldable pub disconnect : Connections → Uuid → Socket → Connections
unfolding disconnect_from
disconnect connections key s = disconnect_from connections key s (connections key)

unfoldable pub disconnect_all : Connections → Uuid → List Socket → Connections
unfolding disconnect
disconnect_all connections key [] = connections
disconnect_all connections key (s ∷ failed) =
    disconnect_all (disconnect connections key s) key failed

unfoldable pub broadcast : Connections → Uuid → (Socket → Bool) → Connections
unfolding connected disconnect_all
broadcast connections key delivers =
    disconnect_all connections key (keep_if (λ s. not (delivers s)) (connected connections key))

-- Membership of a list of numbers, by a test.
unfoldable pub has : Socket → List Socket → Bool
has s [] = false
has s (t ∷ ts) = t == s || has s ts

has-add : (s t : Socket) (ts : List Socket) → has s (add t ts) ≡ (t == s || has s ts)
unfolding has add
has-add s t [] = refl
has-add s t (u ∷ ts) = ground (arith, has-add s t ts)

has-keep_if :
    (p : Socket → Bool) (s : Socket) (ts : List Socket) → has s (keep_if p ts) ≡ (p s && has s ts)
unfolding has
has-keep_if p s [] = elim (Bool-cases (p s)) [ inl e ↦ rw e refl | inr e ↦ rw e refl ]
has-keep_if p s (t ∷ ts) = elim (Bool-cases (t == s)) [
  | inl same ↦
      let e : t ≡ s = (==_iff t s).0 same in
      elim (Bool-cases (p s)) [
        | inl yes_ ↦ rw (e, yes_) (ground arith)
        | inr no_ ↦ rw (e, no_) (rw (has-keep_if p s ts, no_) refl)
      ]
  | inr differs ↦ elim (Bool-cases (p t)) [
    | inl yes_ ↦ rw (yes_, differs) (has-keep_if p s ts)
    | inr no_ ↦ rw (no_, differs) (has-keep_if p s ts)
  ]
]

sockets_of-non_empty : (sockets : List Socket) → sockets_of (non_empty sockets) ≡ sockets
unfolding non_empty
sockets_of-non_empty [] = refl
sockets_of-non_empty (s ∷ sockets) = refl

-- After `connect`, a socket is connected to an auction if it was before, or if both are the new ones.
pub connect-connected :
    (connections : Connections) (key other : Uuid) (s t : Socket)
    → has t (connected (connect connections key s) other)
      ≡ ((other == key && s == t) || has t (connected connections other))
unfolding connected connect
connect-connected connections key other s t = elim (Bool-cases (other == key)) [
  | inl here ↦ rw (here, (==_iff other key).0 here) (has-add t s (connected connections key))
  | inr elsewhere ↦ rw elsewhere refl
]

disconnect_from-connected :
    (connections : Connections) (key other : Uuid) (s t : Socket) (entry : Option (List Socket))
    → connections key ≡ entry
    → has t (connected (disconnect_from connections key s entry) other)
      ≡ (not (other == key && t == s) && has t (connected connections other))
unfolding connected disconnect_from discard has
disconnect_from-connected connections key other s t none e = elim (Bool-cases (other == key)) [
  | inl here ↦ rw (here, (==_iff other key).0 here, e) (ground arith)
  | inr elsewhere ↦ rw elsewhere refl
]
disconnect_from-connected connections key other s t (some sockets) e =
    elim (Bool-cases (other == key)) [
      | inl here ↦
          rw (here, (==_iff other key).0 here, e, sockets_of-non_empty (discard s sockets))
            (has-keep_if (λ u. not (u == s)) t sockets)
      | inr elsewhere ↦ rw elsewhere refl
    ]

pub disconnect-connected :
    (connections : Connections) (key other : Uuid) (s t : Socket)
    → has t (connected (disconnect connections key s) other)
      ≡ (not (other == key && t == s) && has t (connected connections other))
unfolding disconnect
disconnect-connected connections key other s t =
    disconnect_from-connected connections key other s t (connections key) refl

disconnect_all-connected :
    (connections : Connections) (key other : Uuid) (failed : List Socket) (t : Socket)
    → has t (connected (disconnect_all connections key failed) other)
      ≡ (not (other == key && has t failed) && has t (connected connections other))
unfolding disconnect_all disconnect has
disconnect_all-connected connections key other [] t = ground arith
disconnect_all-connected connections key other (s ∷ failed) t =
    disconnect_all-connected (disconnect connections key s) key other failed t
    ∙ ground (arith, disconnect_from-connected connections key other s t (connections key) refl)

kept_if_delivered : (d h : Bool) → (not (not d && h) && h) ≡ (h && d)
kept_if_delivered true true = refl
kept_if_delivered true false = refl
kept_if_delivered false true = refl
kept_if_delivered false false = refl

and_true : (h : Bool) → h ≡ (h && true)
and_true true = refl
and_true false = refl

-- After a broadcast, the sockets of the auction are those that were connected and took the payload;
-- those of other auctions are as before.
pub broadcast-connected :
    (connections : Connections) (key other : Uuid) (delivers : Socket → Bool) (t : Socket)
    → has t (connected (broadcast connections key delivers) other)
      ≡ (has t (connected connections other) && (not (other == key) || delivers t))
unfolding broadcast
broadcast-connected connections key other delivers t =
    let removed =
      disconnect_all-connected connections key other
        (keep_if (λ s. not (delivers s)) (connected connections key)) t in
    elim (Bool-cases (other == key)) [
      | inl here ↦
          removed
          ∙ rw
              (
                here,
                (==_iff other key).0 here,
                has-keep_if (λ s. not (delivers s)) t (connected connections key),
              )
              (kept_if_delivered (delivers t) (has t (connected connections key)))
      | inr elsewhere ↦ removed ∙ rw elsewhere (and_true (has t (connected connections other)))
    ]
