-- ===== src/Db/Soundness/Commits.antt =====
-- A COMMIT that the discipline allows: it extends one history, and breaks nothing that another
-- connection relies on.
use transaction_safe_bidding.Prelude.{
  ◌+◌, ◌≡◌, refl, sym, ap, ◌∙◌, subst, ◌⊎◌, inl, inr, false, none, some, List, [], ◌∷◌, ◌++◌, arith,
  ◌==◌, ==_iff, Bool-cases,
}
use mathlib.Core.List.{append-nil}
use transaction_safe_bidding.Prelude.All.{
  All-In_right, All, In, Across, All-append, All-map, All-zip, In-append_left,
}
use transaction_safe_bidding.Domain.Models.{Uuid}
use transaction_safe_bidding.Db.Tables.{
  AuctionRow, BidRow, Database, lookup_auction, replace, clashes,
}
use transaction_safe_bidding.Db.Statements.{Txn, written, with_bid}
use transaction_safe_bidding.Db.Protocol.Defs.{Policy, Knows, Extends, CanCommit, clean, full}
use transaction_safe_bidding.Db.History.{
  IsSound, bids_of, Linked, Linked-extend, Unique-append, clashes-append, clashes_one,
}
use transaction_safe_bidding.Db.Soundness.Apart.{Apart, OtherRow, OtherKeys}

-- The tables after a commit of one bid and one row.
abbrev plus : Database → AuctionRow → BidRow → Database
plus db new b = record { auctions = replace new db.auctions; bids = db.bids ++ b ∷ [] }

written-full :
    (db : Database) (t : Txn) (new : AuctionRow) (b : BidRow)
    → t.rows ≡ new ∷ []
    → t.bids ≡ b ∷ []
    → written db t ≡ plus db new b
unfolding written
written-full db t new b p q = rw (p, q) refl

written-clean : (db : Database) (t : Txn) → t.rows ≡ [] → t.bids ≡ [] → written db t ≡ db
unfolding written
written-clean db t p q = rw (p, q, append-nil) refl

pub lookup-replace_self :
    (new r : AuctionRow) (rows : List AuctionRow)
    → lookup_auction new.id rows ≡ some r
    → lookup_auction new.id (replace new rows) ≡ some new
unfolding lookup_auction replace
lookup-replace_self new r [] h = cc
lookup-replace_self new r (x ∷ rows) h = ground (arith, lookup-replace_self new r rows)

pub lookup-replace_ne :
    (key : Uuid) (new : AuctionRow) (rows : List AuctionRow)
    → ¬ (key ≡ new.id)
    → lookup_auction key (replace new rows) ≡ lookup_auction key rows
unfolding lookup_auction replace
lookup-replace_ne key new [] h = refl
lookup-replace_ne key new (x ∷ rows) h = ground (arith, lookup-replace_ne key new rows h)

bids_of-plus :
    (key : Uuid) (bs : List BidRow) (b : BidRow)
    → b.auction_id ≡ key
    → bids_of key (bs ++ b ∷ []) ≡ bids_of key bs ++ b ∷ []
bids_of-plus key [] b h = ground arith
bids_of-plus key (x ∷ bs) b h = ground (arith, bids_of-plus key bs b h)

bids_of-plus_ne :
    (key : Uuid) (bs : List BidRow) (b : BidRow)
    → ¬ (b.auction_id ≡ key)
    → bids_of key (bs ++ b ∷ []) ≡ bids_of key bs
bids_of-plus_ne key [] b h = ground arith
bids_of-plus_ne key (x ∷ bs) b h = ground (arith, bids_of-plus_ne key bs b h)

-- The commit of a bid that extends the locked version of its row.
module _ (P : Policy) (db : Database) (r : AuctionRow) (b : BidRow)
    (found : lookup_auction r.id db.auctions ≡ some r)
    (fresh : clashes b.id b.request_id db.bids ≡ false) where
  abbrev next_row : AuctionRow
  next_row = with_bid r b.amount_cents b.id (r.version + 1)

  next_row-id : next_row.id ≡ r.id
  unfolding with_bid
  next_row-id = refl

  lookup-next_self : lookup_auction r.id (replace next_row db.auctions) ≡ some next_row
  unfolding with_bid
  lookup-next_self = lookup-replace_self next_row r db.auctions found

  lookup-next_ne :
      (key : Uuid)
      → ¬ (key ≡ r.id)
      → lookup_auction key (replace next_row db.auctions) ≡ lookup_auction key db.auctions
  unfolding with_bid
  lookup-next_ne key h = lookup-replace_ne key next_row db.auctions h

  -- A row that is found afterwards is the new version, or was there before under another key.
  found_next :
      (x : AuctionRow)
      → lookup_auction x.id (replace next_row db.auctions) ≡ some x
      → (x ≡ next_row) ⊎ (¬ (x.id ≡ r.id) × (lookup_auction x.id db.auctions ≡ some x))
  found_next x h = elim (Bool-cases (x.id == r.id)) [
    | inl same ↦
        let e : x.id ≡ r.id = (==_iff x.id r.id).0 same in
        inl (
          ground (
            arith,
            lookup-next_self,
            subst (λ k. lookup_auction k (replace next_row db.auctions) ≡ some x) e h,
          ))
    | inr differ ↦
        let ne : ¬ (x.id ≡ r.id) = λ e. ground arith in inr (ne, sym (lookup-next_ne x.id ne) ∙ h)
  ]

  plus-IsSound : Extends P r b next_row → IsSound P db → IsSound P (plus db next_row b)
  plus-IsSound x sound = record {
    linked = λ y h. elim (found_next y h) [
      | inl e ↦
          subst (λ y. Linked P.Timely y 0 none none (bids_of y.id (db.bids ++ b ∷ []))) (sym e)
            (rw next_row-id (
              rw (bids_of-plus r.id db.bids b x.auction)
                (Linked-extend P r b 0 none none (bids_of r.id db.bids) x (sound.linked r found))))
      | inr (ne, old) ↦
          rw (bids_of-plus_ne y.id db.bids b (λ e. ne (sym e ∙ x.auction))) (sound.linked y old)
    ];
    unique = Unique-append db.bids b sound.unique fresh;
  }

  plus-starts :
      (k : (y : AuctionRow) → lookup_auction y.id db.auctions ≡ some y → y.starts_at ≡ P.start y.id)
      (y : AuctionRow)
      → lookup_auction y.id (replace next_row db.auctions) ≡ some y
      → y.starts_at ≡ P.start y.id
  plus-starts k y h = elim (found_next y h) [
    | inl e ↦
        subst (λ (y : AuctionRow). y.starts_at ≡ P.start y.id) (sym e)
          (unfold with_bid in k r found)
    | inr (ne, old) ↦ k y old
  ]

  plus-Knows :
      (t o : Txn)
      → t.locked ≡ r ∷ []
      → t.bids ≡ b ∷ []
      → Apart t o
      → Knows P db o
      → Knows P (plus db next_row b) o
  plus-Knows t o p q apart k = record {
    starts = plus-starts k.starts;
    locked =
        All-zip (λ y. lookup_auction y.id db.auctions ≡ some y) (λ y. OtherRow r y) _ o.locked
          (λ y h n. lookup-next_ne y.id (λ e. n (sym e)) ∙ h) k.locked
          (subst (λ ls. Across OtherRow ls o.locked) p apart.rows).0;
    fresh =
        All-zip (λ c. clashes c.id c.request_id db.bids ≡ false) (λ c. OtherKeys b c) _ o.bids
          (λ c h n.
            clashes-append c.id c.request_id db.bids (b ∷ []) h
              (clashes_one c b (λ e. n.0 (sym e)) (λ e. n.1 (sym e))))
          k.fresh (subst (λ bs. Across OtherKeys bs o.bids) q apart.keys).0;
    saved =
        All-map (λ c. In c db.bids) (λ c. In c (db.bids ++ b ∷ [])) o.saved
          (λ c h. In-append_left c db.bids (b ∷ []) h) k.saved;
  }

module _ (P : Policy) (db : Database) (t : Txn) (known : Knows P db t) where
  extended :
      (r : AuctionRow) (b : BidRow) (new : AuctionRow)
      → Extends P r b new
      → Extends P r b (with_bid r b.amount_cents b.id (r.version + 1))
  extended r b new x = record {
    auction = x.auction;
    version = x.version;
    price = x.price;
    timely = x.timely;
    row = refl;
  }

  found_of : (r : AuctionRow) → t.locked ≡ r ∷ [] → lookup_auction r.id db.auctions ≡ some r
  found_of r p =
      (subst (λ ls. All (λ y. lookup_auction y.id db.auctions ≡ some y) ls) p known.locked).0

  fresh_of : (b : BidRow) → t.bids ≡ b ∷ [] → clashes b.id b.request_id db.bids ≡ false
  fresh_of b q =
      (subst (λ bs. All (λ c. clashes c.id c.request_id db.bids ≡ false) bs) q known.fresh).0

  written-next :
      (r : AuctionRow) (b : BidRow) (new : AuctionRow)
      → t.bids ≡ b ∷ []
      → t.rows ≡ new ∷ []
      → Extends P r b new
      → written db t ≡ plus db (with_bid r b.amount_cents b.id (r.version + 1)) b
  written-next r b new q n x = written-full db t new b n q ∙ ap (λ row. plus db row b) x.row

  pub commit-IsSound : CanCommit P t → IsSound P db → IsSound P (written db t)
  commit-IsSound (clean q n) sound = rw (written-clean db t n q) sound
  commit-IsSound (full r b new p q n x) sound =
      subst (λ d. IsSound P d) (sym (written-next r b new q n x))
        (plus-IsSound P db r b (found_of r p) (fresh_of b q) (extended r b new x) sound)

  -- What another connection relies on.
  pub commit-Knows : (o : Txn) → CanCommit P t → Apart t o → Knows P db o → Knows P (written db t) o
  commit-Knows o (clean q n) apart k = rw (written-clean db t n q) k
  commit-Knows o (full r b new p q n x) apart k =
      subst (λ d. Knows P d o) (sym (written-next r b new q n x))
        (plus-Knows P db r b (found_of r p) (fresh_of b q) t o p q apart k)

  starts_after :
      CanCommit P t
      → (y : AuctionRow) → lookup_auction y.id (written db t).auctions ≡ some y
      → y.starts_at ≡ P.start y.id
  starts_after (clean q n) = rw (written-clean db t n q) known.starts
  starts_after (full r b new p q n x) =
      subst
        (λ (d : Database).
          (y : AuctionRow) → lookup_auction y.id d.auctions ≡ some y → y.starts_at ≡ P.start y.id)
        (sym (written-next r b new q n x))
        (plus-starts P db r b (found_of r p) (fresh_of b q) known.starts)

  -- What the connection itself knows after its commit: its bids are in the table.
  pub commit-Knows_self :
      CanCommit P t
      → Knows P
          (written db t)
          (record { locked = []; bids = []; rows = []; saved = t.saved ++ t.bids })
  commit-Knows_self can = record {
    starts = starts_after can;
    locked = tt;
    fresh = tt;
    saved =
        All-append _ t.saved t.bids
          (All-map (λ c. In c db.bids) (λ c. In c (written db t).bids) t.saved
            (λ c h. unfold written in In-append_left c db.bids t.bids h) known.saved)
          (unfold written in All-In_right db.bids t.bids);
  }
