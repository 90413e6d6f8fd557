-- ===== src/State/Overlay/Laws.antt =====
-- What a read through the overlay sees after each operation, and the order of its maps.
use jam_script.Prelude.{
  List, [], ◌∷◌, Option, none, some, ◌≡◌, refl, sym, ◌∙◌, Bytes, bytes_eq, ok, if◌then◌else◌, All,
  arith,
}
use jam_script.Entry.{Entry}
use jam_script.Entry.Order.{StrictlySorted}
use jam_script.KeyMap
use jam_script.KeyMap.{KeyMap}
use jam_script.KeyMap.Laws.{
  or_else, get-insert, get-extend, insert-StrictlySorted, extend-StrictlySorted, All-insert,
  All-extend,
}
use jam_script.State.Overlay.{
  Overlay, begin_transaction, commit_transaction, rollback_transaction, overlay_value, write,
  find_in, commit_into, commit_stack, rollback_stack,
}

-- Every map of the overlay has the entries that satisfy `P`, in strict key order.
pub record IsOverlay (P : Entry → Type 0) (o : Overlay) : Type 0 where
  pub writes_sorted : StrictlySorted o.writes
  pub sorted : All StrictlySorted o.transactions
  pub writes_all : All P o.writes
  pub all : All (λ m. All P m) o.transactions

overlay_value-stack :
    (k : Bytes) (writes top : KeyMap) (rest : List KeyMap)
    → find_in k writes (top ∷ rest) ≡ or_else (KeyMap.get k top) (find_in k writes rest)
unfolding find_in
overlay_value-stack k writes top rest = ground arith

pub overlay_value-begin :
    (o : Overlay) (k : Bytes) → overlay_value (begin_transaction o) k ≡ overlay_value o k
unfolding overlay_value begin_transaction KeyMap.get
overlay_value-begin o k = refl

pub overlay_value-write :
    (o : Overlay) (e : Entry) (k : Bytes)
    → overlay_value (write o e) k ≡ (if bytes_eq e.key k then some e.value else overlay_value o k)
unfolding overlay_value write
overlay_value-write o e k = go o.writes o.transactions
  where
    go :
        (writes : KeyMap) (stack : List KeyMap)
        → overlay_value (write (record { writes = writes; transactions = stack }) e) k ≡ (
            if bytes_eq e.key k
            then some e.value
            else overlay_value (record { writes = writes; transactions = stack }) k)
    go writes [] = get-insert k e writes
    go writes (top ∷ rest) = ground (arith, get-insert k e top)

or_else_assoc : (a b c : Option (Option Bytes)) → or_else (or_else a b) c ≡ or_else a (or_else b c)
or_else_assoc none b c = refl
or_else_assoc (some a) b c = refl

find_in-commit_into :
    (k : Bytes) (writes changes : KeyMap) (rest : List KeyMap)
    → StrictlySorted changes
    → overlay_value (commit_into writes changes rest) k ≡ find_in k writes (changes ∷ rest)
unfolding overlay_value commit_into
find_in-commit_into k writes changes [] h =
    get-extend k writes changes h ∙ sym (overlay_value-stack k writes changes [])
find_in-commit_into k writes changes (parent ∷ rest) h =
    overlay_value-stack k writes (KeyMap.extend parent changes) rest
    ∙ rw (get-extend k parent changes h) (
        or_else_assoc (KeyMap.get k changes) (KeyMap.get k parent) (find_in k writes rest)
        ∙ rw (overlay_value-stack k writes changes (parent ∷ rest))
            (rw (overlay_value-stack k writes parent rest) refl))

overlay_value-commit_stack :
    (writes : KeyMap) (stack : List KeyMap) (o' : Overlay) (k : Bytes)
    → All StrictlySorted stack
    → commit_stack writes stack ≡ ok o'
    → overlay_value o' k ≡ find_in k writes stack
unfolding commit_stack
overlay_value-commit_stack writes [] o' k h e = cc
overlay_value-commit_stack writes (changes ∷ rest) o' k (h, hs) e =
    let same : commit_into writes changes rest ≡ o' = cc e in
    rw (← same) (find_in-commit_into k writes changes rest h)

-- Committing the innermost transaction changes no value that a read sees.
pub overlay_value-commit :
    (o o' : Overlay) (k : Bytes)
    → All StrictlySorted o.transactions
    → commit_transaction o ≡ ok o'
    → overlay_value o' k ≡ overlay_value o k
unfolding commit_transaction
overlay_value-commit o o' k h e =
    overlay_value-commit_stack o.writes o.transactions o' k h e ∙ unfold overlay_value in refl

-- With no transaction open a read sees the writes alone.
pub overlay_value-closed :
    (o : Overlay) (k : Bytes) → o.transactions ≡ [] → overlay_value o k ≡ KeyMap.get k o.writes
unfolding overlay_value
overlay_value-closed o k h = rw (h, find_in)

module _ (P : Entry → Type 0) where
  pub IsOverlay-begin : (o : Overlay) → IsOverlay P o → IsOverlay P (begin_transaction o)
  unfolding begin_transaction
  IsOverlay-begin o h = record {
    writes_sorted = h.writes_sorted;
    sorted = (tt, h.sorted);
    writes_all = h.writes_all;
    all = (tt, h.all);
  }

  pub IsOverlay-write : (o : Overlay) (e : Entry) → P e → IsOverlay P o → IsOverlay P (write o e)
  unfolding write
  IsOverlay-write o e p h = go o.writes o.transactions h.writes_sorted h.sorted h.writes_all h.all
    where
      go :
          (writes : KeyMap) (stack : List KeyMap)
          → StrictlySorted writes
          → All StrictlySorted stack
          → All P writes
          → All (λ m. All P m) stack
          → IsOverlay P (write (record { writes = writes; transactions = stack }) e)
      go writes [] ws ts wa ta = record {
        writes_sorted = insert-StrictlySorted e writes ws;
        sorted = tt;
        writes_all = All-insert P e writes p wa;
        all = tt;
      }
      go writes (top ∷ rest) ws ts wa ta = record {
        writes_sorted = ws;
        sorted = (insert-StrictlySorted e top ts.0, ts.1);
        writes_all = wa;
        all = (All-insert P e top p ta.0, ta.1);
      }

  IsOverlay-commit_stack :
      (writes : KeyMap) (stack : List KeyMap) (o' : Overlay)
      → IsOverlay P (record { writes = writes; transactions = stack })
      → commit_stack writes stack ≡ ok o'
      → IsOverlay P o'
  unfolding commit_stack commit_into
  IsOverlay-commit_stack writes [] o' h e = cc
  IsOverlay-commit_stack writes (changes ∷ []) o' h e =
      let same : commit_into writes changes [] ≡ o' = cc e in
      rw (← same) (record {
        writes_sorted = extend-StrictlySorted writes changes h.writes_sorted;
        sorted = tt;
        writes_all = All-extend P writes changes h.writes_all h.all.0;
        all = tt;
      })
  IsOverlay-commit_stack writes (changes ∷ parent ∷ rest) o' h e =
      let same : commit_into writes changes (parent ∷ rest) ≡ o' = cc e in
      rw (← same) (record {
        writes_sorted = h.writes_sorted;
        sorted = (extend-StrictlySorted parent changes h.sorted.1.0, h.sorted.1.1);
        writes_all = h.writes_all;
        all = (All-extend P parent changes h.all.1.0 h.all.0, h.all.1.1);
      })

  pub IsOverlay-commit :
      (o o' : Overlay) → IsOverlay P o → commit_transaction o ≡ ok o' → IsOverlay P o'
  unfolding commit_transaction
  IsOverlay-commit o o' h e = IsOverlay-commit_stack o.writes o.transactions o' h e

  IsOverlay-rollback_stack :
      (writes : KeyMap) (stack : List KeyMap) (o' : Overlay)
      → IsOverlay P (record { writes = writes; transactions = stack })
      → rollback_stack writes stack ≡ ok o'
      → IsOverlay P o'
  unfolding rollback_stack
  IsOverlay-rollback_stack writes [] o' h e = cc
  IsOverlay-rollback_stack writes (changes ∷ rest) o' h e =
      let same : record { writes = writes; transactions = rest } ≡ o' = cc e in
      rw (← same) (record {
        writes_sorted = h.writes_sorted;
        sorted = h.sorted.1;
        writes_all = h.writes_all;
        all = h.all.1;
      })

  pub IsOverlay-rollback :
      (o o' : Overlay) → IsOverlay P o → rollback_transaction o ≡ ok o' → IsOverlay P o'
  unfolding rollback_transaction
  IsOverlay-rollback o o' h e = IsOverlay-rollback_stack o.writes o.transactions o' h e
