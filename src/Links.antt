-- ===== src/Links.antt =====
-- The `next` and `prev` pointers of the routing table and of the pending queue, as
-- assign3/odr_functions.c changes them.
pub mod Chains
pub mod Removal
pub mod Search
pub mod Queue
use on_demand_routing.Base.{ℕ, Bool, false, Option, none, some, ◌==◌, if◌then◌else◌}

pub record Links : Type 0 where
  pub head : Option ℕ
  pub next : ℕ → Option ℕ
  pub prev : ℕ → Option ℕ

-- `p->field = v`, and the same if the pointer is not null.
abbrev pub set : (ℕ → Option ℕ) → ℕ → Option ℕ → ℕ → Option ℕ
set field p v q = if q == p then v else field q

abbrev pub set_if : (ℕ → Option ℕ) → Option ℕ → Option ℕ → ℕ → Option ℕ
set_if field none v q = field q
set_if field (some p) v q = set field p v q

abbrev pub points_to : Option ℕ → ℕ → Bool
points_to none p = false
points_to (some q) p = q == p

-- `insert_r_entry` and `insert_pending_queue`: the new entry becomes the head.
abbrev pub push_before : Option ℕ → ℕ → Links → Links
push_before none p l = record l { head = some p }
push_before (some h) p l = record {
  head = some p;
  next = set l.next p (some h);
  prev = set l.prev h (some p);
}

unfoldable pub push : ℕ → Links → Links
push p l = push_before l.head p l

-- `curr->prev->next = curr->next` and `curr->next->prev = curr->prev`, each if it can.
abbrev pub bypass : ℕ → Links → Links
bypass curr l = record l {
  next = set_if l.next (l.prev curr) (l.next curr);
  prev = set_if l.prev (l.next curr) (l.prev curr);
}

-- `get_r_entry`, where it deletes an entry.
unfoldable pub unlink : ℕ → Links → Links
unlink curr l = bypass curr (if points_to l.head curr then (record l { head = l.next curr }) else l)

-- `lookup_pending_queue`, where it takes an entry: the head is not bypassed.
unfoldable pub take_out : ℕ → Links → Links
take_out curr l =
    if points_to l.head curr
    then record l { head = l.next curr; next = set l.next curr none }
    else bypass curr l
