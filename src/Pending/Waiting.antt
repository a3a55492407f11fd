-- ===== src/Pending/Waiting.antt =====
-- The pending queue as one stack of frames for each destination.
use on_demand_routing.Base.{
  ◌≡◌, refl, ◌<◌, Option, none, some, List, [], ◌∷◌, CStr, str_eq, str_eq→eq, str_eq_refl, arith,
  length, lt→ltb, if◌then◌else◌,
}
use on_demand_routing.Frame.{Frame, inet_addrstrlen}
use on_demand_routing.Odr.{Odr, Pending}
use on_demand_routing.Odr.Outcome.{done, monad, ◌>>◌}
use on_demand_routing.Pending.{take_first, lookup_pending_queue, insert_pending_queue}

-- The frames that wait for a destination, newest first.
unfoldable pub waiting : CStr → List Pending → List Frame
waiting ip [] = []
waiting ip (m ∷ q) = if str_eq m.destip ip then m.odrframe ∷ waiting ip q else waiting ip q

abbrev pub top : List Frame → Option Frame
top [] = none
top (f ∷ fs) = some f

abbrev pub rest : List Frame → List Frame
rest [] = []
rest (f ∷ fs) = fs

-- What is taken is the top of the destination's stack.
take_first-top : (ip : CStr) (q : List Pending) → (take_first ip q).0 ≡ top (waiting ip q)
unfolding take_first waiting
take_first-top ip [] = refl
take_first-top ip (m ∷ q) = ground (arith, take_first-top ip q)

-- That stack loses its top, and every other stack is left alone.
waiting-take_first :
    (ip other : CStr) (q : List Pending)
    → waiting other (take_first ip q).1
      ≡ (if str_eq ip other then rest (waiting other q) else waiting other q)
unfolding take_first waiting
waiting-take_first ip other [] = ground arith
waiting-take_first ip other (m ∷ q) = ground (
  arith,
  waiting-take_first ip other q,
  str_eq→eq m.destip ip,
  str_eq→eq ip other,
  str_eq→eq m.destip other,
  str_eq_refl ip,
)

-- `lookup_pending_queue` returns the top of the stack of the frames that wait for `ip` and pops
-- it, and leaves the stack of every other destination, and all other state, as it was.
pub lookup_pending_queue-waiting :
    (ip : CStr) (s : Odr)
    → (q : List Pending) × (lookup_pending_queue ip s
        ≡ done (top (waiting ip s.pending)) (record s { pending = q }))
      × ((other : CStr)
          → waiting other q
            ≡ (if str_eq ip other then rest (waiting other s.pending) else waiting other s.pending))
unfolding lookup_pending_queue monad
lookup_pending_queue-waiting ip s = (
  (take_first ip s.pending).1,
  rw (take_first-top ip s.pending) refl,
  λ other. waiting-take_first ip other s.pending,
)

-- A frame that is parked for an address that fits is the next one that a lookup for that address
-- gives, and the state is then as it was before.
pub lookup_pending_queue-insert_pending_queue :
    (f : Frame) (ip : CStr) (s : Odr)
    → length ip < inet_addrstrlen
    → (insert_pending_queue f ip >> lookup_pending_queue ip) s ≡ done (some f) s
unfolding insert_pending_queue lookup_pending_queue take_first monad
lookup_pending_queue-insert_pending_queue f ip s h = rw (lt→ltb _ _ h, str_eq_refl ip) refl
