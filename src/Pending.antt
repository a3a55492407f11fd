-- ===== src/Pending.antt =====
-- The pending messages of assign3/odr_functions.c: frames that wait for a route, newest first.
pub mod Waiting
use on_demand_routing.Base.{Option, none, some, List, [], ◌∷◌, CStr, str_eq, fits, if◌then◌else◌}
use on_demand_routing.Frame.{Frame, inet_addrstrlen}
use on_demand_routing.Odr.{Pending}
use on_demand_routing.Odr.Outcome.{Act, pure, gets, modify, assert, ◌>>=◌, ◌>>◌}

-- The first message for this destination, and the list with it unlinked.
unfoldable pub take_first : CStr → List Pending → Option Frame × List Pending
take_first destip [] = (none, [])
take_first destip (curr ∷ next) =
    let (found, rest) = take_first destip next in
    if str_eq curr.destip destip then (some curr.odrframe, next) else (found, curr ∷ rest)

unfoldable pub lookup_pending_queue : CStr → Act (Option Frame)
lookup_pending_queue destip = do
  queue ← gets λ s. s.pending
  let (found, rest) = take_first destip queue
  modify λ s. record s { pending = rest }
  pure found

-- The address is copied by `strncpy` with the size of the array; a longer one would lose its NUL.
unfoldable pub insert_pending_queue : Frame → CStr → Act (Unit {0})
insert_pending_queue odrframe ip = do
  assert (fits inet_addrstrlen ip)
  modify λ s. record s { pending = record { destip = ip; odrframe = odrframe } ∷ s.pending }
