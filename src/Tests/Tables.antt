-- ===== src/Tests/Tables.antt =====
-- The theorems on the tables, at concrete states.
use on_demand_routing.Base.{
  ◌≡◌, refl, true, some, List, [], ◌∷◌, CStr, codes, arith, str_eq, if◌then◌else◌,
}
use on_demand_routing.Odr.{Odr, Pending, MapEntry}
use on_demand_routing.Odr.Outcome.{done, ◌>>◌}
use on_demand_routing.Odr.Ensures.{Ensures, Returns}
use on_demand_routing.Ports.{fetch_entry_port, fetch_entry_path}
use on_demand_routing.Ports.Assigned.{has_path, fetch_entry_path-shadows}
use on_demand_routing.Routes.{is_broadid_greater, remove_r_entry}
use on_demand_routing.Routes.Listed.{lists}
use on_demand_routing.Routes.Removal.{AllOlder, is_broadid_greater_iff, lists-remove_r_entry}
use on_demand_routing.Pending.{lookup_pending_queue, insert_pending_queue}
use on_demand_routing.Pending.Waiting.{
  waiting, top, rest, lookup_pending_queue-waiting, lookup_pending_queue-insert_pending_queue,
}
use on_demand_routing.Tests.Node.{node, alice, carol, request, started, one_route}

is_broadid_greater_iff_example :
    (is_broadid_greater one_route.entry alice 12 (0 ∷ []) ≡ true
      → AllOlder one_route.entry alice 12 (0 ∷ []))
    × (AllOlder one_route.entry alice 12 (0 ∷ [])
        → is_broadid_greater one_route.entry alice 12 (0 ∷ []) ≡ true)
is_broadid_greater_iff_example = is_broadid_greater_iff one_route.entry alice 12 (0 ∷ [])

lists-remove_r_entry_example :
    lists one_route.entry alice (remove_r_entry one_route.entry alice (0 ∷ []))
    ≡ lists one_route.entry alice (0 ∷ [])
lists-remove_r_entry_example = lists-remove_r_entry one_route.entry alice (0 ∷ [])

lookup_pending_queue-insert_pending_queue_example :
    (insert_pending_queue request carol >> lookup_pending_queue carol) started
    ≡ done (some request) started
lookup_pending_queue-insert_pending_queue_example =
    lookup_pending_queue-insert_pending_queue request carol started (omega arith)

abbrev waiting_state : Odr
waiting_state = record started { pending = record { destip = carol; odrframe = request } ∷ [] }

lookup_pending_queue-waiting_example :
    (q : List Pending) × (lookup_pending_queue carol waiting_state
      ≡ done (top (waiting carol waiting_state.pending)) (record waiting_state { pending = q }))
    × ((other : CStr)
        → waiting other q ≡ (
            if str_eq carol other
            then rest (waiting other waiting_state.pending)
            else waiting other waiting_state.pending))
lookup_pending_queue-waiting_example = lookup_pending_queue-waiting carol waiting_state

abbrev exhausted : Odr
exhausted = record started { portno = 5500 }

fetch_entry_path-shadows_example :
    Returns
      (λ r t.
        (e : MapEntry) × (fetch_entry_port t.ports 5500 ≡ some e) × (e.sun_path ≡ codes "/tmp/b"))
      (fetch_entry_path node (codes "/tmp/b") exhausted)
unfolding has_path str_eq
fetch_entry_path-shadows_example =
    fetch_entry_path-shadows node (codes "/tmp/b") exhausted refl refl refl refl
