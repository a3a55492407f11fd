-- ===== src/Routes.antt =====
-- The routing table of assign3/odr_functions.c: lookup with expiry, update, insertion.
-- A pointer to an entry is its address; an entry that is unlinked keeps its contents, since the
-- code never frees one.
pub mod Listed
pub mod Scan
pub mod Writes
pub mod Invariant
pub mod Freshness
pub mod Removal
pub mod Learning
pub mod Found
use on_demand_routing.Base.{
  ℕ, ◌+◌, Bool, true, false, not, Option, none, some, List, [], ◌∷◌, ◌&&◌, ◌||◌, CStr, str_eq, fits,
  leb, ◌==◌, if◌then◌else◌,
}
use on_demand_routing.Word.{inc, sgt}
use on_demand_routing.Frame.{Frame, inet_addrstrlen}
use on_demand_routing.Odr.{World, Mac, Route, Table}
use on_demand_routing.Odr.Outcome.{Act, pure, gets, modify, assert, ◌>>=◌, ◌>>◌}
use on_demand_routing.System.{gettimeofday, get_name_ip}

-- What `calloc` gives.
abbrev pub blank : Route
blank = record {
  destip = [];
  next_hop = [];
  if_no = 0;
  no_hops = 0;
  broadcast_id = 0;
  timestamp = 0;
}

abbrev pub empty_table : Table
empty_table = record { entry = λ _. blank; order = []; fresh = 0 }

-- `*p = r`.
unfoldable pub store : Table → ℕ → Route → Table
store t p r = record t { entry = λ q. if q == p then r else t.entry q }

-- `calloc`: the address of a new entry, which is linked nowhere.
unfoldable pub allocate : Table → Table
allocate t = record (store t t.fresh blank) { fresh = t.fresh + 1 }

-- The entry that a frame teaches: the way back to its source.
unfoldable pub learned : Frame → ℕ → Mac → ℕ → Route
learned f intf_n next_hop now = record {
  destip = f.src_ip;
  next_hop = next_hop;
  if_no = intf_n;
  no_hops = inc f.hop_count;
  broadcast_id = f.broadcast_id;
  timestamp = now;
}

abbrev pub is_nil : List ℕ → Bool
is_nil [] = true
is_nil (_ ∷ _) = false

-- A newer broadcast id, or the same one over no more hops.
unfoldable pub is_better : Frame → Route → Bool
is_better f r =
    sgt f.broadcast_id r.broadcast_id
    || f.broadcast_id == r.broadcast_id && not (sgt (inc f.hop_count) r.no_hops)

-- The loop of `get_r_entry`: the entry that is found, and the list that is left. The first entry
-- for the address is unlinked if it is stale or if a new route is asked for.
module _ (entry : ℕ → Route) (now stale : ℕ) (route_disc_flag : ℕ) (dest_ip : CStr) where
  unfoldable pub is_expired : ℕ → Bool
  is_expired curr = leb ((entry curr).timestamp + stale) now || route_disc_flag == 1

  unfoldable pub scan : List ℕ → Option ℕ × List ℕ
  scan [] = (none, [])
  scan (curr ∷ next) =
      let (found, rest) = scan next in
      if str_eq (entry curr).destip dest_ip
      then (if is_expired curr then (none, next) else (some curr, curr ∷ next))
      else (found, curr ∷ rest)

-- The loop of `is_broadid_greater`; `true` is its 1, `false` its -1.
unfoldable pub is_broadid_greater : (ℕ → Route) → CStr → ℕ → List ℕ → Bool
is_broadid_greater entry srcip recvd_broad_id [] = true
is_broadid_greater entry srcip recvd_broad_id (curr ∷ next) =
    if str_eq (entry curr).destip srcip && not (sgt recvd_broad_id (entry curr).broadcast_id)
    then false
    else is_broadid_greater entry srcip recvd_broad_id next

-- `remove_r_entry`, which no function calls: `strcmp` is not zero where the strings differ.
unfoldable pub remove_r_entry : (ℕ → Route) → CStr → List ℕ → List ℕ
remove_r_entry entry ip [] = []
remove_r_entry entry ip (curr ∷ next) =
    if str_eq (entry curr).destip ip then curr ∷ remove_r_entry entry ip next else next

unfoldable pub link_first : ℕ → Table → Table
link_first p t = record t { order = p ∷ t.order }

module _ (w : World) where
  unfoldable pub update_r_entry : Frame → ℕ → ℕ → Mac → Act (Unit {0})
  update_r_entry recv_buf r_entry intf_n next_hop = do
    assert (fits inet_addrstrlen recv_buf.src_ip)
    now ← gettimeofday w
    modify λ s. record s { routes = store s.routes r_entry (learned recv_buf intf_n next_hop now) }
    get_name_ip w recv_buf.src_ip
    pure tt

  -- The address of the new entry.
  unfoldable pub insert_r_entry : Frame → ℕ → Mac → Act ℕ
  insert_r_entry recvd_odr_frame intf_n next_hop = do
    r_entry ← gets λ s. s.routes.fresh
    modify λ s. record s { routes = allocate s.routes }
    update_r_entry recvd_odr_frame r_entry intf_n next_hop
    modify λ s. record s { routes = link_first r_entry s.routes }
    pure r_entry

  -- Whether the entry was updated: `true` is the code's 1, `false` its 0.
  unfoldable pub check_r_entry : Frame → ℕ → ℕ → Mac → Act Bool
  check_r_entry recvd_odr_frame r_entry intf_n next_hop = do
    old ← gets λ s. s.routes.entry r_entry
    if is_better recvd_odr_frame old
        then (do update_r_entry recvd_odr_frame r_entry intf_n next_hop; pure true)
        else pure false

  -- `some` is the code's 1 with the entry it stores, `none` its 0 and -1, which no caller tells
  -- apart. The clock is read only if the table has an entry.
  unfoldable pub get_r_entry : CStr → ℕ → Act (Option ℕ)
  get_r_entry dest_ip route_disc_flag = do
    t ← gets λ s. s.routes
    if is_nil t.order then pure none else do
      now ← gettimeofday w
      stale ← gets λ s. s.stale_param
      let (found, rest) = scan t.entry now stale route_disc_flag dest_ip t.order
      modify λ s. record s { routes = record s.routes { order = rest } }
      pure found
