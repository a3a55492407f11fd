-- ===== src/Ports.antt =====
-- The map of ports to the sun_paths that local processes are bound to: `insert_map_port_sp` of
-- assign3/odr_functions.c and the lookups of assign3/odr_and.c.
pub mod Lookup
pub mod Assigned
use on_demand_routing.Base.{
  ℕ, Bool, true, false, Option, none, some, List, [], ◌∷◌, ◌&&◌, CStr, str_eq, fits, ◌==◌,
  if◌then◌else◌,
}
use on_demand_routing.Word.{inc}
use on_demand_routing.Odr.{Odr, World, MapEntry}
use on_demand_routing.Odr.Outcome.{Act, pure, gets, modify, assert, ◌>>=◌, ◌>>◌}
use on_demand_routing.System.{gettimeofday}

-- The size of `sun_path` in `struct map_port_sunpath`.
abbrev pub sun_path_len : ℕ
sun_path_len = 100

-- `__SERV_PORT`.
abbrev pub serv_port : ℕ
serv_port = 5500

-- `return portno++`.
unfoldable pub get_next_portno : Act ℕ
get_next_portno = do
  port ← gets λ s. s.portno
  modify λ s. record s { portno = inc s.portno }
  pure port

-- The first entry with this port.
unfoldable pub fetch_entry_port : List MapEntry → ℕ → Option MapEntry
fetch_entry_port [] portno = none
fetch_entry_port (curr ∷ next) portno =
    if curr.portno == portno then some curr else fetch_entry_port next portno

-- The loop of `fetch_entry_path`.
unfoldable pub find_path : List MapEntry → CStr → Option MapEntry
find_path [] sun_path = none
find_path (curr ∷ next) sun_path =
    if str_eq curr.sun_path sun_path then some curr else find_path next sun_path

-- The loop of `get_file_name` looks at an entry only where another one follows it.
unfoldable pub get_file_name : List MapEntry → ℕ → Option CStr
get_file_name [] portno = none
get_file_name (curr ∷ []) portno = none
get_file_name (curr ∷ after ∷ next) portno =
    if curr.portno == portno then some curr.sun_path else get_file_name (after ∷ next) portno

abbrev pub is_empty : List MapEntry → Bool
is_empty [] = true
is_empty (_ ∷ _) = false

module _ (w : World) where
  -- A new entry at the head; the copy of the path needs room for its NUL.
  unfoldable pub new_entry : ℕ → CStr → Act MapEntry
  new_entry portno path = do
    assert (fits sun_path_len path)
    ts ← gettimeofday w
    let entry : MapEntry = record { ts = ts; portno = portno; sun_path = path }
    modify λ s. record s { ports = entry ∷ s.ports }
    pure entry

  unfoldable pub insert_map_port_sp : ℕ → CStr → Act (Unit {0})
  insert_map_port_sp portno path = do new_entry portno path; pure tt

  -- What `fetch_entry_path` does with the outcome of its loop.
  unfoldable pub known_or_new : CStr → Option MapEntry → Act MapEntry
  known_or_new sun_path (some entry) = pure entry
  known_or_new sun_path none = do portno ← get_next_portno; new_entry portno sun_path

  -- `none` is the null pointer that an empty map gives; a path that is not known gets the next port.
  unfoldable pub fetch_entry_path : CStr → Act (Option MapEntry)
  fetch_entry_path sun_path = do
    ports ← gets λ s. s.ports
    if is_empty ports
        then pure none
        else do entry ← known_or_new sun_path (find_path ports sun_path); pure (some entry)
