-- ===== src/Ports/Assigned.antt =====
-- The ports that `fetch_entry_path` assigns.
use on_demand_routing.Base.{
  ℕ, ◌≡◌, ◌⊎◌, ◌<◌, ◌≤◌, refl, Bool, true, false, Option, none, some, List, [], ◌∷◌, ◌||◌, CStr,
  arith, ◌==◌, str_eq, fits,
}
use on_demand_routing.Odr.{Odr, World, MapEntry}
use on_demand_routing.Odr.Outcome.{monad}
use on_demand_routing.Odr.Ensures.{Returns}
use on_demand_routing.System.{gettimeofday}
use on_demand_routing.Ports.{
  fetch_entry_port, find_path, fetch_entry_path, known_or_new, new_entry, get_next_portno,
  sun_path_len, is_empty,
}

-- Some entry has this port, or this path.
unfoldable pub has_port : ℕ → List MapEntry → Bool
has_port portno [] = false
has_port portno (e ∷ es) = e.portno == portno || has_port portno es

unfoldable pub has_path : CStr → List MapEntry → Bool
has_path path [] = false
has_path path (e ∷ es) = str_eq e.sun_path path || has_path path es

-- Ports and paths are given to one entry each, and no port is used that is still to come.
abbrev pub IsAssigned : ℕ → List MapEntry → Type 0
IsAssigned portno [] = Unit {0}
IsAssigned portno (e ∷ es) =
    (has_port e.portno es ≡ false)
    × (has_path e.sun_path es ≡ false)
    × ((e.portno < portno) ⊎ (5500 ≤ e.portno))
    × IsAssigned portno es

-- The loop finds an entry with the path, and none only if there is none.
abbrev Found : List MapEntry → CStr → Option MapEntry → Type 0
Found es path none = has_path path es ≡ false
Found es path (some e) =
    (e.sun_path ≡ path) × (fetch_entry_port es e.portno ≡ some e) × (has_port e.portno es ≡ true)

-- What `fetch_entry_path` gives: the null pointer for an empty map, else an entry for the path,
-- which a lookup of its port finds.
abbrev pub Registered : CStr → Option MapEntry → List MapEntry → Type 0
Registered path none es = es ≡ []
Registered path (some e) es = (e.sun_path ≡ path) × (fetch_entry_port es e.portno ≡ some e)

-- A process that could be reached on a port still can.
abbrev pub Reachable : List MapEntry → List MapEntry → Type 0
Reachable es es' =
    (n : ℕ) (e : MapEntry) → fetch_entry_port es n ≡ some e → fetch_entry_port es' n ≡ some e

-- The outcome of `fetch_entry_path` for a path in the state `s`.
abbrev pub Fetched : CStr → Odr → Option MapEntry → Odr → Type 0
Fetched path s r t =
    IsAssigned t.portno t.ports × Registered path r t.ports × Reachable s.ports t.ports

absent_path :
    (es : List MapEntry) (path : CStr) → has_path path es ≡ false → find_path es path ≡ none
unfolding has_path find_path
absent_path [] path h = refl
absent_path (e ∷ es) path h = ground (arith, absent_path es path)

-- If the counter has reached 5500, the map is not empty, and the path is new and fits, then
-- `fetch_entry_path` returns and a lookup of the server's port finds an entry for the new path.
pub fetch_entry_path-shadows :
    (w : World) (path : CStr) (s : Odr)
    → s.portno ≡ 5500
    → is_empty s.ports ≡ false
    → has_path path s.ports ≡ false
    → fits sun_path_len path ≡ true
    → Returns
        (λ r t. (e : MapEntry) × (fetch_entry_port t.ports 5500 ≡ some e) × (e.sun_path ≡ path))
        (fetch_entry_path w path s)
unfolding fetch_entry_path known_or_new new_entry get_next_portno gettimeofday monad
    fetch_entry_port
fetch_entry_path-shadows w path s full some_entry absent room =
    rw (some_entry, absent_path s.ports path absent)
      (rw room (
        (record { ts = w.clock s.clock_reads; portno = s.portno; sun_path = path }),
        ground arith,
        refl,
      ))
