-- ===== src/Ports/Lookup.antt =====
-- The lookups by port, and the one that forgets the last entry.
use on_demand_routing.Base.{ℕ, ◌≡◌, refl, List, [], ◌∷◌, ◌++◌, arith}
use mathlib.Core.Option
use on_demand_routing.Odr.{MapEntry}
use on_demand_routing.Ports.{fetch_entry_port, get_file_name}

-- On a map with at least one entry, `get_file_name` answers as `fetch_entry_port` does on the map
-- without its last entry.
pub get_file_name-fetch_entry_port :
    (ports : List MapEntry) (last : MapEntry) (portno : ℕ)
    → get_file_name (ports ++ last ∷ []) portno
      ≡ Option.map (λ e. e.sun_path) (fetch_entry_port ports portno)
unfolding get_file_name fetch_entry_port
get_file_name-fetch_entry_port [] last portno = refl
get_file_name-fetch_entry_port (e ∷ []) last portno = ground arith
get_file_name-fetch_entry_port (e ∷ e' ∷ ports) last portno =
    ground (arith, get_file_name-fetch_entry_port (e' ∷ ports) last portno)
