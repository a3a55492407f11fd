-- ===== src/Network.antt =====
-- A network of nodes that each run the daemon: frames in the air are heard, in any order, by the
-- nodes that the wiring connects, or they are lost. A frame is handled by `handle_ethernet_msg` of
-- assign3/odr_and.c, and what the handler sends is in the air afterwards.
pub mod Across
pub mod Answered
pub mod Backed
pub mod Coverage
pub mod Covered
pub mod Covering
pub mod Destination
pub mod EndToEnd
pub mod Ending
pub mod Exchange
pub mod Flood
pub mod Handing
pub mod Journey
pub mod Measures
pub mod Messages
pub mod Node
pub mod Outward
pub mod Reaction
pub mod Reaching
pub mod Relays
pub mod Release
pub mod Returning
pub mod Sending
pub mod Settling
pub mod Spread
pub mod Stale
pub mod Tables
pub mod Storm
pub mod Taught
pub mod Totals
pub mod Upstream
pub mod Waiting
pub mod WayBack
pub mod WayOut
use on_demand_routing.Base.{ℕ, suc, zero, ◌≡◌, ◌<◌, List, [], ◌∷◌, ◌++◌, map, ◌==◌, if◌then◌else◌}
use on_demand_routing.Frame.{Frame}
use on_demand_routing.Odr.{Odr, World, Mac, Sent, raw, local}
use on_demand_routing.Odr.Outcome.{done}
use on_demand_routing.Handler.Ether.{handle_ethernet_msg}

-- A frame on its way to a node: the interface it comes in on, who sent it, and its bytes.
pub record Packet : Type 0 where
  pub to : ℕ
  pub if_index : ℕ
  pub hop : Mac
  pub frame : Frame

pub record Net : Type 0 where
  pub node : ℕ → Odr
  pub air : List Packet

abbrev pub update : (ℕ → Odr) → ℕ → Odr → ℕ → Odr
update f j t i = if i == j then t else f i

-- The nodes and their interfaces that hear what a node sends on an interface to an address.
abbrev pub Wiring : Type 0
Wiring = ℕ → ℕ → Mac → List (ℕ × ℕ)

module _ (heard : Wiring) (i : ℕ) where
  unfoldable pub spread : Sent → List Packet
  spread (raw src dst if_index f) =
      map (λ (r : ℕ × ℕ). record { to = r.0; if_index = r.1; hop = src; frame = f })
        (heard i if_index dst)
  spread (local path text) = []

  unfoldable pub spread_all : List Sent → List Packet
  spread_all [] = []
  spread_all (m ∷ ms) = spread m ++ spread_all ms

-- A node whose messages are on their way.
abbrev pub flushed : Odr → Odr
flushed t = record t { sent = [] }

module _ (nodes : ℕ) (world : ℕ → World) (heard : Wiring) where
  pub data Step (s : Net) : Net → Type 0 where
    deliver :
        (before : List Packet) (p : Packet) (after : List Packet) (t : Odr)
        → s.air ≡ before ++ (p ∷ after)
        → p.to < nodes
        → handle_ethernet_msg (world p.to) p.frame p.if_index p.hop (s.node p.to) ≡ done tt t
        → Step s (record {
          node = update s.node p.to (flushed t);
          air = before ++ (after ++ spread_all heard p.to t.sent);
        })
    lose :
        (before : List Packet) (p : Packet) (after : List Packet)
        → s.air ≡ before ++ (p ∷ after)
        → Step s (record { node = s.node; air = before ++ after })

  -- So many steps, one after the other.
  pub data Run (s : Net) : ℕ → Net → Type 0 where
    here : Run s zero s
    stepped : {k : ℕ} {t u : Net} → Run s k t → Step t u → Run s (suc k) u

  -- No frame was lost.
  abbrev pub IsLossless : {s t : Net} {k : ℕ} → Run s k t → Type 0
  IsLossless here = Unit
  IsLossless (stepped run (deliver before p after t eq to ran)) = IsLossless run
  IsLossless (stepped run (lose before p after eq)) = ⊥

-- The node that a packet is for returns when it is given it.
abbrev pub Handles : (ℕ → World) → Net → Packet → Type 0
Handles world s p =
    (z : Odr) × (handle_ethernet_msg (world p.to) p.frame p.if_index p.hop (s.node p.to)
      ≡ done tt z)
