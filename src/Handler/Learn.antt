-- ===== src/Handler/Learn.antt =====
-- What the cases of `handle_ethernet_msg` in assign3/odr_and.c share.
use on_demand_routing.Base.{ℕ, Bool, true, Option, none, some, CStr}
use on_demand_routing.Word.{inc, minus_one}
use on_demand_routing.Frame.{Frame}
use on_demand_routing.Odr.{World, Mac, Route}
use on_demand_routing.Odr.Outcome.{Act, pure, gets, ◌>>=◌, ◌>>◌}
use on_demand_routing.System.{get_broadcast_id}
use on_demand_routing.Routes.{check_r_entry, insert_r_entry}
use on_demand_routing.Pending.{insert_pending_queue}
use on_demand_routing.Transmit.{send_req_broadcast}

-- `*p`.
abbrev pub deref : ℕ → Act Route
deref p = gets λ s. s.routes.entry p

module _ (w : World) (f : Frame) (intf_n : ℕ) where
  -- The entry for the source of the frame, and whether the frame taught anything about it.
  unfoldable pub learn_source : Mac → Option ℕ → Act (ℕ × Bool)
  learn_source hop (some src_r_entry) = do
    asent_flag ← check_r_entry w f src_r_entry intf_n hop
    pure (src_r_entry, asent_flag)
  learn_source hop none = do src_r_entry ← insert_r_entry w f intf_n hop; pure (src_r_entry, true)

  -- The request goes on, one hop further, on all other interfaces.
  unfoldable pub pass_on : ℕ → Act (Unit {0})
  pass_on asent_flag =
      send_req_broadcast w intf_n f.broadcast_id f.src_port f.dst_port (inc f.hop_count)
        f.route_disc_flag f.dest_ip f.src_ip f.payload asent_flag

  -- No route for a frame that is to be forwarded: park it, and ask for a route.
  unfoldable pub park : CStr → Act (Unit {0})
  park self_ip = do
    broadcast_id ← get_broadcast_id
    insert_pending_queue f f.dest_ip
    send_req_broadcast w intf_n broadcast_id minus_one f.dst_port 0 0 f.dest_ip self_ip f.payload 0
