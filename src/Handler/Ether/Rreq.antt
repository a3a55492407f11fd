-- ===== src/Handler/Ether/Rreq.antt =====
-- The case `__RREQ` of `handle_ethernet_msg` in assign3/odr_and.c.
use on_demand_routing.Base.{ℕ, Bool, true, Option, none, some, CStr, str_eq, if◌then◌else◌}
use on_demand_routing.Frame.{Frame}
use on_demand_routing.Odr.{World, Mac}
use on_demand_routing.Odr.Outcome.{Act, pure, ◌>>=◌, ◌>>◌}
use on_demand_routing.Transmit.{send_rrep_packet}
use on_demand_routing.Handler.Learn.{deref, learn_source, pass_on}

module _ (w : World) (self_ip : CStr) (f : Frame) (intf_n : ℕ) where
  -- This node is the destination.
  unfoldable pub reply : ℕ → Act (Unit {0})
  reply src_r_entry = do entry ← deref src_r_entry; send_rrep_packet w f entry 0 true

  -- An intermediate node answers from its table, or floods the request if it is news.
  unfoldable pub answer : ℕ → Bool → Option ℕ → Act (Unit {0})
  answer src_r_entry asent_flag (some dest_r_entry) = do
    entry ← deref src_r_entry
    route ← deref dest_r_entry
    send_rrep_packet w f entry route.no_hops true
    if asent_flag then pass_on w f intf_n 1 else pure tt
  answer src_r_entry asent_flag none = if asent_flag then pass_on w f intf_n 0 else pure tt

  unfoldable pub on_rreq : Mac → Option ℕ → Option ℕ → Act (Unit {0})
  on_rreq hop dest src = do
    (src_r_entry, asent_flag) ← learn_source w f intf_n hop src
    if str_eq f.dest_ip self_ip then reply src_r_entry else answer src_r_entry asent_flag dest
