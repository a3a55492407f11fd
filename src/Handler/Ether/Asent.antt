-- ===== src/Handler/Ether/Asent.antt =====
-- The case `__ASENT` of `handle_ethernet_msg` in assign3/odr_and.c.
use on_demand_routing.Base.{ℕ, Option, if◌then◌else◌}
use on_demand_routing.Frame.{Frame}
use on_demand_routing.Odr.{World, Mac}
use on_demand_routing.Odr.Outcome.{Act, pure, ◌>>=◌}
use on_demand_routing.Handler.Learn.{learn_source, pass_on}

module _ (w : World) (f : Frame) (intf_n : ℕ) where
  -- A notice that is news is passed on.
  unfoldable pub on_asent : Mac → Option ℕ → Act (Unit {0})
  on_asent hop src = do
    (src_r_entry, asent_flag) ← learn_source w f intf_n hop src
    if asent_flag then pass_on w f intf_n 1 else pure tt
