-- ===== src/Handler/Invariant.antt =====
-- One entry for each destination, through both handlers of assign3/odr_and.c.
use on_demand_routing.Base.{ℕ, ◌≡◌, sym, subst, inl, inr, false, CStr, Bool-cases, Option-cases}
use on_demand_routing.Frame.{Frame, convert_net_host_order}
use on_demand_routing.Odr.{Odr, World, Mac}
use on_demand_routing.Odr.Outcome.{Act, monad}
use on_demand_routing.Odr.Ensures
use on_demand_routing.Odr.Ensures.{Ensures, returns, fails, crashes}
use on_demand_routing.Odr.Keeps
use on_demand_routing.Odr.Keeps.{Keeps, IsPreorder, plain}
use on_demand_routing.System.Unmoved.{asking}
use on_demand_routing.System.{get_self_ip}
use on_demand_routing.Routes.{get_r_entry}
use on_demand_routing.Handler.Peer.{SendParams, handle_peer_msg}
use on_demand_routing.Routes.Listed.{IsTable}
use on_demand_routing.Routes.Invariant.{get_r_entry-IsLookup}
use on_demand_routing.Handler.Ether.{is_duplicate, handle_ethernet_msg}
use on_demand_routing.Handler.SameRoutes.{
  SameRoutes, SameRoutes_preorder, quiet, fetch_entry_path-Keeps, deliver_here-Keeps,
  send_or_discover-Keeps,
}
use on_demand_routing.Handler.Knowing.{EndsSound, EndsKnowing, handle_frame-EndsKnowing}

-- However a received frame is handled, the table has one entry for each destination.
pub handle_ethernet_msg-EndsSound :
    (w : World) (recv_buf : Frame) (intf_n : ℕ) (hop : Mac) (s : Odr)
    → IsTable s.routes
    → EndsSound (handle_ethernet_msg w recv_buf intf_n hop s)
unfolding handle_ethernet_msg monad
handle_ethernet_msg-EndsSound w recv_buf intf_n hop s d =
    elim (Option-cases (get_self_ip w.interfaces)) [
      | inl e ↦ rw e (fails d)
      | inr (self_ip, e) ↦
          rw e (elim (Bool-cases (is_duplicate (convert_net_host_order recv_buf) s)) [
            | inl dup ↦ rw dup (returns d)
            | inr new ↦ rw new (
                Ensures.mono
                  (handle_frame-EndsKnowing w (convert_net_host_order recv_buf) intf_n hop self_ip s
                    d)
                  (λ _ t k. k.0) (λ t h. h))
          ])
    ]

-- If the table has at most one entry for each destination and the received frame is not a repeated
-- discovery, then a handling of it that returns leaves an entry for the frame's source, and
-- however it returns, with -1 or not, the table still has at most one entry for each destination.
pub handle_ethernet_msg-EndsKnowing :
    (w : World) (recv_buf : Frame) (intf_n : ℕ) (hop : Mac) (s : Odr)
    → IsTable s.routes
    → is_duplicate (convert_net_host_order recv_buf) s ≡ false
    → EndsKnowing
        (convert_net_host_order recv_buf).src_ip
        (handle_ethernet_msg w recv_buf intf_n hop s)
unfolding handle_ethernet_msg monad
handle_ethernet_msg-EndsKnowing w recv_buf intf_n hop s d new =
    elim (Option-cases (get_self_ip w.interfaces)) [
      | inl e ↦ rw e (fails d)
      | inr (self_ip, e) ↦
          rw (e, new)
            (handle_frame-EndsKnowing w (convert_net_host_order recv_buf) intf_n hop self_ip s d)
    ]

-- One entry for each destination before means one afterwards.
pub record Preserves (s t : Odr) : Type 0 where
  pub table : IsTable s.routes → IsTable t.routes

instance pub Preserves_preorder : IsPreorder Preserves
Preserves_preorder = record {
  reflexive = λ s. record { table = λ d. d };
  transitive = λ s t u p q. record { table = λ d. q.table (p.table d) };
}

pub same_routes-Preserves : {A : Type 0} {m : Act A} → Keeps SameRoutes m → Keeps Preserves m
same_routes-Preserves = Keeps.weaken λ s t e. record { table = λ d. subst IsTable (sym e.routes) d }

module _ (w : World) where
  get_r_entry-Preserves : (ip : CStr) (flag : ℕ) → Keeps Preserves (get_r_entry w ip flag)
  get_r_entry-Preserves ip flag = record {
    ends = λ s.
        Ensures.mono (get_r_entry-IsLookup w ip flag s) (λ _ t l. record { table = λ d. (l d).0 })
          (λ _ h. absurd h);
  }

  pub handle_ethernet_msg-Preserves :
      (recv_buf : Frame) (intf_n : ℕ) (hop : Mac)
      → Keeps Preserves (handle_ethernet_msg w recv_buf intf_n hop)
  handle_ethernet_msg-Preserves recv_buf intf_n hop = record {
    ends = λ s.
        Ensures.mono (Ensures.under _ (handle_ethernet_msg-EndsSound w recv_buf intf_n hop s))
          (λ _ t h. record { table = h }) (λ t h. record { table = h });
  }

  pub handle_peer_msg-Preserves :
      (sparams : SendParams) → Keeps Preserves (handle_peer_msg w sparams)
  unfolding handle_peer_msg
  handle_peer_msg-Preserves sparams =
      search
        (
          plain, same_routes-Preserves, quiet, asking, fetch_entry_path-Keeps, deliver_here-Keeps,
          send_or_discover-Keeps, get_r_entry-Preserves,
        )
        depth 12

-- And however a message from a local process is.
pub handle_peer_msg-EndsSound :
    (w : World) (sparams : SendParams) (s : Odr)
    → IsTable s.routes
    → EndsSound (handle_peer_msg w sparams s)
handle_peer_msg-EndsSound w sparams s d =
    Ensures.mono ((handle_peer_msg-Preserves w sparams).ends s) (λ _ t p. p.table d)
      (λ t p. p.table d)
