-- ===== src/Handler/SameRoutes.antt =====
-- The parts of the handlers that leave the routing table alone.
use on_demand_routing.Base.{ℕ, ◌≡◌, refl, ◌∙◌, Bool, Option, none, some, CStr}
use on_demand_routing.Frame.{Frame}
use on_demand_routing.Odr.{Odr, World, MapEntry}
use on_demand_routing.Odr.Outcome.{
  Act, attempt, done, failed, crashed, ignore_failure, Outcome, ◌>>=◌,
}
use on_demand_routing.Odr.Ensures.{Ensures, returns, fails, crashes}
use on_demand_routing.Odr.Keeps
use on_demand_routing.Odr.Keeps.{Keeps, IsPreorder, plain}
use on_demand_routing.System.Unmoved.{Unmoved, Unmoved_preorder, asking}
use on_demand_routing.Ports.{get_next_portno, new_entry, known_or_new, fetch_entry_path}
use on_demand_routing.Pending.{lookup_pending_queue, insert_pending_queue}
use on_demand_routing.Transmit.{process_data_message}
use on_demand_routing.Transmit.Quiet.{sending, construct_odr-Keeps}
use on_demand_routing.Handler.Learn.{pass_on, park}
use on_demand_routing.Handler.Ether.Rreq.{reply, answer}
use on_demand_routing.Handler.Ether.Rrep.{release, forward_rrep}
use on_demand_routing.Handler.Ether.Payload.{forward_data}
use on_demand_routing.Handler.Peer.{SendParams, deliver_here, discover, send_or_discover}

-- The routing table is the same.
pub record SameRoutes (s t : Odr) : Type 0 where
  pub routes : t.routes ≡ s.routes

instance pub SameRoutes_preorder : IsPreorder SameRoutes
SameRoutes_preorder = record {
  reflexive = λ s. record { routes = refl };
  transitive = λ s t u p q. record { routes = q.routes ∙ p.routes };
}

pub quiet : {A : Type 0} {m : Act A} → Keeps Unmoved m → Keeps SameRoutes m
quiet = Keeps.weaken λ s t u. record { routes = u.routes }

attempt-Keeps : (m : Act (Unit {0})) → Keeps SameRoutes m → Keeps SameRoutes (attempt m)
unfolding attempt
attempt-Keeps m k = record { ends = λ s. go (m s) (k.ends s) }
  where
    go :
        {s : Odr} (o : Outcome (Unit {0}))
        → Ensures (λ _ t. SameRoutes s t) (SameRoutes s) o
        → Ensures (λ _ t. SameRoutes s t) (SameRoutes s) (ignore_failure o)
    go (done _ t) (returns p) = returns p
    go (failed t) (fails p) = returns p
    go crashed crashes = crashes

get_next_portno-Keeps : Keeps SameRoutes get_next_portno
unfolding get_next_portno
get_next_portno-Keeps =
    Keeps.bind (Keeps.gets-Keeps _)
      λ p. Keeps.bind_skip (Keeps.modify-Keeps _ λ s. record { routes = refl }) (Keeps.pure-Keeps p)

insert_pending_queue-Keeps : (f : Frame) (ip : CStr) → Keeps SameRoutes (insert_pending_queue f ip)
unfolding insert_pending_queue
insert_pending_queue-Keeps f ip =
    Keeps.bind_skip (Keeps.assert-Keeps _) (Keeps.modify-Keeps _ λ s. record { routes = refl })

lookup_pending_queue-Keeps : (ip : CStr) → Keeps SameRoutes (lookup_pending_queue ip)
unfolding lookup_pending_queue
lookup_pending_queue-Keeps ip =
    Keeps.bind (Keeps.gets-Keeps _)
      λ q. Keeps.bind_skip (Keeps.modify-Keeps _ λ s. record { routes = refl }) (Keeps.pure-Keeps _)

module _ (w : World) where
  pub new_entry-Keeps : (n : ℕ) (path : CStr) → Keeps SameRoutes (new_entry w n path)
  unfolding new_entry
  new_entry-Keeps n path = Keeps.bind_skip (Keeps.assert-Keeps _) (
      Keeps.bind (search (quiet, asking)) λ ts.
        Keeps.bind_skip (Keeps.modify-Keeps _ λ s. record { routes = refl }) (Keeps.pure-Keeps _))

  known_or_new-Keeps :
      (path : CStr) (e : Option MapEntry) → Keeps SameRoutes (known_or_new w path e)
  unfolding known_or_new
  known_or_new-Keeps path (some e) = search plain
  known_or_new-Keeps path none = search (plain, get_next_portno-Keeps, new_entry-Keeps)

  pub fetch_entry_path-Keeps : (path : CStr) → Keeps SameRoutes (fetch_entry_path w path)
  unfolding fetch_entry_path
  fetch_entry_path-Keeps path = search (plain, known_or_new-Keeps)

  pub deliver_here-Keeps :
      (i : CStr) (e : MapEntry) (sp : SendParams) → Keeps SameRoutes (deliver_here w i e sp)
  unfolding deliver_here
  deliver_here-Keeps i e sp = search (plain, quiet, sending)

  discover-Keeps :
      (i : CStr) (e : MapEntry) (sp : SendParams) → Keeps SameRoutes (discover w i e sp)
  unfolding discover
  discover-Keeps i e sp =
      search (plain, quiet, asking, sending, construct_odr-Keeps, insert_pending_queue-Keeps) depth
        12

  pub send_or_discover-Keeps :
      (i : CStr) (e : MapEntry) (sp : SendParams) (r : Option ℕ)
      → Keeps SameRoutes (send_or_discover w i e sp r)
  unfolding send_or_discover
  send_or_discover-Keeps i e sp none = discover-Keeps i e sp
  send_or_discover-Keeps i e sp (some p) = search (plain, quiet, asking, sending)

  module _ (f : Frame) (intf_n : ℕ) where
    pub pass_on-Keeps : (a : ℕ) → Keeps SameRoutes (pass_on w f intf_n a)
    unfolding pass_on
    pass_on-Keeps a = search (quiet, sending)

    park-Keeps : (self_ip : CStr) → Keeps SameRoutes (park w f intf_n self_ip)
    unfolding park
    park-Keeps self_ip = search (plain, quiet, asking, sending, insert_pending_queue-Keeps)

  module _ (self_ip : CStr) (f : Frame) (intf_n : ℕ) where
    pub reply-Keeps : (p : ℕ) → Keeps SameRoutes (reply w self_ip f intf_n p)
    unfolding reply
    reply-Keeps p = search (plain, quiet, sending)

    pub answer-Keeps :
        (p : ℕ) (b : Bool) (d : Option ℕ) → Keeps SameRoutes (answer w self_ip f intf_n p b d)
    unfolding answer
    answer-Keeps p b none = search (plain, pass_on-Keeps)
    answer-Keeps p b (some d) = search (plain, quiet, sending, pass_on-Keeps)

    release-Keeps :
        (p : ℕ) (parked : Option Frame) → Keeps SameRoutes (release w self_ip f intf_n p parked)
    unfolding release
    release-Keeps p none = search plain
    release-Keeps p (some g) = search (plain, quiet, asking, sending) depth 12

    pub take_and_release-Keeps :
        (p : ℕ) → Keeps SameRoutes (lookup_pending_queue f.src_ip >>= release w self_ip f intf_n p)
    take_and_release-Keeps p = search (plain, lookup_pending_queue-Keeps, release-Keeps)

    pub forward_rrep-Keeps :
        (p : ℕ) (d : Option ℕ) → Keeps SameRoutes (forward_rrep w self_ip f intf_n p d)
    unfolding forward_rrep
    forward_rrep-Keeps p none = park-Keeps f intf_n self_ip
    forward_rrep-Keeps p (some d) = search (plain, quiet, sending)

    pub forward_data-Keeps :
        (p : ℕ) (d : Option ℕ) → Keeps SameRoutes (forward_data w self_ip f intf_n p d)
    unfolding forward_data
    forward_data-Keeps p none = park-Keeps f intf_n self_ip
    forward_data-Keeps p (some d) = search (plain, quiet, asking, sending) depth 12

    pub deliver-Keeps : Keeps SameRoutes (attempt (process_data_message w f))
    deliver-Keeps = attempt-Keeps _ (search (quiet, sending))
