-- ===== src/System/Unmoved.antt =====
-- Asking the system moves nothing of the daemon's own state but the record of what was asked.
use on_demand_routing.Base.{◌≡◌, refl, inl, inr, CStr, arith, fits, Bool-cases, Option-cases}
use on_demand_routing.Frame.{inet_addrstrlen}
use on_demand_routing.Odr.Outcome.{monad}
use on_demand_routing.Odr.Ensures.{Ensures}
use on_demand_routing.Odr.{Odr, World, Sent}
use on_demand_routing.Odr.Keeps
use on_demand_routing.Odr.Keeps.{Keeps, IsPreorder, plain}
use on_demand_routing.System.{gettimeofday, get_name_ip, sendto, get_broadcast_id}

-- The tables, the queue and the settings are the same.
pub record Unmoved (s t : Odr) : Type 0 where
  pub ports : t.ports ≡ s.ports
  pub routes : t.routes ≡ s.routes
  pub pending : t.pending ≡ s.pending
  pub portno : t.portno ≡ s.portno
  pub stale_param : t.stale_param ≡ s.stale_param

instance pub Unmoved_preorder : IsPreorder Unmoved
Unmoved_preorder = record {
  reflexive = λ s. record {
    ports = refl;
    routes = refl;
    pending = refl;
    portno = refl;
    stale_param = refl;
  };
  transitive = λ s t u p q. ground arith;
}

module _ (w : World) where
  pub gettimeofday-Keeps : Keeps Unmoved (gettimeofday w)
  unfolding gettimeofday
  gettimeofday-Keeps = record { ends = λ s. Ensures.returns (ground arith) }

  pub get_name_ip-Keeps : (ip : CStr) → Keeps Unmoved (get_name_ip w ip)
  unfolding get_name_ip
  get_name_ip-Keeps ip = search plain

  -- A name is looked up with no effect, or not at all.
  pub get_name_ip-same :
      (ip : CStr) (s : Odr) → Ensures (λ _ t. t ≡ s) (λ _. ⊥) (get_name_ip w ip s)
  unfolding get_name_ip monad
  get_name_ip-same ip s = elim (Option-cases (w.host_name ip)) [
    | inl e ↦ rw e Ensures.crashes
    | inr (name, e) ↦ rw e (elim (Bool-cases (fits inet_addrstrlen name)) [
      | inl h ↦ rw h (Ensures.returns refl)
      | inr h ↦ rw h Ensures.crashes
    ])
  ]

  pub sendto-Keeps : (m : Sent) → Keeps Unmoved (sendto w m)
  unfolding sendto
  sendto-Keeps m = Keeps.bind (Keeps.gets-Keeps _) λ ok.
      Keeps.bind_skip (Keeps.modify-Keeps _ λ s. ground arith)
        (Keeps.if-Keeps ok (Keeps.modify-Keeps _ λ s. ground arith) Keeps.fail-Keeps)

pub get_broadcast_id-Keeps : Keeps Unmoved get_broadcast_id
unfolding get_broadcast_id
get_broadcast_id-Keeps =
    Keeps.bind_skip (Keeps.modify-Keeps _ λ s. ground arith) (Keeps.gets-Keeps _)

pub ruleset asking = (gettimeofday-Keeps, get_name_ip-Keeps, sendto-Keeps, get_broadcast_id-Keeps)
