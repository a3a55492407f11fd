-- ===== src/Handler/Knowing.antt =====
-- What the cases of `handle_ethernet_msg` leave in the routing table for the frame's source.
use on_demand_routing.Base.{
  ℕ, sym, subst, Bool, true, false, Option, none, some, CStr, ◌==◌, ◌∙◌, if◌then◌else◌,
}
use on_demand_routing.Frame.{Frame, type_rreq, type_rrep, type_data, type_asent}
use on_demand_routing.Odr.{Odr, World, Mac}
use on_demand_routing.Odr.Outcome.{Act, Outcome, fail, monad, ◌>>=◌}
use on_demand_routing.Odr.Ensures
use on_demand_routing.Odr.Ensures.{Ensures, returns, fails, crashes}
use on_demand_routing.Odr.Keeps
use on_demand_routing.Odr.Keeps.{Keeps, IsPreorder, plain}
use on_demand_routing.System.Unmoved.{get_name_ip-same}
use on_demand_routing.Routes.Listed.{IsTable, IsLookup, Knows}
use on_demand_routing.Routes.Invariant.{
  get_r_entry-IsLookup, check_r_entry-Knows, insert_r_entry-Knows,
}
use on_demand_routing.Handler.Learn.{learn_source}
use on_demand_routing.Handler.Ether.{dispatch, handle_frame}
use on_demand_routing.Handler.Ether.Rreq.{on_rreq}
use on_demand_routing.Handler.Ether.Rrep.{on_rrep}
use on_demand_routing.Handler.Ether.Payload.{on_data}
use on_demand_routing.Handler.Ether.Asent.{on_asent}
use on_demand_routing.Handler.SameRoutes.{
  SameRoutes, SameRoutes_preorder, reply-Keeps, answer-Keeps, take_and_release-Keeps,
  forward_rrep-Keeps, forward_data-Keeps, deliver-Keeps, pass_on-Keeps, quiet,
}

-- However a call ends, the table has one entry for each destination.
abbrev pub EndsSound : {A : Type 0} → Outcome A → Type 0
EndsSound o = Ensures (λ _ t. IsTable t.routes) (λ t. IsTable t.routes) o

-- Also, if the call did not fail, there is an entry for `ip`.
abbrev pub EndsKnowing : {A : Type 0} → CStr → Outcome A → Type 0
EndsKnowing ip o = Ensures (λ _ t. Knows ip t.routes) (λ t. IsTable t.routes) o

same_routes-EndsKnowing :
    {A : Type 0} (ip : CStr) (m : Act A)
    → Keeps SameRoutes m
    → (s : Odr) → Knows ip s.routes
    → EndsKnowing ip (m s)
same_routes-EndsKnowing ip m k s d =
    Ensures.mono (k.ends s) (λ _ t e. subst (Knows ip) (sym e.routes) d)
      (λ t e. subst IsTable (sym e.routes) d.0)

pub never_fails :
    {A : Type 0} {P : A → Odr → Type 0} {Q : Odr → Type 0} {o : Outcome A}
    → Ensures P (λ _. ⊥) o
    → Ensures P Q o
never_fails e = Ensures.mono e (λ _ _ p. p) (λ _ h. absurd h)

-- The same of an action that begins at `s`, whose parts the rules below read.
record KnowingAt (ip : CStr) (s : Odr) {A : Type 0} (m : Act A) : Type 0 where
  ends : EndsKnowing ip (m s)

if_knowing :
    {ip : CStr} {s : Odr} {A : Type 0} (b : Bool) {m n : Act A}
    → KnowingAt ip s m
    → KnowingAt ip s n
    → KnowingAt ip s (if b then m else n)
if_knowing true p q = p
if_knowing false p q = q

fail_knowing : {ip : CStr} {s : Odr} {A : Type 0} → IsTable s.routes → KnowingAt ip s (fail {A = A})
unfolding fail
fail_knowing d = record { ends = fails d }

module _ (w : World) (f : Frame) (intf_n : ℕ) (hop : Mac) where
  learn_source-Knows :
      (src : Option ℕ) (s : Odr)
      → IsTable s.routes
      → IsLookup s.routes f.src_ip src
      → Ensures (λ _ t. Knows f.src_ip t.routes) (λ _. ⊥) (learn_source w f intf_n hop src s)
  unfolding learn_source monad
  learn_source-Knows none s d l =
      Ensures.bind (insert_r_entry-Knows w f intf_n hop s d l) λ _ t h. returns h
  learn_source-Knows (some p) s d l =
      Ensures.bind (check_r_entry-Knows w f p intf_n hop s d l) λ _ t h. returns h

  -- A case that learns first and leaves the table alone afterwards.
  learn_then :
      (k : ℕ × Bool → Act (Unit {0}))
      → ((r : ℕ × Bool) → Keeps SameRoutes (k r))
      → (src : Option ℕ) (s : Odr) → IsTable s.routes
      → IsLookup s.routes f.src_ip src
      → KnowingAt f.src_ip s (learn_source w f intf_n hop src >>= k)
  unfolding ◌>>=◌
  learn_then k quiet src s d l = record {
    ends =
        Ensures.bind (never_fails (learn_source-Knows src s d l))
          λ r t h. same_routes-EndsKnowing f.src_ip (k r) (quiet r) t h;
  }

  module _ (self_ip : CStr) (src : Option ℕ) (s : Odr) (d : IsTable s.routes)
      (l : IsLookup s.routes f.src_ip src) where
    on_rreq-KnowingAt :
        (dest : Option ℕ) → KnowingAt f.src_ip s (on_rreq w self_ip f intf_n hop dest src)
    unfolding on_rreq
    on_rreq-KnowingAt dest =
        learn_then _
          (λ (p, b).
            Keeps.if-Keeps _ (reply-Keeps w self_ip f intf_n p)
              (answer-Keeps w self_ip f intf_n p b dest))
          src s d l

    on_rrep-KnowingAt :
        (dest : Option ℕ) → KnowingAt f.src_ip s (on_rrep w self_ip f intf_n hop dest src)
    unfolding on_rrep
    on_rrep-KnowingAt dest =
        learn_then _
          (λ (p, b).
            Keeps.if-Keeps _ (take_and_release-Keeps w self_ip f intf_n p)
              (forward_rrep-Keeps w self_ip f intf_n p dest))
          src s d l

    on_data-KnowingAt :
        (dest : Option ℕ) → KnowingAt f.src_ip s (on_data w self_ip f intf_n hop dest src)
    unfolding on_data
    on_data-KnowingAt dest =
        learn_then _
          (λ (p, b).
            Keeps.if-Keeps _ (deliver-Keeps w self_ip f intf_n)
              (forward_data-Keeps w self_ip f intf_n p dest))
          src s d l

    on_asent-KnowingAt : KnowingAt f.src_ip s (on_asent w f intf_n hop src)
    unfolding on_asent
    on_asent-KnowingAt =
        learn_then _ (λ (p, b). Keeps.if-Keeps b (pass_on-Keeps w f intf_n 1) (Keeps.pure-Keeps tt))
          src s d l

    dispatch-KnowingAt :
        (dest : Option ℕ) → KnowingAt f.src_ip s (dispatch w self_ip f intf_n hop dest src)
    unfolding dispatch
    dispatch-KnowingAt dest = if_knowing (f.frame_type == type_rreq) (on_rreq-KnowingAt dest) (
        if_knowing (f.frame_type == type_rrep) (on_rrep-KnowingAt dest) (
          if_knowing (f.frame_type == type_data) (on_data-KnowingAt dest)
            (if_knowing (f.frame_type == type_asent) on_asent-KnowingAt (fail_knowing d))))

  pub handle_frame-EndsKnowing :
      (self_ip : CStr) (s : Odr)
      → IsTable s.routes
      → EndsKnowing f.src_ip (handle_frame w self_ip f intf_n hop s)
  unfolding handle_frame monad
  handle_frame-EndsKnowing self_ip s d =
      Ensures.bind (never_fails (get_r_entry-IsLookup w f.dest_ip f.route_disc_flag s)) λ dest t lt.
        Ensures.bind (never_fails (get_r_entry-IsLookup w f.src_ip 0 t)) λ src u lu.
          Ensures.bind (never_fails (get_name_ip-same w f.src_ip u)) λ _ v ev.
            Ensures.bind (never_fails (get_name_ip-same w f.dest_ip v)) λ _ x ex.
              subst (λ y. EndsKnowing f.src_ip (dispatch w self_ip f intf_n hop dest src y))
                (sym (ex ∙ ev))
                (let l = lu (lt d).0 in (dispatch-KnowingAt self_ip src u l.0 l.1 dest).ends)
