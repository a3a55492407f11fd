-- ===== src/Routes/Removal.antt =====
-- `remove_r_entry`, `is_broadid_greater` and the other effects of a lookup.
use on_demand_routing.Base.{
  ℕ, ◌<◌, ◌≡◌, refl, true, false, Option, List, [], ◌∷◌, CStr, str_eq, str_eq→eq, eq→str_eq, arith,
}
use on_demand_routing.Word.{rank}
use on_demand_routing.Odr.{Odr, Route}
use on_demand_routing.Routes.{remove_r_entry, is_broadid_greater}
use on_demand_routing.Routes.Listed.{lists}
use on_demand_routing.Routes.Scan

-- `remove_r_entry (ip)` never unlinks an entry for `ip`: whether the list has one is the same
-- afterwards.
pub lists-remove_r_entry :
    (entry : ℕ → Route) (ip : CStr) (ps : List ℕ)
    → lists entry ip (remove_r_entry entry ip ps) ≡ lists entry ip ps
unfolding lists remove_r_entry
lists-remove_r_entry entry ip [] = refl
lists-remove_r_entry entry ip (p ∷ ps) = ground (arith, lists-remove_r_entry entry ip ps)

-- Every listed entry for the address has an older broadcast id.
abbrev pub AllOlder : (ℕ → Route) → CStr → ℕ → List ℕ → Type 0
AllOlder entry ip bid [] = Unit {0}
AllOlder entry ip bid (p ∷ ps) =
    ((entry p).destip ≡ ip → rank (entry p).broadcast_id < rank bid) × AllOlder entry ip bid ps

-- `is_broadid_greater` returns 1 exactly if every listed entry for the source has an older
-- broadcast id, in the signed order.
pub is_broadid_greater_iff :
    (entry : ℕ → Route) (ip : CStr) (bid : ℕ) (ps : List ℕ)
    → (is_broadid_greater entry ip bid ps ≡ true → AllOlder entry ip bid ps)
      × (AllOlder entry ip bid ps → is_broadid_greater entry ip bid ps ≡ true)
unfolding is_broadid_greater
is_broadid_greater_iff entry ip bid [] = (λ _. tt, λ _. refl)
is_broadid_greater_iff entry ip bid (p ∷ ps) =
    let ih = is_broadid_greater_iff entry ip bid ps in
    (
      λ h. (λ e. ground (arith, eq→str_eq (entry p).destip ip e), ground (arith, ih.0)),
      λ (h, t). ground (arith, str_eq→eq (entry p).destip ip, ih.1 t),
    )

-- What `get_r_entry` does to the table: an entry that it returns is for the address and neither
-- stale nor asked to go, and then the table is as it was; if it returns none, then no entry for the
-- address is left. It never touches an entry for another address.
abbrev pub LookedUp : CStr → ℕ → ℕ → Odr → Option ℕ → Odr → Type 0
LookedUp ip flag now s r t =
    Scan.Outcome s.routes.entry now s.stale_param flag ip s.routes.order r t.routes.order
    × (t.routes.entry ≡ s.routes.entry)
    × ((other : CStr)
        → str_eq ip other ≡ false
        → lists t.routes.entry other t.routes.order ≡ lists s.routes.entry other s.routes.order)
