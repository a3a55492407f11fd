-- ===== src/Tests/Pointers.antt =====
-- The theorems on the lists' pointers, at a list of three nodes.
use on_demand_routing.Base.{
  ℕ, List, map, ◌==◌, if◌then◌else◌, ◌≡◌, arith, refl, none, some, [], ◌∷◌,
}
use on_demand_routing.Links.{Links, set, push, unlink}
use on_demand_routing.Odr.{Pending}
use on_demand_routing.Pending.{take_first}
use on_demand_routing.Links.Queue.{search_pending, frame_at, search_pending-take_first}
use on_demand_routing.Routes.{scan}
use on_demand_routing.Tests.Node.{alice, to_alice, request}
use on_demand_routing.Links.Search.{search_links, search_links-scan}
use on_demand_routing.Links.Removal.{Represents, StartsThere, push-Represents, unlink-Represents}

abbrev two_nodes : Links
two_nodes = record {
  head = some 1;
  next = set (λ _. none) 1 (some 0);
  prev = set (λ _. none) 0 (some 1);
}

two_nodes-Represents : Represents two_nodes (1 ∷ 0 ∷ [])
two_nodes-Represents = ((refl, refl, (refl, tt, refl)), (((refl, refl), tt), (tt, tt)))

push-Represents_example :
    Represents (push 2 two_nodes) (2 ∷ 1 ∷ 0 ∷ []) × StartsThere (push 2 two_nodes) (2 ∷ 1 ∷ 0 ∷ [])
push-Represents_example =
    push-Represents two_nodes 2 (1 ∷ 0 ∷ []) two_nodes-Represents ((refl, refl), ((refl, refl), tt))
      refl refl

unlink-Represents_example :
    Represents (unlink 0 two_nodes) (1 ∷ []) × StartsThere (unlink 0 two_nodes) (1 ∷ [])
unlink-Represents_example = unlink-Represents two_nodes 0 (1 ∷ []) [] two_nodes-Represents refl

-- A frame for `alice` under one for another node.
abbrev waiting : ℕ → Pending
waiting p = record { destip = if p == 0 then alice else []; odrframe = request }

search_pending-take_first_example :
    let found = search_pending waiting alice 2 (some 1) two_nodes in
    let wanted = take_first alice (map waiting (1 ∷ 0 ∷ [])) in
    (frame_at waiting alice found.0 ≡ wanted.0)
    × ((qs : List ℕ) × Represents found.1 qs × (map waiting qs ≡ wanted.1))
search_pending-take_first_example =
    search_pending-take_first waiting alice two_nodes (1 ∷ 0 ∷ []) 2 two_nodes-Represents
      (omega arith)

-- A stale entry for `alice`, at the head.
search_links-scan_example :
    let found = search_links (λ _. to_alice) 10 5 0 alice 2 (some 1) two_nodes in
    let wanted = scan (λ _. to_alice) 10 5 0 alice (1 ∷ 0 ∷ []) in
    (found.0 ≡ wanted.0) × Represents found.1 wanted.1 × StartsThere found.1 wanted.1
search_links-scan_example =
    search_links-scan (λ _. to_alice) 10 5 0 alice two_nodes (1 ∷ 0 ∷ []) 2 two_nodes-Represents
      refl (omega arith)
