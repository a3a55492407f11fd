-- ===== src/Links/Removal.antt =====
-- Insertion and removal, on the list that the pointers make.
use on_demand_routing.Base.{
  ℕ, Bool, ◌≡◌, refl, sym, subst, ap, ◌∙◌, true, false, Option, none, some, List, [], ◌∷◌, ◌++◌,
  ==_refl, if◌then◌else◌, All,
}
use on_demand_routing.Links.{
  Links, set, set_if, points_to, push, push_before, bypass, unlink, take_out,
}
use on_demand_routing.Links.Chains.{
  Chain, Absent, Distinct, set-Absent, prev_first, set_if-Absent, Chain-end, Absent-mid,
  bypass_after,
}

-- The pointers make the list, each node once.
abbrev pub Represents : Links → List ℕ → Type 0
Represents l ps = Chain l.next l.prev l.head ps × Distinct ps

-- The head has no predecessor.
abbrev pub StartsThere : Links → List ℕ → Type 0
StartsThere l [] = Unit {0}
StartsThere l (p ∷ ps) = l.prev p ≡ none

All-drop :
    (P : ℕ → Type 0) (xs : List ℕ) (p : ℕ) (ys : List ℕ) → All P (xs ++ (p ∷ ys)) → All P (xs ++ ys)
All-drop P [] p ys h = h.1
All-drop P (x ∷ xs) p ys (h, hs) = (h, All-drop P xs p ys hs)

Distinct-drop :
    (xs : List ℕ) (p : ℕ) (ys : List ℕ) → Distinct (xs ++ (p ∷ ys)) → Distinct (xs ++ ys)
Distinct-drop [] p ys h = h.1
Distinct-drop (x ∷ xs) p ys (h, hs) = (All-drop _ xs p ys h, Distinct-drop xs p ys hs)

-- The last node of a list that is not empty.
last_of :
    (x : ℕ) (xs : List ℕ)
    → (init : List ℕ) × (a : ℕ) × ((ys : List ℕ) → (x ∷ xs) ++ ys ≡ init ++ (a ∷ ys))
last_of x [] = ([], x, λ ys. refl)
last_of x (q ∷ xs) = let (init, a, e) = last_of q xs in (x ∷ init, a, λ ys. ap (λ z. x ∷ z) (e ys))

prev_of :
    (next prev : ℕ → Option ℕ) (a p : ℕ) (from : Option ℕ) (xs ys : List ℕ)
    → Chain next prev from (xs ++ (a ∷ p ∷ ys))
    → prev p ≡ some a
prev_of next prev a p from [] ys (_, b, _) = b
prev_of next prev a p from (x ∷ xs) ys (_, _, c) = prev_of next prev a p (next x) xs ys c

Absent-after : (q p : ℕ) (xs ys : List ℕ) → Absent q (xs ++ (p ∷ ys)) → Absent q ys
Absent-after q p [] ys (_, z) = z
Absent-after q p (x ∷ xs) ys (_, z) = Absent-after q p xs ys z

not_head :
    (p x : ℕ) (xs ys : List ℕ) (head : Option ℕ)
    → head ≡ some x
    → Distinct (x ∷ (xs ++ (p ∷ ys)))
    → points_to head p ≡ false
not_head p x xs ys head e (z, _) = rw e (Absent-mid x p xs ys z)

abbrev Pushed : Links → ℕ → List ℕ → Option ℕ → Type 0
Pushed l p ps head =
    Represents (push_before head p l) (p ∷ ps) × StartsThere (push_before head p l) (p ∷ ps)

-- If the pointers make a list, each node once, then after the insertion of a node that is not in
-- it and that `calloc` gave, they make the list with that node in front, and the new head has no
-- predecessor.
pub push-Represents :
    (l : Links) (p : ℕ) (ps : List ℕ)
    → Represents l ps
    → Absent p ps
    → l.next p ≡ none
    → l.prev p ≡ none
    → Represents (push p l) (p ∷ ps) × StartsThere (push p l) (p ∷ ps)
unfolding push
push-Represents l p [] (c, d) z n b = rw c (((refl, tt, n), (tt, tt)), b)
push-Represents l p (q ∷ ps) (c, d) z n b =
    let chain =
      set-Absent l.next (set l.prev q (some p)) p (some q) (some q) (q ∷ ps) z
        (prev_first l.next l.prev q (some p) (some q) ps d (refl, c.1, c.2)) in
    subst (Pushed l p (q ∷ ps)) (sym c.0)
      (((refl, rw (==_refl q) refl, rw (==_refl p) chain), (z, d)), rw (z.0.1) b)

-- A node that is not the head.
bypass-Represents :
    (l : Links) (p x : ℕ) (xs ys : List ℕ)
    → Represents l (x ∷ (xs ++ (p ∷ ys)))
    → Represents (bypass p l) (x ∷ (xs ++ ys))
bypass-Represents l p x xs ys (c, d) =
    let (init, a, e) = last_of x xs in
    let c' = subst (Chain l.next l.prev l.head) (e (p ∷ ys)) c in
    let d' = subst Distinct (e (p ∷ ys)) d in
    (
      subst
          (Chain (set_if l.next (l.prev p) (l.next p)) (set_if l.prev (l.next p) (l.prev p)) l.head)
          (sym (e ys))
          (subst
            (λ v.
              Chain (set_if l.next v (l.next p)) (set_if l.prev (l.next p) (l.prev p)) l.head
                (init ++ (a ∷ ys)))
            (sym (prev_of l.next l.prev a p l.head init ys c'))
            (bypass_after l.next l.prev a p l.head init ys d' c')),
      Distinct-drop (x ∷ xs) p ys d,
    )

-- The predecessor of the first node of a list is written.
relinked :
    (next prev : ℕ → Option ℕ) (v from : Option ℕ) (ys : List ℕ)
    → Distinct ys
    → Chain next prev from ys
    → Chain next (set_if prev from v) from ys
relinked next prev v from [] d c = c
relinked next prev v from (y ∷ ys) d c =
    subst (λ u. Chain next (set_if prev u v) from (y ∷ ys)) (sym c.0)
      (prev_first next prev y v from ys d c)

relinked_start :
    (l : Links) (v : Option ℕ) (from : Option ℕ) (ys : List ℕ)
    → Chain l.next l.prev from ys
    → v ≡ none
    → StartsThere (record l { prev = set_if l.prev from v }) ys
relinked_start l v from [] c e = tt
relinked_start l v from (y ∷ ys) c e =
    subst (λ u. set_if l.prev u v y ≡ none) (sym c.0) (rw (==_refl y) e)

abbrev unlinked : Links → ℕ → Bool → Links
unlinked l p b = bypass p (if b then (record l { head = l.next p }) else l)

abbrev Unlinked : Links → ℕ → List ℕ → Bool → Type 0
Unlinked l p zs b = Represents (unlinked l p b) zs × StartsThere (unlinked l p b) zs

bypass_head :
    (l : Links) (p : ℕ) (ys : List ℕ)
    → Represents l (p ∷ ys)
    → l.prev p ≡ none
    → Unlinked l p ys true
bypass_head l p ys (c, d) b = (
  (
    subst
        (λ u.
          Chain (set_if l.next u (l.next p)) (set_if l.prev (l.next p) (l.prev p)) (l.next p) ys)
        (sym b) (relinked l.next l.prev (l.prev p) (l.next p) ys d.1 c.2),
    d.1,
  ),
  relinked_start l (l.prev p) (l.next p) ys c.2 b,
)

bypass_start :
    (l : Links) (p x : ℕ) (xs ys : List ℕ)
    → Represents l (x ∷ (xs ++ (p ∷ ys)))
    → l.prev x ≡ none
    → set_if l.prev (l.next p) (l.prev p) x ≡ none
bypass_start l p x xs ys (c, d) b =
    let (init, a, e) = last_of x xs in
    set_if-Absent l.next l.prev p x (l.prev p) ys (Absent-after x p xs ys d.0) (
      Chain-end l.next l.prev a p l.head init ys
        (subst (Chain l.next l.prev l.head) (e (p ∷ ys)) c))
    ∙ b

-- If the pointers make a list, each node once, and its head has no predecessor, then after
-- `get_r_entry` deletes one of its nodes, wherever it stands, they make the list without that
-- node, and the head has no predecessor.
pub unlink-Represents :
    (l : Links) (p : ℕ) (xs ys : List ℕ)
    → Represents l (xs ++ (p ∷ ys))
    → StartsThere l (xs ++ (p ∷ ys))
    → Represents (unlink p l) (xs ++ ys) × StartsThere (unlink p l) (xs ++ ys)
unfolding unlink
unlink-Represents l p [] ys (c, d) b =
    subst (Unlinked l p ys) (sym (ap (λ h. points_to h p) c.0 ∙ ==_refl p))
      (bypass_head l p ys (c, d) b)
unlink-Represents l p (x ∷ xs) ys (c, d) b =
    subst (Unlinked l p (x ∷ (xs ++ ys))) (sym (not_head p x xs ys l.head c.0 d))
      (bypass-Represents l p x xs ys (c, d), bypass_start l p x xs ys (c, d) b)

abbrev Taken : Links → ℕ → List ℕ → Bool → Type 0
Taken l p zs b =
    Represents (if b then (record l { head = l.next p; next = set l.next p none }) else bypass p l)
      zs

-- If the pointers make a list, each node once, then after `lookup_pending_queue` takes out one of
-- its nodes, wherever it stands, they make the list without that node.
pub take_out-Represents :
    (l : Links) (p : ℕ) (xs ys : List ℕ)
    → Represents l (xs ++ (p ∷ ys))
    → Represents (take_out p l) (xs ++ ys)
unfolding take_out
take_out-Represents l p [] ys (c, d) =
    subst (Taken l p ys) (sym (ap (λ h. points_to h p) c.0 ∙ ==_refl p))
      (set-Absent l.next l.prev p none (l.next p) ys d.0 c.2, d.1)
take_out-Represents l p (x ∷ xs) ys (c, d) =
    subst (Taken l p (x ∷ (xs ++ ys))) (sym (not_head p x xs ys l.head c.0 d))
      (bypass-Represents l p x xs ys (c, d))
