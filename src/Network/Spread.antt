-- ===== src/Network/Spread.antt =====
-- What is in the air after a node sent copies of a frame.
use on_demand_routing.Base.{
  ℕ, suc, ap, ◌+◌, ◌*◌, ◌≤◌, ◌<◌, ◌≡◌, refl, List, [], ◌∷◌, ◌++◌, map, length, subst, ◌⊎◌,
  length-append, All, All-mono, All-append, inl, inr, Bool-cases, arith,
}
use on_demand_routing.Frame.{Frame}
use on_demand_routing.Odr.{Sent, raw, local, Hwa, Mac}
use on_demand_routing.Transmit.{is_flooded}
use on_demand_routing.Transmit.Delivery.{copies, onto}
use on_demand_routing.Network.{Packet, Wiring, spread, spread_all}

module _ {A : Type 0} where
  length-map : {B : Type 0} (f : B → A) (xs : List B) → length (map f xs) ≡ length xs
  length-map f [] = refl
  length-map f (x ∷ xs) = ap suc (length-map f xs)

module _ {A : Type 0} (P : A → Type 0) where
  pub All-middle :
      (xs : List A) (y : A) (zs : List A) → All P (xs ++ (y ∷ zs)) → All P xs × P y × All P zs
  All-middle [] y zs (h, hs) = (tt, h, hs)
  All-middle (x ∷ xs) y zs (h, hs) = let k = All-middle xs y zs hs in ((h, k.0), k.1, k.2)

  pub All-map : {B : Type 0} (f : B → A) (xs : List B) → All (λ x. P (f x)) xs → All P (map f xs)
  All-map f [] h = tt
  All-map f (x ∷ xs) (h, hs) = (h, All-map f xs hs)

-- The interface is one of the list.
abbrev pub Among : Hwa → List Hwa → Type 0
Among h [] = ⊥
Among h (x ∷ xs) = (x ≡ h) ⊎ Among h xs

pub All-Among : (P : Hwa → Type 0) (h : Hwa) (hs : List Hwa) → All P hs → Among h hs → P h
All-Among P h [] ps never = absurd never
All-Among P h (x ∷ xs) (p, ps) (inl same) = subst P same p
All-Among P h (x ∷ xs) (p, ps) (inr later) = All-Among P h xs ps later

-- A message that carries the frame.
abbrev pub Carries : Frame → Sent → Type 0
Carries f (raw src dst if_index g) = g ≡ f
Carries f (local path text) = ⊥

-- A packet to a node, with the frame.
pub record IsCopy (nodes : ℕ) (f : Frame) (p : Packet) : Type 0 where
  pub node_exists : p.to < nodes
  pub same_frame : p.frame ≡ f

-- The copies of a frame, at most one per interface.
pub copies-Carries : (i : ℕ) (f : Frame) (hs : List Hwa) → All (Carries f) (copies i f hs)
unfolding copies
copies-Carries i f [] = tt
copies-Carries i f (h ∷ hs) = elim (Bool-cases (is_flooded i h)) [
  | inl out ↦ rw out (refl, copies-Carries i f hs)
  | inr not_out ↦ rw not_out (copies-Carries i f hs)
]

pub length-copies : (i : ℕ) (f : Frame) (hs : List Hwa) → length (copies i f hs) ≤ length hs
unfolding copies
length-copies i f [] = omega arith
length-copies i f (h ∷ hs) = elim (Bool-cases (is_flooded i h)) [
  | inl out ↦ rw out (omega (arith, length-copies i f hs))
  | inr not_out ↦ rw not_out (omega (arith, length-copies i f hs))
]

pub All-onto : (P : Sent → Type 0) (ms acc : List Sent) → All P ms → All P acc → All P (onto ms acc)
All-onto P [] acc h k = k
All-onto P (m ∷ ms) acc (h, hs) k = All-onto P ms (m ∷ acc) hs (h, k)

pub length-onto : (ms acc : List Sent) → length (onto ms acc) ≡ length ms + length acc
length-onto [] acc = omega arith
length-onto (m ∷ ms) acc = omega (arith, length-onto ms (m ∷ acc))

module _ (nodes : ℕ) (heard : Wiring)
    (wired : (i if_index : ℕ) (dst : Mac) → All (λ r. r.0 < nodes) (heard i if_index dst)) where
  spread-IsCopy :
      (i : ℕ) (f : Frame) (m : Sent) → Carries f m → All (IsCopy nodes f) (spread heard i m)
  unfolding spread
  spread-IsCopy i f (raw src dst if_index g) same =
      All-map (IsCopy nodes f) _ (heard i if_index dst) (
        All-mono (heard i if_index dst) (λ r lt. record { node_exists = lt; same_frame = same })
          (wired i if_index dst))
  spread-IsCopy i f (local path text) never = absurd never

  pub spread_all-IsCopy :
      (i : ℕ) (f : Frame) (ms : List Sent)
      → All (Carries f) ms
      → All (IsCopy nodes f) (spread_all heard i ms)
  unfolding spread_all
  spread_all-IsCopy i f [] h = tt
  spread_all-IsCopy i f (m ∷ ms) (h, hs) =
      All-append (IsCopy nodes f) (spread heard i m) (spread_all heard i ms) (spread-IsCopy i f m h)
        (spread_all-IsCopy i f ms hs)

module _ (degree : ℕ) (heard : Wiring)
    (few : (i if_index : ℕ) (dst : Mac) → length (heard i if_index dst) ≤ degree) where
  length-spread : (i : ℕ) (m : Sent) → length (spread heard i m) ≤ degree
  unfolding spread
  length-spread i (raw src dst if_index g) = rw length-map (few i if_index dst)
  length-spread i (local path text) = omega arith

  -- Every message is heard by a few nodes only.
  pub length-spread_all :
      (i : ℕ) (ms : List Sent) → length (spread_all heard i ms) ≤ length ms * degree
  unfolding spread_all
  length-spread_all i [] = omega arith
  length-spread_all i (m ∷ ms) = grind (
    arith,
    length-append (spread heard i m) (spread_all heard i ms),
    length-spread i m,
    length-spread_all i ms,
  )
