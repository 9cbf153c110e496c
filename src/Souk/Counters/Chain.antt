-- ===== src/Souk/Counters/Chain.antt =====
-- The walk of `getOfferChain`: that it ends, and which offers it leaves out.
use madinaty_ai_core_mesh.Base.{
  ℕ, zero, suc, ◌+◌, ◌≤◌, ◌<◌, ◌≡◌, sym, arith, inl, inr, ◌⊎◌, Bool, true, false, not, List, [],
  ◌∷◌, some, ◌==◌, ==_iff, subst, length, count, count-le-length, find_first, All, Option-cases,
  Bool-cases,
}
use madinaty_ai_core_mesh.Base.Action.{ok}
use madinaty_ai_core_mesh.Base.Table.{find}
use madinaty_ai_core_mesh.Souk.{Souk, Offer, offer_keyed}
use madinaty_ai_core_mesh.Souk.Gates.{parent_of}
use madinaty_ai_core_mesh.Souk.Counters.{mem, walk_up, walk_down, first_child, get_offer_chain}

abbrev is_unseen : List ℕ → Offer → Bool
is_unseen visited o = not (mem o.id visited)

unseen_mono :
    (v : ℕ) (visited : List ℕ) (offers : List Offer)
    → count (is_unseen (v ∷ visited)) offers ≤ count (is_unseen visited) offers
unseen_mono v visited [] = omega arith
unseen_mono v visited (o ∷ offers) = ground (arith, unseen_mono v visited offers)

-- A visit of an offer that is there leaves fewer to visit.
unseen_visit :
    (v : ℕ) (visited : List ℕ) (offers : List Offer)
    → mem v visited ≡ false
    → 1 ≤ count (λ o. o.id == v) offers
    → count (is_unseen (v ∷ visited)) offers + 1 ≤ count (is_unseen visited) offers
unseen_visit v visited [] new there = absurd (omega (arith, there))
unseen_visit v visited (o ∷ offers) new there = elim (Bool-cases (o.id == v)) [
  | inl hit ↦ ground (
    arith,
    subst (λ i. mem i visited ≡ false) (sym ((==_iff o.id v).0 hit)) new,
    (==_iff v o.id).1,
    unseen_mono v visited offers,
  )
  | inr miss ↦ ground (arith, unseen_visit v visited offers new)
]

first_there :
    (p : Offer → Bool) (offers : List Offer) (c : Offer)
    → find_first p offers ≡ some c
    → 1 ≤ count (λ o. o.id == c.id) offers
first_there p [] c e = cc
first_there p (o ∷ offers) c e = ground (arith, first_there p offers c)

find_there :
    (v : ℕ) (offers : List Offer) (o : Offer)
    → find v offers ≡ some o
    → 1 ≤ count (λ x. x.id == v) offers
unfolding find
find_there v [] o e = cc
find_there v (x ∷ offers) o e = ground (arith, find_there v offers o)

child_there :
    (cursor : ℕ) (offers : List Offer) (c : Offer)
    → first_child cursor offers ≡ some c
    → 1 ≤ count (λ o. o.id == c.id) offers
unfolding first_child
child_there cursor offers c e = first_there _ offers c e

up_step :
    (fuel : ℕ) (offers : List Offer) (visited : List ℕ) (root : ℕ)
    → count (is_unseen visited) offers < fuel
    → walk_up (suc fuel) offers visited root ≡ walk_up fuel offers visited root
unfolding walk_up
up_step zero offers visited root h = absurd (omega (arith, h))
up_step (suc fuel) offers visited root h = elim (Bool-cases (mem root visited)) [
  | inl seen ↦ ground arith
  | inr new ↦ elim (Option-cases (find root offers)) [
    | inl e ↦ ground (arith, e)
    | inr (o, e) ↦ elim (Option-cases o.parent_offer_id) [
      | inl top ↦ ground (arith, e)
      | inr (p, up) ↦ ground (
        arith,
        e,
        up_step fuel offers (root ∷ visited) p
            (omega (arith, h, unseen_visit root visited offers new (find_there root offers o e))),
      )
    ]
  ]
]

down_step :
    (fuel : ℕ) (offers : List Offer) (visited : List ℕ) (cursor : ℕ)
    → count (is_unseen visited) offers < fuel
    → walk_down (suc fuel) offers visited cursor ≡ walk_down fuel offers visited cursor
unfolding walk_down
down_step zero offers visited cursor h = absurd (omega (arith, h))
down_step (suc fuel) offers visited cursor h = elim (Option-cases (first_child cursor offers)) [
  | inl e ↦ ground (arith, e)
  | inr (c, e) ↦ elim (Bool-cases (mem c.id visited)) [
    | inl seen ↦ ground (arith, e)
    | inr new ↦ ground (
      arith,
      e,
      down_step fuel offers (c.id ∷ visited) c.id
          (omega (arith, h, unseen_visit c.id visited offers new (child_there cursor offers c e))),
    )
  ]
]

-- With more fuel than there are offers left to visit, more fuel changes nothing.
up_enough :
    (extra fuel : ℕ) (offers : List Offer) (visited : List ℕ) (root : ℕ)
    → count (is_unseen visited) offers < fuel
    → walk_up (extra + fuel) offers visited root ≡ walk_up fuel offers visited root
up_enough zero fuel offers visited root h = ground arith
up_enough (suc extra) fuel offers visited root h = ground (
  arith,
  up_step (extra + fuel) offers visited root (omega (arith, h)),
  up_enough extra fuel offers visited root h,
)

down_enough :
    (extra fuel : ℕ) (offers : List Offer) (visited : List ℕ) (cursor : ℕ)
    → count (is_unseen visited) offers < fuel
    → walk_down (extra + fuel) offers visited cursor ≡ walk_down fuel offers visited cursor
down_enough zero fuel offers visited cursor h = ground arith
down_enough (suc extra) fuel offers visited cursor h = ground (
  arith,
  down_step (extra + fuel) offers visited cursor (omega (arith, h)),
  down_enough extra fuel offers visited cursor h,
)

same_chain :
    (f g id : ℕ) (s : Souk)
    → walk_up f s.offers [] id ≡ walk_up g s.offers [] id
    → ((root : ℕ)
        → walk_down f s.offers (walk_up g s.offers [] id).0 root
          ≡ walk_down g s.offers (walk_up g s.offers [] id).0 root)
    → get_offer_chain f id s ≡ get_offer_chain g id s
unfolding get_offer_chain
same_chain f g id s up down = elim (Option-cases (find (walk_up g s.offers [] id).1 s.offers)) [
  | inl e ↦ ground (arith, up, e)
  | inr (r, e) ↦ ground (arith, up, e, down r.id)
]

-- Both loops of `getOfferChain` end, whatever the links between the offers, rings of parents
-- included: with fuel of one more than the number of offers the answer is that of any greater fuel.
pub get_offer_chain_ends :
    (extra id : ℕ) (s : Souk)
    → get_offer_chain (extra + (length s.offers + 1)) id s
      ≡ get_offer_chain (length s.offers + 1) id s
get_offer_chain_ends extra id s =
    same_chain (extra + (length s.offers + 1)) (length s.offers + 1) id s
      (up_enough extra (length s.offers + 1) s.offers [] id (enough []))
      (λ root.
        down_enough extra (length s.offers + 1) s.offers
          (walk_up (length s.offers + 1) s.offers [] id).0 root
          (enough (walk_up (length s.offers + 1) s.offers [] id).0))
  where
    enough : (visited : List ℕ) → count (is_unseen visited) s.offers < length s.offers + 1
    enough visited = omega (arith, count-le-length (is_unseen visited) s.offers)

walk_up-mem :
    (fuel : ℕ) (offers : List Offer) (visited : List ℕ) (root id : ℕ)
    → mem id visited ≡ true
    → mem id (walk_up fuel offers visited root).0 ≡ true
unfolding walk_up
walk_up-mem zero offers visited root id h = h
walk_up-mem (suc fuel) offers visited root id h =
    elim (Option-cases (parent_of (find root offers))) [
      | inl e ↦ ground (arith, e)
      | inr (p, e) ↦ ground (arith, e, walk_up-mem fuel offers (root ∷ visited) p id)
    ]

walk_up-start :
    (fuel : ℕ) (offers : List Offer) (id : ℕ) → mem id (walk_up (suc fuel) offers [] id).0 ≡ true
unfolding walk_up
walk_up-start fuel offers id = elim (Option-cases (parent_of (find id offers))) [
  | inl e ↦ ground (arith, e)
  | inr (p, e) ↦ ground (arith, e, walk_up-mem fuel offers (id ∷ []) p id)
]

walk_down-cases :
    (fuel : ℕ) (offers : List Offer) (visited : List ℕ) (cursor : ℕ)
    → (walk_down (suc fuel) offers visited cursor ≡ [])
      ⊎ ((c : Offer) × (mem c.id visited ≡ false)
          × (walk_down (suc fuel) offers visited cursor
              ≡ c ∷ walk_down fuel offers (c.id ∷ visited) c.id))
unfolding walk_down
walk_down-cases fuel offers visited cursor = elim (Option-cases (first_child cursor offers)) [
  | inl e ↦ inl (ground (arith, e))
  | inr (c, e) ↦ elim (Bool-cases (mem c.id visited)) [
    | inl seen ↦ inl (ground (arith, e))
    | inr new ↦ inr (c, new, ground (arith, e))
  ]
]

walk_down-unseen :
    (fuel : ℕ) (offers : List Offer) (visited : List ℕ) (cursor id : ℕ)
    → mem id visited ≡ true
    → All (λ o. (o.id == id) ≡ false) (walk_down fuel offers visited cursor)
unfolding walk_down
walk_down-unseen zero offers visited cursor id h = tt
walk_down-unseen (suc fuel) offers visited cursor id h =
    elim (walk_down-cases fuel offers visited cursor) [
      | inl none_left ↦ subst (All (λ o. (o.id == id) ≡ false)) (sym none_left) tt
      | inr (c, new, e) ↦
          subst (All (λ o. (o.id == id) ≡ false)) (sym e)
            (apart c new, walk_down-unseen fuel offers (c.id ∷ visited) c.id id (ground arith))
    ]
  where
    apart : (c : Offer) → mem c.id visited ≡ false → (c.id == id) ≡ false
    apart c new = elim (Bool-cases (c.id == id)) [
      | inl hit ↦ ground (arith, subst (λ i. mem i visited ≡ true) (sym ((==_iff c.id id).0 hit)) h)
      | inr miss ↦ miss
    ]

below_is :
    (fuel id : ℕ) (s : Souk) (root : Offer) (below : List Offer)
    → (get_offer_chain (suc fuel) id s).0 ≡ ok (root ∷ below)
    → below ≡ walk_down (suc fuel) s.offers (walk_up (suc fuel) s.offers [] id).0 root.id
unfolding get_offer_chain
below_is fuel id s root below h =
    elim (Option-cases (find (walk_up (suc fuel) s.offers [] id).1 s.offers)) [
      | inl e ↦ absurd (ground arith)
      | inr (r, e) ↦ ground arith
    ]

-- The offer that `getOfferChain` is asked about is never among those that it returns after the
-- first: the walk up has visited it, and the walk down stops at what is visited. So for an offer
-- that answers another one, unless the walk up came back to it, the answer leaves it and all that
-- follow it out.
pub get_offer_chain_omits :
    (fuel id : ℕ) (s : Souk) (root : Offer) (below : List Offer)
    → (get_offer_chain (suc fuel) id s).0 ≡ ok (root ∷ below)
    → All (λ o. (o.id == id) ≡ false) below
get_offer_chain_omits fuel id s root below h =
    subst (All (λ o. (o.id == id) ≡ false)) (sym (below_is fuel id s root below h)) (
      walk_down-unseen (suc fuel) s.offers (walk_up (suc fuel) s.offers [] id).0 root.id id
        (walk_up-start fuel s.offers id))
