-- ===== src/Souk/Gates.antt =====
-- The checks that several handlers of soukelkanto.service.ts share: `assertProfileComplete`,
-- `assertAmountInBand` and `assertCounterDepthAllowed`, the rows that a handler reads first, and
-- the spend of a token hold.
use madinaty_ai_core_mesh.Base.{
  ℕ, zero, suc, ◌+◌, ◌*◌, ◌/◌, Bool, ◌||◌, not, List, [], ◌∷◌, ◌++◌, Option, none, some, ltb, ◌==◌,
  if◌then◌else◌, or_else,
}
use madinaty_ai_core_mesh.Base.Int.{ltb_ℤ}
use madinaty_ai_core_mesh.Base.Text.{Text, trim, is_empty}
use madinaty_ai_core_mesh.Base.Action.{Result, ok, err, Action, pure, gets, modify, or_throw, ◌>>=◌}
use madinaty_ai_core_mesh.Base.Table.{find}
use madinaty_ai_core_mesh.Core.{User, user_keyed}
use madinaty_ai_core_mesh.Tokens.{individual, souk_offer_hold, spend}
use madinaty_ai_core_mesh.Souk.{
  Souk, Listing, Offer, Error, Env, Effect, offer_keyed, listing_keyed, user_not_found,
  profile_incomplete, birthdate_invalid, profile_age_restricted, amount_not_positive,
  offer_out_of_band, max_counter_depth_reached, offer_not_found, constraint_violated,
  token_hold_failed,
}

-- A query that reads tables and writes nothing.
abbrev pub read : {A : Type 0} → (Souk → A) → Action Error Souk A
read f = gets f

abbrev pub tell : Effect → Action Error Souk (Unit {0})
tell e = modify (λ s. record s { effects = s.effects ++ e ∷ [] })

-- `soukOffer.findUnique` with the check for a missing row.
abbrev pub get_offer_row : ℕ → Action Error Souk Offer
get_offer_row id = do row ← read λ s. find id s.offers; or_throw row offer_not_found

-- `include: { listing: true }`: the foreign key says that the row is there.
abbrev pub listing_of : Offer → Action Error Souk Listing
listing_of o = do row ← read λ s. find o.listing_id s.listings; or_throw row constraint_violated

-- `typeof v === 'string' ? v.trim() : ''`
abbrev pub trimmed : Option Text → Text
trimmed v = trim (or_else v [])

check_birthdate : Env → ℕ → Text → Result Error (Unit {0})
check_birthdate env now birthdate = elim (env.parse_date birthdate) [
  | none ↦ err birthdate_invalid
  | some dob ↦
      if ltb_ℤ (env.eighteen_years_before now) dob then err profile_age_restricted else ok tt
]

unfoldable pub check_profile : Env → ℕ → Option User → Result Error (Unit {0})
unfolding check_birthdate
check_profile env now none = err user_not_found
check_profile env now (some u) =
    if is_empty (trimmed u.metadata.full_name)
      || is_empty (trimmed u.metadata.gender)
      || is_empty (trimmed u.metadata.birthdate)
    then err profile_incomplete
    else check_birthdate env now (trimmed u.metadata.birthdate)

abbrev pub assert_profile_complete : Env → ℕ → ℕ → Action Error Souk (Unit {0})
assert_profile_complete env now user s = (check_profile env now (find user s.core.users), s)

-- `Math.ceil(askingPrice * 0.5)` and `Math.floor(askingPrice * 1.5)`
abbrev pub offer_min : ℕ → ℕ
offer_min asking = (asking + 1) / 2

abbrev pub offer_max : ℕ → ℕ
offer_max asking = asking * 3 / 2

unfoldable pub check_amount : ℕ → ℕ → Result Error (Unit {0})
check_amount amount asking =
    if amount == 0
    then err amount_not_positive
    else if ltb amount (offer_min asking) || ltb (offer_max asking) amount
    then err (offer_out_of_band (offer_min asking) (offer_max asking) asking)
    else ok tt

abbrev pub assert_amount_in_band : ℕ → ℕ → Action Error Souk (Unit {0})
assert_amount_in_band amount asking s = (check_amount amount asking, s)

abbrev pub max_counter_depth : ℕ
max_counter_depth = 2

-- `row?.parentOfferId ?? null`
abbrev pub parent_of : Option Offer → Option ℕ
parent_of none = none
parent_of (some o) = o.parent_offer_id

-- The loop of `assertCounterDepthAllowed`: the rounds that are left, the offers, the cursor.
unfoldable pub depth_from : ℕ → List Offer → Option ℕ → ℕ
depth_from zero offers cursor = 0
depth_from (suc rounds) offers none = 0
depth_from (suc rounds) offers (some id) =
    suc (depth_from rounds offers (parent_of (find id offers)))

unfoldable pub check_depth : List Offer → Option ℕ → Result Error (Unit {0})
check_depth offers parent =
    if ltb max_counter_depth (depth_from (max_counter_depth + 2) offers parent + 1)
    then err max_counter_depth_reached
    else ok tt

abbrev pub assert_counter_depth_allowed : Option ℕ → Action Error Souk (Unit {0})
assert_counter_depth_allowed parent s = (check_depth s.offers parent, s)

-- `offer.tokenHoldAmount && offer.tokenHoldAmount > 0`
abbrev pub has_hold : Offer → Bool
has_hold o = not (or_else o.token_hold_amount 0 == 0)

-- `tokens.spend` in its `try`: whatever it throws becomes `TOKEN_HOLD_FAILED`.
abbrev pub spend_hold : ℕ → Offer → Action Error Souk (Unit {0})
spend_hold now o s =
    let (r, bank) = spend now o.buyer_id souk_offer_hold individual (some o.id) s.bank in
    (elim r [ ok _ ↦ ok tt | err _ ↦ err token_hold_failed ], record s { bank = bank })

abbrev pub hold_tokens : ℕ → Offer → Action Error Souk (Unit {0})
hold_tokens now o = if has_hold o then spend_hold now o else pure tt
