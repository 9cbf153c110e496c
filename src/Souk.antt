-- ===== src/Souk.antt =====
-- The data of the Souk ElKanto marketplace: the tables of the `tenant_soukelkanto` schema
-- (prisma/schema.prisma) and the errors and messages of
-- apps/core-hub/src/modules/soukelkanto/soukelkanto.service.ts. Ids are only compared, so numbers
-- stand for the strings; prices and amounts are whole pounds; times are milliseconds.
pub mod Gates
pub mod Offers
pub mod Counters
pub mod Listings
pub mod Handovers
pub mod Reports
pub mod Favorites
pub mod Ratings
pub mod Disputes
pub mod Cases
pub mod Sale
pub mod Atomic
pub mod Samples
mod Tests
use madinaty_ai_core_mesh.Base.{ℕ, Bool, true, false, List, Option, ◌==◌, ◌||◌}
use madinaty_ai_core_mesh.Base.Int.{ℤ}
use madinaty_ai_core_mesh.Base.Text.{Text}
use madinaty_ai_core_mesh.Base.Table.{Keyed}
use madinaty_ai_core_mesh.Core.{Core}
use madinaty_ai_core_mesh.Tokens.{Store}

pub data ListingStatus : Type 0 where
  active reserved sold pending_review removed expired : ListingStatus

pub data OfferStatus : Type 0 where
  pending accepted declined countered withdrawn expired : OfferStatus
  handover_pending confirmed closed cancelled : OfferStatus

pub data SoukCategory : Type 0 where
  furniture electronics appliances fashion kids_toys kids_clothing kids_gear : SoukCategory
  books_media sports_outdoor home_decor kitchen_dining baby_maternity : SoukCategory
  mobile_tablets vintage_collectibles moving_bundle other : SoukCategory

pub data SoukCondition : Type 0 where
  new_with_tags like_new good fair needs_repair for_parts : SoukCondition

-- The tags that the service writes, and the text of a user.
pub data DeclineReason : Type 0 where
  auto_declined_listing_sold listing_removed_by_seller declined_by_buyer : DeclineReason
  message : Text → DeclineReason

pub record Photo : Type 0 where
  pub r2_key : Text
  pub url : Text
  pub position : ℕ

pub record Listing : Type 0 where
  pub id : ℕ
  pub seller_id : ℕ
  pub title : Text
  pub description : Text
  pub category : SoukCategory
  pub condition : SoukCondition
  pub asking_price : ℕ
  pub district : Text
  pub status : ListingStatus
  pub view_count : ℕ
  pub favorite_count : ℤ
  pub photos : List Photo
  pub created_at : ℕ
  pub removed_at : Option ℕ

pub record Offer : Type 0 where
  pub id : ℕ
  pub listing_id : ℕ
  pub buyer_id : ℕ
  pub seller_id : ℕ
  pub amount : ℕ
  pub note : Option Text
  pub status : OfferStatus
  pub parent_offer_id : Option ℕ
  pub token_hold_amount : Option ℕ
  pub token_hold_expires_at : Option ℕ
  pub accepted_at : Option ℕ
  pub declined_at : Option ℕ
  pub withdrawn_at : Option ℕ
  pub expired_at : Option ℕ
  pub decline_reason : Option DeclineReason
  pub created_at : ℕ
  pub updated_at : ℕ

pub record Handover : Type 0 where
  pub offer_id : ℕ
  pub buyer_confirmed_at : Option ℕ
  pub seller_confirmed_at : Option ℕ
  pub both_confirmed_at : Option ℕ
  pub rating_window_ends_at : Option ℕ

pub record Rating : Type 0 where
  pub id : ℕ
  pub offer_id : ℕ
  pub rater_id : ℕ
  pub target_id : ℕ
  pub score : ℕ
  pub comment : Option Text
  pub mapped_severity : ℕ

pub record Favorite : Type 0 where
  pub user_id : ℕ
  pub listing_id : ℕ

pub data DisputeReason : Type 0 where
  item_not_as_described item_defective no_show payment_issue counterfeit : DisputeReason
  seller_backed_out buyer_backed_out safety_concern other : DisputeReason

pub data DisputeStatus : Type 0 where
  opened resolved rejected : DisputeStatus

pub record Dispute : Type 0 where
  pub id : ℕ
  pub offer_id : ℕ
  pub filed_by_id : ℕ
  pub against_id : ℕ
  pub reason : DisputeReason
  pub description : Option Text
  pub evidence_r2_key : Option Text
  pub status : DisputeStatus
  pub resolved_at : Option ℕ
  pub resolved_by_id : Option ℕ
  pub resolution : Option Text
  pub report_row_id : Option ℕ

-- The calls of `events.emit` and of `notifyAsync`, in the order made. Both are best effort: a
-- failure is logged and changes nothing else.
pub data EventType : Type 0 where
  offer_accepted offer_cascade_declined offer_expired_listing_removed offer_cancelled : EventType
  handover_confirmed rating_received dispute_opened user_reported : EventType

pub data NoticeType : Type 0 where
  offer_created_notice offer_accepted_notice offer_declined_notice : NoticeType
  offer_countered_notice offer_withdrawn_notice : NoticeType

pub data Effect : Type 0 where
  -- the event, the user that it concerns, and the row that its payload names
  event : EventType → ℕ → ℕ → Effect
  -- the notice, its recipient, the offer's amount and the counter's
  notice : NoticeType → ℕ → ℕ → Option ℕ → Effect

pub record Souk : Type 0 where
  pub core : Core
  pub bank : Store
  pub listings : List Listing
  pub offers : List Offer
  pub handovers : List Handover
  pub ratings : List Rating
  pub favorites : List Favorite
  pub disputes : List Dispute
  pub effects : List Effect

instance abbrev pub listing_keyed : Keyed Listing
listing_keyed = record { key = λ l. l.id }

instance abbrev pub offer_keyed : Keyed Offer
offer_keyed = record { key = λ o. o.id }

-- `offerId` is unique among the handovers.
instance abbrev pub handover_keyed : Keyed Handover
handover_keyed = record { key = λ h. h.offer_id }

instance abbrev pub dispute_keyed : Keyed Dispute
dispute_keyed = record { key = λ d. d.id }

pub data Error : Type 0 where
  -- 404
  listing_not_found offer_not_found user_not_found seller_not_found : Error
  counterpart_not_found dispute_not_found : Error
  -- 410
  listing_removed : Error
  -- 403
  insufficient_trust profile_incomplete birthdate_invalid profile_age_restricted : Error
  photo_ownership_mismatch not_the_owner not_the_seller not_the_buyer not_a_party : Error
  cannot_report_own_listing cannot_offer_on_own_listing not_a_counter : Error
  listing_not_active : ListingStatus → Error
  offer_cannot_be_accepted offer_cannot_be_declined offer_cannot_be_countered : Error
  offer_cannot_be_withdrawn offer_cannot_be_edited max_counter_depth_reached : Error
  token_hold_failed not_in_handover_state handover_not_confirmed handover_not_complete : Error
  rating_window_closed already_rated dispute_already_open dispute_window_closed : Error
  dispute_already_resolved : Error
  contact_reveal_not_allowed offer_not_cancellable dispute_not_allowed : OfferStatus → Error
  -- 400
  amount_not_positive : Error
  offer_out_of_band : ℕ → ℕ → ℕ → Error
  -- 409
  offer_already_pending : ℕ → ℕ → Error
  -- 500: a foreign key or a unique index that the database would not let be broken
  constraint_violated : Error

-- What the service asks of its surroundings: the spelling of an id as a string, the date functions
-- of JavaScript, and the configuration.
pub record Env : Type 0 where
  -- `String(id)`
  pub spell : ℕ → Text
  -- `new Date(text).getTime()`, where that is a number
  pub parse_date : Text → Option ℤ
  -- the time 18 calendar years before the given one
  pub eighteen_years_before : ℕ → ℤ
  -- `trustScore.banThreshold`
  pub ban_threshold : Option ℕ
  -- whether the R2 client is there, and `publicBase`
  pub r2_configured : Bool
  pub public_base : Text

abbrev pub is_active : ListingStatus → Bool
is_active active = true
is_active _ = false

abbrev pub is_removed : ListingStatus → Bool
is_removed removed = true
is_removed _ = false

abbrev pub is_pending : OfferStatus → Bool
is_pending pending = true
is_pending _ = false

-- `status: { in: ['PENDING', 'COUNTERED'] }`
abbrev pub is_open : OfferStatus → Bool
is_open pending = true
is_open countered = true
is_open _ = false

-- `['ACCEPTED', 'HANDOVER_PENDING']`
abbrev pub is_agreed : OfferStatus → Bool
is_agreed accepted = true
is_agreed handover_pending = true
is_agreed _ = false

-- `['ACCEPTED', 'HANDOVER_PENDING', 'CONFIRMED']`
abbrev pub is_live : OfferStatus → Bool
is_live confirmed = true
is_live s = is_agreed s

abbrev pub is_party : ℕ → Offer → Bool
is_party user o = o.buyer_id == user || o.seller_id == user
