-- ===== src/Souk/Samples.antt =====
-- A small marketplace for the examples: a seller, a buyer and one listing.
use madinaty_ai_core_mesh.Base.{ℕ, true, false, List, [], ◌∷◌, none, some}
use madinaty_ai_core_mesh.Base.Int.{pos}
use madinaty_ai_core_mesh.Base.Text.{codes}
use madinaty_ai_core_mesh.Core.{User, Role}
use madinaty_ai_core_mesh.Trust.{TrustConfig}
use madinaty_ai_core_mesh.Tokens.{Store, Wallet, Pricing, souk_offer_hold}
use madinaty_ai_core_mesh.Souk.{Souk, Env, Listing, Offer, active, books_media, good}

abbrev pub sample_env : Env
sample_env = record {
  spell = λ _. codes "7";
  parse_date = λ _. some (pos 0);
  eighteen_years_before = λ _. pos 5;
  ban_threshold = none;
  r2_configured = true;
  public_base = codes "https://r2";
}

abbrev pub sample_config : TrustConfig
sample_config = record { base = none; ban_threshold = none }

abbrev pub sample_user : ℕ → User
sample_user i = record {
  id = i;
  phone_number = codes "010";
  role = Role.user;
  is_verified = false;
  trust_score = 90;
  metadata = record {
    full_name = some (codes "Mona");
    gender = some (codes "f");
    birthdate = some (codes "2000-01-01");
    address = none;
    madinaty_group = none;
    building_no = none;
    apt_no = none;
  };
  created_at = 0;
}

-- Asking for 100 pounds.
abbrev pub sample_listing : Listing
sample_listing = record {
  id = 5;
  seller_id = 1;
  title = codes "Lamp";
  description = codes "Old";
  category = books_media;
  condition = good;
  asking_price = 100;
  district = codes "B1";
  status = active;
  view_count = 0;
  favorite_count = pos 0;
  photos = [];
  created_at = 0;
  removed_at = none;
}

abbrev pub sample_wallet : Wallet
sample_wallet = record { id = 50; user_id = 2; business_tokens = pos 0; individual_tokens = pos 7 }

abbrev pub sample_pricing : Pricing
sample_pricing = record {
  activity_type = souk_offer_hold;
  cost = 5;
  description = codes "hold";
  is_active = true;
  updated_at = 0;
}

abbrev pub sample_store : Store
sample_store = record {
  wallets = sample_wallet ∷ [];
  transactions = [];
  allocations = [];
  pricing = sample_pricing ∷ [];
}

abbrev pub sample_souk : List Offer → Souk
sample_souk offers = record {
  core = record { users = sample_user 1 ∷ sample_user 2 ∷ sample_user 3 ∷ []; reports = [] };
  bank = sample_store;
  listings = sample_listing ∷ [];
  offers = offers;
  handovers = [];
  ratings = [];
  favorites = [];
  disputes = [];
  effects = [];
}
