-- ===== src/Tokens.antt =====
-- The closed-loop token wallet: libs/tokens/src/tokens.service.ts. The four tables of the wallet
-- are lists of rows in creation order. Ids and activity types are only compared, so numbers stand
-- for the strings. Balances and amounts are signed, as the columns are.
pub mod Spending
pub mod History
pub mod Ledger
pub mod Overdraft
mod Tests
use madinaty_ai_core_mesh.Base.{
  ℕ, Bool, true, false, not, ◌&&◌, ◌||◌, List, [], ◌∷◌, ◌++◌, Option, none, some, map, ◌==◌,
  if◌then◌else◌, is_some, take, keep_if, any,
}
use madinaty_ai_core_mesh.Base.Int.{ℤ, pos, ◌+ℤ◌, ◌-ℤ◌, ltb_ℤ}
use madinaty_ai_core_mesh.Base.Text.{Text}
use madinaty_ai_core_mesh.Base.Action.{Action, gets, modify, or_throw, pure, throw_if, ◌>>=◌, ◌>>◌}
use madinaty_ai_core_mesh.Base.Table.{Keyed, find, update}
use mathlib.Core.List.{reverse}

-- The DTOs admit any non-empty string: `other` is a string that is neither literal.
pub data TokenType : Type 0 where
  business individual : TokenType
  other : ℕ → TokenType

abbrev pub is_business : TokenType → Bool
is_business business = true
is_business _ = false

abbrev pub is_individual : TokenType → Bool
is_individual individual = true
is_individual _ = false

abbrev pub same_type : TokenType → TokenType → Bool
same_type business business = true
same_type individual individual = true
same_type (other a) (other b) = a == b
same_type _ _ = false

-- `'CREDIT'` and `'SOUK_OFFER_HOLD'` among the activity types.
abbrev pub credit_activity : ℕ
credit_activity = 0

abbrev pub souk_offer_hold : ℕ
souk_offer_hold = 1

pub data Description : Type 0 where
  given : Text → Description
  admin_credit : ℤ → TokenType → Description
  spent_on : ℕ → Description

pub record Wallet : Type 0 where
  pub id : ℕ
  pub user_id : ℕ
  pub business_tokens : ℤ
  pub individual_tokens : ℤ

pub record Transaction : Type 0 where
  pub wallet_id : ℕ
  pub activity_type : ℕ
  pub token_type : TokenType
  pub amount : ℤ
  pub description : Description
  pub reference_id : Option ℕ
  pub created_at : ℕ

pub record Allocation : Type 0 where
  pub wallet_id : ℕ
  pub activity_type : ℕ
  pub token_type : TokenType
  pub allocated_amount : ℕ

pub record Pricing : Type 0 where
  pub activity_type : ℕ
  pub cost : ℕ
  pub description : Text
  pub is_active : Bool
  pub updated_at : ℕ

pub record Store : Type 0 where
  pub wallets : List Wallet
  pub transactions : List Transaction
  pub allocations : List Allocation
  pub pricing : List Pricing

-- Wallets are looked up by their unique `userId`, prices by their unique `activityType`.
instance abbrev pub wallet_keyed : Keyed Wallet
wallet_keyed = record { key = λ w. w.user_id }

instance abbrev pub pricing_keyed : Keyed Pricing
pricing_keyed = record { key = λ p. p.activity_type }

pub data Error : Type 0 where
  invalid_activity : ℕ → Error
  insufficient_tokens : TokenType → ℕ → ℤ → Error
  null_access : Error

pub record WalletView : Type 0 where
  pub user_id : ℕ
  pub business_tokens : ℤ
  pub individual_tokens : ℤ
  pub allocations : List Allocation
  pub recent_transactions : List Transaction

-- `tokenType === 'business' ? wallet.businessTokens : wallet.individualTokens`
abbrev pub balance_of : TokenType → Wallet → ℤ
balance_of t w = if is_business t then w.business_tokens else w.individual_tokens

-- The update of `balanceField` by a computed value.
abbrev pub set_balance : TokenType → (ℤ → ℤ) → Wallet → Wallet
set_balance t f w =
    if is_business t
    then record w { business_tokens = f w.business_tokens }
    else record w { individual_tokens = f w.individual_tokens }

view_of : Store → ℕ → Option Wallet → WalletView
view_of s user none = record {
  user_id = user;
  business_tokens = pos 0;
  individual_tokens = pos 0;
  allocations = [];
  recent_transactions = [];
}
view_of s user (some w) = record {
  user_id = w.user_id;
  business_tokens = w.business_tokens;
  individual_tokens = w.individual_tokens;
  allocations = keep_if (λ a. a.wallet_id == w.id) s.allocations;
  recent_transactions = take 10 (reverse (keep_if (λ t. t.wallet_id == w.id) s.transactions));
}

unfoldable pub get_wallet : ℕ → Action Error Store WalletView
unfolding view_of
get_wallet user s = gets (λ s. view_of s user (find user s.wallets)) s

-- `tokenWallet.upsert`: `fresh` is the id that the database draws for a new row.
unfoldable pub upsert_wallet : ℕ → ℕ → ℤ → TokenType → List Wallet → List Wallet
upsert_wallet fresh user amount t ws =
    if is_some (find user ws)
    then update user (set_balance t (λ b. b +ℤ amount)) ws
    else ws
      ++ record {
        id = fresh;
        user_id = user;
        business_tokens = if is_business t then amount else pos 0;
        individual_tokens = if is_individual t then amount else pos 0;
      }
        ∷ []

-- `reason ?? ...`
abbrev describe_credit : Option Text → ℤ → TokenType → Description
describe_credit (some r) _ _ = given r
describe_credit none amount t = admin_credit amount t

unfoldable pub credit : ℕ → ℕ → ℕ → ℤ → TokenType → Option Text → Action Error Store WalletView
unfolding upsert_wallet get_wallet
credit fresh now user amount t reason = do
  modify λ s. record s { wallets = upsert_wallet fresh user amount t s.wallets }
  found ← gets λ s. find user s.wallets
  wallet ← or_throw found null_access
  modify λ s. record s {
    transactions =
        s.transactions
        ++ record {
          wallet_id = wallet.id;
          activity_type = credit_activity;
          token_type = t;
          amount = amount;
          description = describe_credit reason amount t;
          reference_id = none;
          created_at = now;
        }
          ∷ [];
  }
  get_wallet user

-- `!pricing || !pricing.isActive`
abbrev active_pricing : Option Pricing → Option Pricing
active_pricing none = none
active_pricing (some p) = if p.is_active then some p else none

-- `spend` up to its first write: the price and the wallet as they were read.
unfoldable pub spend_check : ℕ → ℕ → TokenType → Action Error Store (Pricing × Wallet)
spend_check user activity t = do
  priced ← gets λ s. find activity s.pricing
  pricing ← or_throw (active_pricing priced) (invalid_activity activity)
  found ← gets λ s. find user s.wallets
  wallet ← or_throw found (insufficient_tokens t pricing.cost (pos 0))
  let balance = balance_of t wallet
  throw_if (ltb_ℤ balance (pos pricing.cost)) (insufficient_tokens t pricing.cost balance)
  pure (pricing, wallet)

-- The writes of `spend`, which go by what was read before.
unfoldable pub spend_commit :
    ℕ → ℕ → ℕ → TokenType → Option ℕ → Pricing → Wallet → Action Error Store WalletView
unfolding get_wallet
spend_commit now user activity t reference pricing wallet = do
  modify
      λ s. record s { wallets = update user (set_balance t (λ b. b -ℤ pos pricing.cost)) s.wallets }
  modify λ s. record s {
    transactions =
        s.transactions
        ++ record {
          wallet_id = wallet.id;
          activity_type = activity;
          token_type = t;
          amount = pos 0 -ℤ pos pricing.cost;
          description = spent_on activity;
          reference_id = reference;
          created_at = now;
        }
          ∷ [];
  }
  get_wallet user

unfoldable pub spend : ℕ → ℕ → ℕ → TokenType → Option ℕ → Action Error Store WalletView
unfolding spend_check spend_commit
spend now user activity t reference = do
  checked ← spend_check user activity t
  spend_commit now user activity t reference checked.0 checked.1

-- The unique index of `tokenAllocation`: wallet, activity and type.
is_budget : ℕ → ℕ → TokenType → Allocation → Bool
is_budget wallet activity t a =
    a.wallet_id == wallet && a.activity_type == activity && same_type a.token_type t

set_budget : ℕ → ℕ → TokenType → ℕ → List Allocation → List Allocation
unfolding is_budget
set_budget wallet activity t amount rows =
    if any (is_budget wallet activity t) rows
    then map
        (λ a. if is_budget wallet activity t a then record a { allocated_amount = amount } else a)
        rows
    else rows
      ++ record {
        wallet_id = wallet;
        activity_type = activity;
        token_type = t;
        allocated_amount = amount;
      }
        ∷ []

unfoldable pub allocate : ℕ → ℕ → TokenType → ℕ → Action Error Store WalletView
unfolding set_budget get_wallet
allocate user activity t amount = do
  found ← gets λ s. find user s.wallets
  wallet ← or_throw found (insufficient_tokens t amount (pos 0))
  let balance = balance_of t wallet
  throw_if (ltb_ℤ balance (pos amount)) (insufficient_tokens t amount balance)
  modify λ s. record s { allocations = set_budget wallet.id activity t amount s.allocations }
  get_wallet user

unfoldable pub list_activity_pricing :
    (List Pricing → List Pricing) → Action Error Store (List Pricing)
list_activity_pricing by_activity s =
    gets (λ s. by_activity (keep_if (λ p. p.is_active) s.pricing)) s

unfoldable pub set_activity_pricing : ℕ → ℕ → ℕ → Text → Bool → Action Error Store (Option Pricing)
set_activity_pricing now activity cost description active = do
  modify λ s. record s {
    pricing =
        if is_some (find activity s.pricing)
        then update activity
            (λ p. record p {
              cost = cost;
              description = description;
              is_active = active;
              updated_at = now;
            })
            s.pricing
        else s.pricing
          ++ record {
            activity_type = activity;
            cost = cost;
            description = description;
            is_active = active;
            updated_at = now;
          }
            ∷ [];
  }
  gets λ s. find activity s.pricing
