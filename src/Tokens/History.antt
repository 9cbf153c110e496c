-- ===== src/Tokens/History.antt =====
-- Histories of calls on the token wallet, one at a time, and what each call can do.
use madinaty_ai_core_mesh.Base.{
  ℕ, ◌≡◌, inl, inr, Bool, List, [], ◌∷◌, ◌++◌, Option, none, some, arith, Option-cases,
  if◌then◌else◌,
}
use madinaty_ai_core_mesh.Base.Int.{ℤ, pos, ◌+ℤ◌, ◌-ℤ◌, ◌≤ℤ◌}
use madinaty_ai_core_mesh.Base.Text.{Text}
use madinaty_ai_core_mesh.Base.Table.{find, find-update_self, KeepsKey, update, find-append_none}
use madinaty_ai_core_mesh.Tokens.{
  TokenType, Description, is_business, Wallet, Transaction, Pricing, Store, spent_on,
  credit_activity, describe_credit, is_individual, wallet_keyed, pricing_keyed, balance_of,
  set_balance, credit, spend, allocate, set_activity_pricing,
}

-- Every call of the service that writes.
pub data Call : Type 0 where
  credits : ℕ → ℕ → ℕ → TokenType → Option Text → Call
  spends : ℕ → ℕ → TokenType → Option ℕ → Call
  allocates : ℕ → ℕ → TokenType → ℕ → Call
  prices : ℕ → ℕ → Text → Bool → Call

-- A call at a time, with the amounts that the DTOs admit: whole numbers that are not negative.
unfoldable pub step : Store → ℕ × Call → Store
step s (now, credits fresh user amount t reason) = (credit fresh now user (pos amount) t reason s).1
step s (now, spends user activity t reference) = (spend now user activity t reference s).1
step s (now, allocates user activity t amount) = (allocate user activity t amount s).1
step s (now, prices activity cost description active) =
    (set_activity_pricing now activity cost description active s).1

unfoldable pub run : Store → List (ℕ × Call) → Store
run s [] = s
run s (c ∷ cs) = run (step s c) cs

abbrev pub empty_store : Store
empty_store = record { wallets = []; transactions = []; allocations = []; pricing = [] }

abbrev pub entry_of : ℕ → ℕ → TokenType → ℤ → Description → Option ℕ → ℕ → Transaction
entry_of wallet activity t x description reference now = record {
  wallet_id = wallet;
  activity_type = activity;
  token_type = t;
  amount = x;
  description = description;
  reference_id = reference;
  created_at = now;
}

abbrev pub pay : ℕ → TokenType → (ℤ → ℤ) → Transaction → Store → Store
pay user u g x s = record s {
  wallets = update user (set_balance u g) s.wallets;
  transactions = s.transactions ++ x ∷ [];
}

pub spend_cases :
    (P : Store → Type 0) (now user activity : ℕ) (t : TokenType) (reference : Option ℕ) (s : Store)
    → P s
    → ((p : Pricing) (w : Wallet)
        → find user s.wallets ≡ some w
        → pos p.cost ≤ℤ balance_of t w
        → P (
            pay user t
              (λ b. b -ℤ pos p.cost)
              (entry_of w.id activity t (pos 0 -ℤ pos p.cost) (spent_on activity) reference now)
              s))
    → P (spend now user activity t reference s).1
unfolding spend
spend_cases P now user activity t reference s refused paid =
    elim (Option-cases (find activity s.pricing)) [
      | inl a ↦ ground arith
      | inr (p, a) ↦ elim (Option-cases (find user s.wallets)) [
        | inl b ↦ ground arith
        | inr (w, b) ↦ ground (arith, paid p w b)
      ]
    ]

unfoldable pub credit_new : ℕ → ℕ → ℤ → TokenType → Wallet
credit_new fresh user amount t = record {
  id = fresh;
  user_id = user;
  business_tokens = if is_business t then amount else pos 0;
  individual_tokens = if is_individual t then amount else pos 0;
}

credit_keeps : (t : TokenType) (amount : ℤ) → KeepsKey (set_balance t (λ b. b +ℤ amount))
credit_keeps t amount w = ground arith

pub credit_cases :
    (P : Store → Type 0) (fresh now user : ℕ) (amount : ℤ) (t : TokenType) (reason : Option Text)
    (s : Store)
    → ((w : Wallet)
        → find user s.wallets ≡ some w
        → P (
            pay user t
              (λ b. b +ℤ amount)
              (entry_of w.id credit_activity t amount (describe_credit reason amount t) none now)
              s))
    → (find user s.wallets ≡ none
        → P (record s {
          wallets = s.wallets ++ credit_new fresh user amount t ∷ [];
          transactions =
              s.transactions
              ++ entry_of fresh credit_activity t amount (describe_credit reason amount t) none now
                ∷ [];
        }))
    → P (credit fresh now user amount t reason s).1
unfolding credit credit_new find
credit_cases P fresh now user amount t reason s old new =
    elim (Option-cases (find user s.wallets)) [
      | inl e ↦
          ground
            (arith, find-append_none user s.wallets (credit_new fresh user amount t ∷ []) e, new e)
      | inr (w, e) ↦ ground (
        arith,
        find-update_self user (set_balance t (λ b. b +ℤ amount)) s.wallets w
            (credit_keeps t amount),
        old w e,
      )
    ]
