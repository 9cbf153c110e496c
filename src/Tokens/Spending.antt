-- ===== src/Tokens/Spending.antt =====
-- `TokensService.spend` and `allocate`: when they go through, and what they then change.
use mathlib.Core.List.{reverse, reverse_aux-append}
use madinaty_ai_core_mesh.Base.{
  ℕ, ◌≡◌, ◌≢◌, ◌⊎◌, inl, inr, refl, ap, ◌∙◌, true, Option, some, List, [], ◌∷◌, ◌++◌, arith, ◌==◌,
  keep_if, take, if◌then◌else◌, Option-cases, Bool-cases,
}
use madinaty_ai_core_mesh.Base.Int.{
  ℤ, ltb_ℤ, pos, ◌+ℤ◌, ◌-ℤ◌, ◌≤ℤ◌, +ℤ_parts, -ℤ_parts, eq_of_parts,
}
use madinaty_ai_core_mesh.Base.Action.{Result, ok, err, IsAtomic}
use madinaty_ai_core_mesh.Base.Table.{find, find-update_self, find-update_ne, KeepsKey}
use madinaty_ai_core_mesh.Tokens.{
  TokenType, Wallet, Transaction, Pricing, Store, Error, WalletView, wallet_keyed, pricing_keyed,
  is_business, spent_on, balance_of, set_balance, insufficient_tokens, invalid_activity, spend,
  allocate, get_wallet, view_of,
}
use madinaty_ai_core_mesh.Tokens.History.{entry_of, pay}

-- What `spend` does to a wallet.
abbrev debit : TokenType → ℕ → Wallet → Wallet
debit t cost = set_balance t (λ b. b -ℤ pos cost)

debit_keeps : (t : TokenType) (cost : ℕ) → KeepsKey (debit t cost)
debit_keeps t cost w = ground arith

-- A spend that throws, for whatever reason, has changed no table.
pub spend-IsAtomic :
    (now user activity : ℕ) (t : TokenType) (reference : Option ℕ) (s : Store)
    → IsAtomic s (spend now user activity t reference s)
unfolding spend
spend-IsAtomic now user activity t reference s = ground arith

-- An allocation that throws has changed no table.
pub allocate-IsAtomic :
    (user activity : ℕ) (t : TokenType) (amount : ℕ) (s : Store)
    → IsAtomic s (allocate user activity t amount s)
unfolding allocate
allocate-IsAtomic user activity t amount s = ground arith

-- The activity has an active price and the user a wallet whose balance of the type covers it.
pub record IsCovered (user activity : ℕ) (t : TokenType) (s : Store) : Type 0 where
  pub price : Pricing
  pub wallet : Wallet
  pub priced : find activity s.pricing ≡ some price
  pub active : price.is_active ≡ true
  pub found : find user s.wallets ≡ some wallet
  pub enough : pos price.cost ≤ℤ balance_of t wallet

-- The balance of the other type.
abbrev pub other_balance : TokenType → Wallet → ℤ
other_balance t w = if is_business t then w.individual_tokens else w.business_tokens

-- What a spend that was made returned and left, as seen by a third user.
pub record IsPaid (now user activity third : ℕ) (t : TokenType) (reference : Option ℕ) (s : Store)
    (cost : ℕ) (before : Wallet) (x : Result Error WalletView × Store) : Type 0 where
  pub view : WalletView
  pub wallet : Wallet
  pub entry : Transaction
  pub returned : x.0 ≡ ok view
  pub kept : find user x.1.wallets ≡ some wallet
  pub owner : (wallet.id ≡ before.id) × (wallet.user_id ≡ before.user_id)
  pub charged : balance_of t wallet +ℤ pos cost ≡ balance_of t before
  pub spared : other_balance t wallet ≡ other_balance t before
  pub logged : x.1.transactions ≡ s.transactions ++ entry ∷ []
  pub entry_wallet : (entry.wallet_id ≡ before.id) × (entry.created_at ≡ now)
  pub entry_activity : (entry.activity_type ≡ activity) × (entry.reference_id ≡ reference)
  pub entry_amount : (entry.token_type ≡ t) × (entry.amount +ℤ pos cost ≡ pos 0)
  pub shown_user : view.user_id ≡ before.user_id
  pub shown_business : view.business_tokens ≡ wallet.business_tokens
  pub shown_individual : view.individual_tokens ≡ wallet.individual_tokens
  pub shown_recent :
      view.recent_transactions
      ≡ entry ∷ take 9 (reverse (keep_if (λ e. e.wallet_id == before.id) s.transactions))
  pub shown_budgets : view.allocations ≡ keep_if (λ a. a.wallet_id == before.id) s.allocations
  pub others : find third x.1.wallets ≡ find third s.wallets
  pub rest : (x.1.allocations ≡ s.allocations) × (x.1.pricing ≡ s.pricing)

keep_if-last :
    (id : ℕ) (es : List Transaction) (e : Transaction)
    → e.wallet_id ≡ id
    → keep_if (λ x. x.wallet_id == id) (es ++ e ∷ [])
      ≡ keep_if (λ x. x.wallet_id == id) es ++ e ∷ []
keep_if-last id [] e h = ground (arith, h)
keep_if-last id (x ∷ es) e h = ground (arith, keep_if-last id es e h)

newest_first : (es : List Transaction) (e : Transaction) → reverse (es ++ e ∷ []) ≡ e ∷ reverse es
newest_first es e = reverse_aux-append es (e ∷ []) []

recent :
    (id : ℕ) (es : List Transaction) (e : Transaction)
    → e.wallet_id ≡ id
    → take 10 (reverse (keep_if (λ x. x.wallet_id == id) (es ++ e ∷ [])))
      ≡ e ∷ take 9 (reverse (keep_if (λ x. x.wallet_id == id) es))
recent id es e h =
    ap (λ xs. take 10 (reverse xs)) (keep_if-last id es e h)
    ∙ ap (take 10) (newest_first (keep_if (λ x. x.wallet_id == id) es) e)

debit-balance :
    (t : TokenType) (cost : ℕ) (w : Wallet)
    → balance_of t (debit t cost w) ≡ balance_of t w -ℤ pos cost
debit-balance t cost w = ground arith

debit_charges :
    (t : TokenType) (cost : ℕ) (w : Wallet)
    → balance_of t (debit t cost w) +ℤ pos cost ≡ balance_of t w
debit_charges t cost w =
    ap (λ b. b +ℤ pos cost) (debit-balance t cost w)
    ∙ eq_of_parts ((balance_of t w -ℤ pos cost) +ℤ pos cost) (balance_of t w) (
        omega (
          arith,
          +ℤ_parts (balance_of t w -ℤ pos cost) (pos cost),
          -ℤ_parts (balance_of t w) (pos cost),
        ))

debit_spares :
    (t : TokenType) (cost : ℕ) (w : Wallet) → other_balance t (debit t cost w) ≡ other_balance t w
debit_spares t cost w = ground arith

debit_id : (t : TokenType) (cost : ℕ) (w : Wallet) → (debit t cost w).id ≡ w.id
debit_id t cost w = ground arith

negated : (cost : ℕ) → (pos 0 -ℤ pos cost) +ℤ pos cost ≡ pos 0
negated cost =
    eq_of_parts ((pos 0 -ℤ pos cost) +ℤ pos cost) (pos 0)
      (omega (arith, -ℤ_parts (pos 0) (pos cost), +ℤ_parts (pos 0 -ℤ pos cost) (pos cost)))

spend-IsPaid :
    (now user activity third : ℕ) (t : TokenType) (reference : Option ℕ) (s : Store)
    → third ≢ user
    → (c : IsCovered user activity t s)
    → IsPaid now user activity third t reference s c.price.cost c.wallet
        (spend now user activity t reference s)
unfolding spend get_wallet view_of
spend-IsPaid now user activity third t reference s ne c = record {
  view = view_of after user (some paid);
  wallet = paid;
  entry = entry;
  returned = ground (arith, c.priced, c.active, c.found, c.enough, kept);
  kept = ground (arith, c.priced, c.active, c.found, c.enough, kept);
  owner = (ground arith, ground arith);
  charged = debit_charges t c.price.cost c.wallet;
  spared = debit_spares t c.price.cost c.wallet;
  logged = ground (arith, c.priced, c.active, c.found, c.enough);
  entry_wallet = (refl, refl);
  entry_activity = (refl, refl);
  entry_amount = (refl, negated c.price.cost);
  shown_user = ground arith;
  shown_business = refl;
  shown_individual = refl;
  shown_recent =
      ap (λ i. take 10 (reverse (keep_if (λ e. e.wallet_id == i) after.transactions)))
        (debit_id t c.price.cost c.wallet)
      ∙ recent c.wallet.id s.transactions entry refl;
  shown_budgets =
      ap (λ i. keep_if (λ a. a.wallet_id == i) s.allocations) (debit_id t c.price.cost c.wallet);
  others = ground (
    arith,
    c.priced,
    c.active,
    c.found,
    c.enough,
    find-update_ne user third (debit t c.price.cost) s.wallets (debit_keeps t c.price.cost),
  );
  rest = (
    ground (arith, c.priced, c.active, c.found, c.enough),
    ground (arith, c.priced, c.active, c.found, c.enough),
  );
}
  where
    paid : Wallet
    paid = debit t c.price.cost c.wallet

    entry : Transaction
    entry =
        entry_of c.wallet.id activity t (pos 0 -ℤ pos c.price.cost) (spent_on activity) reference
          now

    after : Store
    after = pay user t (λ b. b -ℤ pos c.price.cost) entry s

    kept : find user after.wallets ≡ some paid
    kept =
        find-update_self user (debit t c.price.cost) s.wallets c.wallet (debit_keeps t c.price.cost)
          c.found

is_covered :
    (user activity : ℕ) (t : TokenType) (s : Store)
    → IsCovered user activity t s ⊎ ¬ IsCovered user activity t s
is_covered user activity t s = elim (Option-cases (find activity s.pricing)) [
  | inl a ↦ inr (λ c. ground (arith, c.priced))
  | inr (p, a) ↦ elim (Bool-cases p.is_active) [
    | inr off ↦ inr (λ c. ground (arith, c.priced, c.active))
    | inl on ↦ elim (Option-cases (find user s.wallets)) [
      | inl b ↦ inr (λ c. ground (arith, c.found))
      | inr (w, b) ↦ elim (Bool-cases (ltb_ℤ (balance_of t w) (pos p.cost))) [
        | inl short ↦ inr (λ c. ground (arith, c.priced, c.found, c.enough))
        | inr enough ↦ inl (record {
          price = p;
          wallet = w;
          priced = a;
          active = on;
          found = b;
          enough = ground arith;
        })
      ]
    ]
  ]
]

spend_refused :
    (now user activity : ℕ) (t : TokenType) (reference : Option ℕ) (s : Store)
    → ¬ IsCovered user activity t s
    → (e : Error) × (spend now user activity t reference s ≡ (err e, s))
unfolding spend
spend_refused now user activity t reference s bare = elim (Option-cases (find activity s.pricing)) [
  | inl a ↦ (invalid_activity activity, ground arith)
  | inr (p, a) ↦ elim (Bool-cases p.is_active) [
    | inr off ↦ (invalid_activity activity, ground arith)
    | inl on ↦ elim (Option-cases (find user s.wallets)) [
      | inl b ↦ (insufficient_tokens t p.cost (pos 0), ground arith)
      | inr (w, b) ↦
          (insufficient_tokens t p.cost (balance_of t w), ground (arith, short p w a on b))
    ]
  ]
]
  where
    short :
        (p : Pricing) (w : Wallet)
        → find activity s.pricing ≡ some p
        → p.is_active ≡ true
        → find user s.wallets ≡ some w
        → ¬ (pos p.cost ≤ℤ balance_of t w)
    short p w a on b enough =
        bare (record { price = p; wallet = w; priced = a; active = on; found = b; enough = enough })

-- A spend answers in one of two ways. Where the activity has an active price and the user a wallet
-- that covers it, the spend returns the wallet's new view, with its balances, its budgets and with
-- the new transaction first among at most ten recent ones of the wallet; it takes the price from
-- the balance of that type and nothing from the other, logs one transaction of that price below
-- zero, and leaves the wallets of other users, the budgets and the prices alone. In every other
-- case it throws and changes nothing.
pub spend_pays :
    (now user activity third : ℕ) (t : TokenType) (reference : Option ℕ) (s : Store)
    → third ≢ user
    → ((c : IsCovered user activity t s) × IsPaid now user activity third t reference s c.price.cost
          c.wallet
          (spend now user activity t reference s))
      ⊎ (¬ IsCovered user activity t s
          × ((e : Error) × (spend now user activity t reference s ≡ (err e, s))))
spend_pays now user activity third t reference s ne = elim (is_covered user activity t s) [
  | inl c ↦ inl (c, spend-IsPaid now user activity third t reference s ne c)
  | inr bare ↦ inr (bare, spend_refused now user activity t reference s bare)
]
