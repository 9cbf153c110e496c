-- ===== src/Tokens/Tests.antt =====
-- The token wallet on a small store.
use madinaty_ai_core_mesh.Base.{ℕ, ◌≡◌, ◌⊎◌, refl, inr, arith, true, List, [], ◌∷◌, none, some, All}
use madinaty_ai_core_mesh.Base.Int.{pos, ◌≤ℤ◌}
use madinaty_ai_core_mesh.Base.Text.{codes}
use madinaty_ai_core_mesh.Base.Action.{err}
use madinaty_ai_core_mesh.Base.Table.{find}
use madinaty_ai_core_mesh.Tokens.{
  Wallet, Pricing, Store, Error, individual, wallet_keyed, pricing_keyed, balance_of, spend,
  spend_check, spend_commit,
}
use madinaty_ai_core_mesh.Tokens.History.{Call, credits, spends, prices, run, empty_store}
use madinaty_ai_core_mesh.Tokens.Ledger.{IsBalanced, run-IsBalanced}
use madinaty_ai_core_mesh.Tokens.Overdraft.{IsNonneg, run-AreNonneg, spend_race}
use madinaty_ai_core_mesh.Tokens.Spending.{IsCovered, IsPaid, spend_pays}

abbrev wallet : Wallet
wallet = record { id = 50; user_id = 2; business_tokens = pos 0; individual_tokens = pos 7 }

abbrev price : ℕ → Pricing
price cost = record {
  activity_type = 1;
  cost = cost;
  description = codes "hold";
  is_active = true;
  updated_at = 0;
}

abbrev store : ℕ → Store
store cost = record {
  wallets = wallet ∷ [];
  transactions = [];
  allocations = [];
  pricing = price cost ∷ [];
}

abbrev calls : List (ℕ × Call)
calls =
    (10, prices 1 5 (codes "hold") true)
    ∷ (20, credits 50 2 7 individual none)
    ∷ (30, spends 2 1 individual none)
    ∷ (40, spends 2 1 individual none)
    ∷ []

run-IsBalanced_example : IsBalanced (run empty_store calls)
run-IsBalanced_example = run-IsBalanced calls (tt, (inr refl, (inr refl, (inr refl, tt))))

run-AreNonneg_example : All IsNonneg (run empty_store calls).wallets
run-AreNonneg_example = run-AreNonneg empty_store calls tt

spend_race_example :
    let s₁ = (spend_commit 10 2 1 individual none (price 5) wallet (store 5)).1 in
    let s₂ = (spend_commit 11 2 1 individual none (price 5) wallet s₁).1 in
    (v : Wallet) × (find 2 s₂.wallets ≡ some v) × ¬ (pos 0 ≤ℤ balance_of individual v)
unfolding spend_check find
spend_race_example =
    spend_race 10 11 2 1 individual none none (store 5) (price 5) wallet refl (λ h. omega arith)

spend_pays_example :
    ((c : IsCovered 2 1 individual (store 5)) × IsPaid 10 2 1 3 individual none
        (store 5)
        c.price.cost
        c.wallet
        (spend 10 2 1 individual none (store 5)))
    ⊎ (¬ IsCovered 2 1 individual (store 5)
        × ((e : Error) × (spend 10 2 1 individual none (store 5) ≡ (err e, store 5))))
spend_pays_example = spend_pays 10 2 1 3 individual none (store 5) (λ h. ground arith)
