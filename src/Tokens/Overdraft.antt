-- ===== src/Tokens/Overdraft.antt =====
-- No overdraft when calls are served one at a time, and the overdraft of two calls that interleave.
use madinaty_ai_core_mesh.Base.{
  ℕ, ◌+◌, ◌≡◌, subst, List, [], ◌∷◌, Option, some, arith, All, All-concat,
}
use madinaty_ai_core_mesh.Base.Int.{pos, ◌+ℤ◌, ◌-ℤ◌, ◌≤ℤ◌, int_laws}
use madinaty_ai_core_mesh.Base.Action.{ok}
use madinaty_ai_core_mesh.Base.Table.{find, find-update_self, KeepsKey, All-update}
use madinaty_ai_core_mesh.Tokens.{
  TokenType, business, individual, Wallet, Pricing, Store, wallet_keyed, pricing_keyed, balance_of,
  set_balance, spend_check, spend_commit, allocate, set_activity_pricing,
}
use madinaty_ai_core_mesh.Tokens.History.{
  Call, credits, spends, allocates, prices, step, run, credit_new, spend_cases, credit_cases,
}

abbrev pub IsNonneg : Wallet → Type 0
IsNonneg w = (pos 0 ≤ℤ w.business_tokens) × (pos 0 ≤ℤ w.individual_tokens)

abbrev AreNonneg : Store → Type 0
AreNonneg s = All IsNonneg s.wallets

credited-IsNonneg :
    (t : TokenType) (amount : ℕ) (w : Wallet)
    → IsNonneg w
    → IsNonneg (set_balance t (λ b. b +ℤ pos amount) w)
credited-IsNonneg business amount w h = omega int_laws
credited-IsNonneg t amount w h = omega int_laws

spent-IsNonneg :
    (t : TokenType) (cost : ℕ) (w : Wallet)
    → IsNonneg w
    → pos cost ≤ℤ balance_of t w
    → IsNonneg (set_balance t (λ b. b -ℤ pos cost) w)
spent-IsNonneg business cost w h c = omega int_laws
spent-IsNonneg t cost w h c = omega int_laws

new-IsNonneg :
    (fresh user amount : ℕ) (t : TokenType) → IsNonneg (credit_new fresh user (pos amount) t)
unfolding credit_new
new-IsNonneg fresh user amount t = ground arith

step-AreNonneg : (s : Store) (c : ℕ × Call) → AreNonneg s → AreNonneg (step s c)
unfolding step allocate set_activity_pricing
step-AreNonneg s (now, credits fresh user amount t reason) v =
    credit_cases AreNonneg fresh now user (pos amount) t reason s
      (λ w e. All-update IsNonneg user _ s.wallets (λ r _ h. credited-IsNonneg t amount r h) v)
      (λ e. All-concat IsNonneg s.wallets v (new-IsNonneg fresh user amount t))
step-AreNonneg s (now, spends user activity t reference) v =
    spend_cases AreNonneg now user activity t reference s v (λ p w e cover.
      All-update IsNonneg user _ s.wallets
        (λ r er h.
          spent-IsNonneg t p.cost r h
            (subst (λ x. pos p.cost ≤ℤ balance_of t x) {x = w} {y = r} (ground arith) cover))
        v)
step-AreNonneg s (now, allocates user activity t amount) v = ground arith
step-AreNonneg s (now, prices activity cost description active) v = ground arith

-- From wallets without a negative balance, no history of calls that are served one at a time leads
-- to a wallet with one, whatever types, prices and amounts it names.
pub run-AreNonneg :
    (s : Store) (cs : List (ℕ × Call)) → All IsNonneg s.wallets → All IsNonneg (run s cs).wallets
unfolding run
run-AreNonneg s [] v = v
run-AreNonneg s (c ∷ cs) v = run-AreNonneg (step s c) cs (step-AreNonneg s c v)

debit_keeps : (t : TokenType) (cost : ℕ) → KeepsKey (set_balance t (λ b. b -ℤ pos cost))
debit_keeps t cost w = ground arith

twice_short :
    (t : TokenType) (cost : ℕ) (w : Wallet)
    → ¬ (pos (cost + cost) ≤ℤ balance_of t w)
    → ¬ (
        pos 0
        ≤ℤ balance_of t (set_balance t (λ b. b -ℤ pos cost) (set_balance t (λ b. b -ℤ pos cost) w)))
twice_short business cost w h k = omega int_laws
twice_short individual cost w h k = omega int_laws
twice_short (TokenType.other n) cost w h k = omega int_laws

checked_wallet :
    (user activity : ℕ) (t : TokenType) (s : Store) (p : Pricing) (w : Wallet)
    → spend_check user activity t s ≡ (ok (p, w), s)
    → find user s.wallets ≡ some w
unfolding spend_check
checked_wallet user activity t s p w e = ground arith

-- Two spends whose checks both read the wallet before either of them writes, each covered by the
-- balance and the two together not, leave the balance below zero.
pub spend_race :
    (now later user activity : ℕ) (t : TokenType) (a b : Option ℕ) (s : Store) (p : Pricing)
    (w : Wallet)
    → spend_check user activity t s ≡ (ok (p, w), s)
    → ¬ (pos (p.cost + p.cost) ≤ℤ balance_of t w)
    → let s₁ = (spend_commit now user activity t a p w s).1 in
      let s₂ = (spend_commit later user activity t b p w s₁).1 in
      (v : Wallet) × (find user s₂.wallets ≡ some v) × ¬ (pos 0 ≤ℤ balance_of t v)
unfolding spend_commit
spend_race now later user activity t a b s p w e short = (
  set_balance t (λ b. b -ℤ pos p.cost) (set_balance t (λ b. b -ℤ pos p.cost) w),
  find-update_self user _ _ _ (debit_keeps t p.cost) (
      find-update_self user _ s.wallets w (debit_keeps t p.cost)
        (checked_wallet user activity t s p w e)),
  twice_short t p.cost w short,
)
