-- ===== src/Tokens/Ledger.antt =====
-- The wallet balances against the transaction log: both move together.
use madinaty_ai_core_mesh.Base.{
  ℕ, ◌≡◌, refl, ◌⊎◌, inl, inr, List, [], ◌∷◌, ◌++◌, Option, none, some, arith, All, if◌then◌else◌,
}
use madinaty_ai_core_mesh.Base.Int.{ℤ, pos, ◌+ℤ◌, ◌-ℤ◌, int_laws}
use madinaty_ai_core_mesh.Base.Text.{Text}
use madinaty_ai_core_mesh.Base.Table.{find, update}
use madinaty_ai_core_mesh.Tokens.{
  TokenType, business, individual, Description, same_type, Wallet, Transaction, Store,
  credit_activity, describe_credit, wallet_keyed, pricing_keyed, balance_of, set_balance, allocate,
  set_activity_pricing,
}
use madinaty_ai_core_mesh.Tokens.History.{
  Call, credits, spends, allocates, prices, step, run, empty_store, entry_of, pay, credit_new,
  spend_cases, credit_cases,
}

-- The type is one of the two that the parameter's TypeScript type names.
abbrev pub IsKnown : TokenType → Type 0
IsKnown t = (t ≡ business) ⊎ (t ≡ individual)

abbrev pub CallIsKnown : ℕ × Call → Type 0
CallIsKnown (_, credits _ _ _ t _) = IsKnown t
CallIsKnown (_, spends _ _ t _) = IsKnown t
CallIsKnown (_, _) = Unit {0}

-- The balances of one type, over all wallets.
abbrev pub held : TokenType → List Wallet → ℤ
held t [] = pos 0
held t (w ∷ ws) = balance_of t w +ℤ held t ws

-- The amounts logged for one type.
abbrev pub logged : TokenType → List Transaction → ℤ
logged t [] = pos 0
logged t (x ∷ xs) = (if same_type x.token_type t then x.amount else pos 0) +ℤ logged t xs

held-update :
    (t : TokenType) (user : ℕ) (f : Wallet → Wallet) (ws : List Wallet) (w : Wallet)
    → find user ws ≡ some w
    → held t (update user f ws) +ℤ balance_of t w ≡ held t ws +ℤ balance_of t (f w)
unfolding find update
held-update t user f [] w e = cc
held-update t user f (x ∷ ws) w e = grind (int_laws, held-update t user f ws w)

held-append :
    (t : TokenType) (ws : List Wallet) (w : Wallet)
    → held t (ws ++ w ∷ []) ≡ held t ws +ℤ balance_of t w
held-append t [] w = omega int_laws
held-append t (x ∷ ws) w = rw (held-append t ws w) (omega int_laws)

logged-append :
    (t : TokenType) (xs : List Transaction) (x : Transaction)
    → logged t (xs ++ x ∷ [])
      ≡ logged t xs +ℤ (if same_type x.token_type t then x.amount else pos 0)
logged-append t [] x = omega int_laws
logged-append t (y ∷ xs) x = rw (logged-append t xs x) (omega int_laws)

-- A balance and the log that move by the same amount stay in step.
moved :
    (t u : TokenType) (g : ℤ → ℤ) (w : Wallet) (x held_before logged_before held_after : ℤ)
    → IsKnown t
    → IsKnown u
    → ((b : ℤ) → g b ≡ b +ℤ x)
    → held_before ≡ logged_before
    → held_after +ℤ balance_of t w ≡ held_before +ℤ balance_of t (set_balance u g w)
    → held_after ≡ logged_before +ℤ (if same_type u t then x else pos 0)
moved business business g w x hb lb ha kt ku eg e m = grind (int_laws, eg w.business_tokens)
moved business individual g w x hb lb ha kt ku eg e m = grind int_laws
moved individual business g w x hb lb ha kt ku eg e m = grind int_laws
moved individual individual g w x hb lb ha kt ku eg e m = grind (int_laws, eg w.individual_tokens)
moved business (TokenType.other n) g w x hb lb ha kt ku eg e m = ground arith
moved individual (TokenType.other n) g w x hb lb ha kt ku eg e m = ground arith
moved (TokenType.other n) u g w x hb lb ha kt ku eg e m = ground arith

-- For each of the two types the balances add up to what the log says.
abbrev pub IsBalanced : Store → Type 0
IsBalanced s =
    (held business s.wallets ≡ logged business s.transactions)
    × (held individual s.wallets ≡ logged individual s.transactions)

minus_cost : (cost : ℕ) (b : ℤ) → b -ℤ pos cost ≡ b +ℤ (pos 0 -ℤ pos cost)
minus_cost cost b = omega int_laws

module _ (user wallet activity now : ℕ) (u : TokenType) (known : IsKnown u) (g : ℤ → ℤ) (x : ℤ)
    (eg : (b : ℤ) → g b ≡ b +ℤ x) (description : Description) (reference : Option ℕ) (s : Store)
    (v : IsBalanced s) where
  abbrev entry : Transaction
  entry = entry_of wallet activity u x description reference now

  pay_type :
      (t : TokenType) (w : Wallet)
      → IsKnown t
      → find user s.wallets ≡ some w
      → held t s.wallets ≡ logged t s.transactions
      → held t (pay user u g entry s).wallets ≡ logged t (pay user u g entry s).transactions
  pay_type t w kt e b =
      rw (logged-append t s.transactions)
        (moved t u g w x _ _ _ kt known eg b (held-update t user (set_balance u g) s.wallets w e))

  pay-IsBalanced : (w : Wallet) → find user s.wallets ≡ some w → IsBalanced (pay user u g entry s)
  pay-IsBalanced w e =
      (pay_type business w (inl refl) e v.0, pay_type individual w (inr refl) e v.1)

new_type :
    (fresh now user : ℕ) (amount : ℤ) (t u : TokenType) (reason : Option Text) (s : Store)
    → IsKnown t
    → IsKnown u
    → held t s.wallets ≡ logged t s.transactions
    → held t (s.wallets ++ credit_new fresh user amount u ∷ [])
      ≡ logged t (
          s.transactions
          ++ entry_of fresh credit_activity u amount (describe_credit reason amount u) none now
            ∷ [])
unfolding credit_new
new_type fresh now user amount t u reason s kt ku v =
    rw (logged-append t s.transactions, held-append t s.wallets (credit_new fresh user amount u), v)
      (ground arith)

-- A call keeps the balances of both types in step with the log, whether it goes through or throws.
step-IsBalanced : (s : Store) (c : ℕ × Call) → CallIsKnown c → IsBalanced s → IsBalanced (step s c)
unfolding step allocate set_activity_pricing
step-IsBalanced s (now, credits fresh user amount t reason) k v =
    credit_cases IsBalanced fresh now user (pos amount) t reason s
      (λ w e. pay-IsBalanced user w.id credit_activity now t k _ _ (λ b. refl) _ none s v w e)
      (λ e. (
        new_type fresh now user (pos amount) business t reason s (inl refl) k v.0,
        new_type fresh now user (pos amount) individual t reason s (inr refl) k v.1,
      ))
step-IsBalanced s (now, spends user activity t reference) k v =
    spend_cases IsBalanced now user activity t reference s v (λ p w e cover.
      pay-IsBalanced user w.id activity now t k _ _ (minus_cost p.cost) _ reference s v w e)
step-IsBalanced s (now, allocates user activity t amount) k v = ground arith
step-IsBalanced s (now, prices activity cost description active) k v = ground arith

run_from-IsBalanced :
    (s : Store) (cs : List (ℕ × Call)) → All CallIsKnown cs → IsBalanced s → IsBalanced (run s cs)
unfolding run
run_from-IsBalanced s [] k v = v
run_from-IsBalanced s (c ∷ cs) (k, ks) v =
    run_from-IsBalanced (step s c) cs ks (step-IsBalanced s c k v)

-- Whatever calls the wallets have served since they were empty, if each names one of the two types,
-- the balances of each type add up to exactly the amounts logged for it.
pub run-IsBalanced : (cs : List (ℕ × Call)) → All CallIsKnown cs → IsBalanced (run empty_store cs)
run-IsBalanced cs k = run_from-IsBalanced empty_store cs k (refl, refl)
