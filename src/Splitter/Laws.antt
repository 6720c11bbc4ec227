-- ===== src/Splitter/Laws.antt =====
-- contracts/fee_splitter/src/contract.rs: no more is sent than there is.
use native.Mathlib.Nat.{div-mul-le_self}
use whelp_contracts.Prelude.{
  Bool, true, false, subst, str_eq_iff, ℕ, suc, String, ◌+◌, ◌*◌, ◌/◌, ◌≤◌, ◌≡◌, refl, some, List,
  [], ◌∷◌, ◌++◌, str_eq, arith, if◌then◌else◌,
}
use whelp_contracts.Outcome.{ok, >>=-eq-ok, Post, Post-ok, map_err, traverse}
use whelp_contracts.Num.{Decimals, one, u128_max, mul_decimal}
use whelp_contracts.Dex.Asset.{
  Api, Coin, Msg, bank_send, cw20_transfer, cw20_transfer_from, mint, burn, validate_address,
}
use whelp_contracts.Dex.Querier.{Querier}
use whelp_contracts.Splitter.{
  std, Config, sum_weights, instantiate, push_coin, split, token_messages, native_message, payouts,
  query_coins, execute_send_tokens,
}

-- The sum of a denom's amounts.
abbrev pub amount_of : String → List Coin → ℕ
amount_of d [] = 0
amount_of d (c ∷ coins) =
    let rest = amount_of d coins in if str_eq c.denom d then c.amount + rest else rest

-- What a list of messages sends of a denom.
abbrev pub sent : String → List Msg → ℕ
sent d [] = 0
sent d (bank_send to coins ∷ l) = amount_of d coins + sent d l
sent d (cw20_transfer a b n ∷ l) = sent d l
sent d (cw20_transfer_from a b c n ∷ l) = sent d l
sent d (mint c ∷ l) = sent d l
sent d (burn c ∷ l) = sent d l

abbrev pub count : String → List String → ℕ
count d [] = 0
count d (e ∷ denoms) = let rest = count d denoms in if str_eq e d then suc rest else rest

abbrev weights : List (String × ℕ) → ℕ
weights [] = 0
weights ((address, weight) ∷ addresses) = weight + weights addresses

sent-append : (d : String) (l m : List Msg) → sent d (l ++ m) ≡ sent d l + sent d m
sent-append d [] m = omega arith
sent-append d (bank_send to coins ∷ l) m = omega (arith, sent-append d l m)
sent-append d (cw20_transfer a b n ∷ l) m = sent-append d l m
sent-append d (cw20_transfer_from a b c n ∷ l) m = sent-append d l m
sent-append d (mint c ∷ l) m = sent-append d l m
sent-append d (burn c ∷ l) m = sent-append d l m

sent-native_message :
    (d address : String) (coins : List Coin)
    → sent d (native_message address coins) ≡ amount_of d coins
unfolding native_message
sent-native_message d address [] = refl
sent-native_message d address (c ∷ coins) = omega arith

sum_weights-total :
    (acc : ℕ) (addresses : List (String × ℕ))
    → Post (λ n. n ≡ acc + weights addresses) (sum_weights acc addresses)
unfolding sum_weights
sum_weights-total acc [] = omega arith
sum_weights-total acc ((address, weight) ∷ addresses) =
    ground (arith, sum_weights-total (acc + weight) addresses)

amount_of-push_coin :
    (d : String) (c : Coin) (coins : List Coin)
    → amount_of d (push_coin c coins) ≡ amount_of d (c ∷ coins)
unfolding push_coin
amount_of-push_coin d c coins = ground arith

floor_part : (x w : ℕ) → x * w / one * one ≤ x * w
floor_part x w = div-mul-le_self (x * w) one

add_part :
    (b : Bool) (a r c t w : ℕ)
    → a * one ≤ c * w
    → r * one ≤ t * w
    → (if b then a + r else r) * one ≤ (if b then c + t else t) * w
add_part true a r c t w h k = omega (arith, h, k)
add_part false a r c t w h k = k

module _ (dec : Decimals) where
  split-amount :
      (d : String) (weight : ℕ) (coins l : List Coin)
      → split dec weight coins ≡ ok l
      → amount_of d l * one ≤ amount_of d coins * weight
  unfolding split
  split-amount d weight [] l h =
      let e : [] ≡ l = ground (arith, h) in
      subst (λ l. amount_of d l * one ≤ 0 * weight) e (omega arith)
  split-amount d weight (c ∷ coins) l h =
      let (a, ea, h') = >>=-eq-ok (mul_decimal dec u128_max c.amount weight) _ h in
      let (rest, er, hr) = >>=-eq-ok (split dec weight coins) _ h' in
      let floor : a * one ≤ c.amount * weight =
        ground (arith, ea, dec.mul_floor_lem c.amount weight, floor_part c.amount weight) in
      let e : push_coin (record c { amount = a }) rest ≡ l = ground (arith, hr) in
      let ih = split-amount d weight coins rest er in
      subst (λ l. amount_of d l * one ≤ amount_of d (c ∷ coins) * weight) e
        (rw (amount_of-push_coin d (record c { amount = a }) rest) (
          add_part (str_eq c.denom d) a (amount_of d rest) c.amount (amount_of d coins) weight floor
            ih))

  token_messages-sent :
      (querier : Querier) (d contract address : String) (weight : ℕ) (tokens : List String)
      → Post (λ l. sent d l ≡ 0) (token_messages dec querier contract address weight tokens)
  unfolding token_messages
  token_messages-sent querier d contract address weight [] = refl
  token_messages-sent querier d contract address weight (token ∷ tokens) =
      ground (arith, token_messages-sent querier d contract address weight tokens)

module _ (dec : Decimals) (querier : Querier) where
  payouts-sent :
      (d contract : String) (balances : List Coin) (tokens : List String)
      (addresses : List (String × ℕ)) (l : List Msg)
      → payouts dec querier contract balances tokens addresses ≡ ok l
      → sent d l * one ≤ amount_of d balances * weights addresses
  unfolding payouts
  payouts-sent d contract balances tokens [] l h =
      let e : [] ≡ l = ground (arith, h) in
      subst (λ l. sent d l * one ≤ amount_of d balances * 0) e (omega arith)
  payouts-sent d contract balances tokens ((address, weight) ∷ addresses) l h =
      let (coins, ec, h1) = >>=-eq-ok (split dec weight balances) _ h in
      let (ms, em, h2) =
        >>=-eq-ok (token_messages dec querier contract address weight tokens) _ h1 in
      let (rest, er, h3) =
        >>=-eq-ok (payouts dec querier contract balances tokens addresses) _ h2 in
      let e : native_message address coins ++ ms ++ rest ≡ l = ground (arith, h3) in
      let none_sent =
        Post-ok (λ l. sent d l ≡ 0) _
          (token_messages-sent dec querier d contract address weight tokens) em in
      let total : sent d (native_message address coins ++ ms ++ rest)
          ≡ amount_of d coins + sent d rest =
        grind (arith, sent-append d, sent-native_message d address coins, none_sent) in
      subst (λ l. sent d l * one ≤ amount_of d balances * (weight + weights addresses)) e
        (rw total (
          omega (
            arith,
            split-amount dec d weight balances coins ec,
            payouts-sent d contract balances tokens addresses rest er,
          )))

count_step :
    (b : Bool) (a k n c : ℕ)
    → (b ≡ true → a ≡ n)
    → c ≡ k * n
    → (if b then a + c else c) ≡ (if b then suc k else k) * n
count_step true a k n c h e = omega (arith, h refl, e)
count_step false a k n c h e = e

module _ (querier : Querier) where
  query_coins-amount :
      (d contract : String) (denoms : List String) (n : ℕ) (l : List Coin)
      → querier.bank_balance contract d ≡ ok n
      → query_coins querier contract denoms ≡ ok l
      → amount_of d l ≡ count d denoms * n
  unfolding query_coins
  query_coins-amount d contract [] n l e h =
      let q : [] ≡ l = ground (arith, h) in subst (λ l. amount_of d l ≡ 0 * n) q (omega arith)
  query_coins-amount d contract (denom ∷ denoms) n l e h =
      let (a, ea, h') = >>=-eq-ok (querier.bank_balance contract denom) _ h in
      let (rest, er, hr) = >>=-eq-ok (query_coins querier contract denoms) _ h' in
      let q : record { denom = denom; amount = a } ∷ rest ≡ l = ground (arith, hr) in
      let same : str_eq denom d ≡ true → a ≡ n = λ t.
        let there =
          subst (λ x. querier.bank_balance contract x ≡ ok a) ((str_eq_iff denom d).0 t) ea in
        ground (arith, there, e) in
      subst (λ l. amount_of d l ≡ count d (denom ∷ denoms) * n) q
        (count_step (str_eq denom d) a (count d denoms) n (amount_of d rest) same
          (query_coins-amount d contract denoms n rest e er))

instantiate-weights :
    (addresses : List (String × ℕ)) (c : Config)
    → instantiate addresses ≡ ok (some c)
    → weights c.addresses ≡ one
unfolding instantiate
instantiate-weights addresses c h = grind (arith, sum_weights-total 0 addresses)

module _ (dec : Decimals) (querier : Querier) where
  -- If the contract was instantiated and `execute_send_tokens` succeeds, what its messages send of
  -- a denom is at most the contract's balance of it, as many times as the denom was listed.
  pub execute_send_tokens_bounded :
      (api : Api) (contract d : String) (addresses : List (String × ℕ)) (c : Config)
      (denoms tokens : List String) (n : ℕ) {l : List Msg}
      → instantiate addresses ≡ ok (some c)
      → querier.bank_balance contract d ≡ ok n
      → execute_send_tokens dec querier api contract (some c) denoms tokens ≡ ok l
      → sent d l ≤ count d denoms * n
  unfolding execute_send_tokens
  execute_send_tokens_bounded api contract d addresses c denoms tokens n {l} h e k =
      let w = instantiate-weights addresses c h in
      let (balances, eb, h1) = >>=-eq-ok (map_err std (query_coins querier contract denoms)) _ k in
      let (ts, et, h2) = >>=-eq-ok (map_err std (traverse (validate_address api) tokens)) _ h1 in
      let found : query_coins querier contract denoms ≡ ok balances = ground (arith, eb) in
      let bound = payouts-sent dec querier d contract balances ts c.addresses l h2 in
      let amount = query_coins-amount querier d contract denoms n balances e found in
      omega (arith, rw (w, amount) at bound)
