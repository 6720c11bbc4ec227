-- ===== src/Splitter/Tests.antt =====
-- A split of 1000 usd on concrete weights.
use whelp_contracts.Prelude.{ℕ, ◌*◌, ◌≤◌, ◌^◌, ◌≡◌, refl, String, some, List, [], ◌∷◌}
use whelp_contracts.Outcome.{Outcome, ok, value_or, is_ok→eq-ok, traverse}
use whelp_contracts.Num.{floors}
use whelp_contracts.Dex.Asset.{Api, Msg, validate_address}
use whelp_contracts.Dex.Querier.{Querier}
use whelp_contracts.Splitter.{
  ContractError, Config, sum_weights, instantiate, push_coin, split, token_messages, native_message,
  payouts, query_coins, execute_send_tokens,
}
use whelp_contracts.Splitter.Laws.{sent, count, execute_send_tokens_bounded}

abbrev api : Api
api = record { addr_validate = λ a. some a; to_lowercase = λ a. a; take_chars = λ n a. a }

abbrev querier : Querier
querier = record {
  bank_balance = λ account denom. ok 1001;
  token_balance = λ token account. ok 11;
  factory_config = λ address.
      ok (record { owner = "dao"; fee_address = some "fees"; max_referral_commission = 0 });
  token_symbol = λ token. ok "token";
}

-- Two thirds and one third, in percent 67 and 33.
abbrev addresses : List (String × ℕ)
addresses = ("ann", 67 * 10 ^ 16) ∷ ("bob", 33 * 10 ^ 16) ∷ []

abbrev config : Config
config = record { addresses = addresses }

instantiates : instantiate addresses ≡ ok (some config)
unfolding instantiate sum_weights
instantiates = refl

abbrev sending : Outcome ContractError (List Msg)
sending =
    execute_send_tokens floors querier api "splitter" (some config) ("usd" ∷ []) ("token" ∷ [])

abbrev messages : List Msg
messages = value_or sending []

sends : sending ≡ ok messages
unfolding execute_send_tokens query_coins traverse validate_address payouts split push_coin
    token_messages native_message
sends = is_ok→eq-ok sending messages refl

execute_send_tokens_bounded_example : sent "usd" messages ≤ count "usd" ("usd" ∷ []) * 1001
execute_send_tokens_bounded_example =
    execute_send_tokens_bounded floors querier api "splitter" "usd" addresses config ("usd" ∷ [])
      ("token" ∷ []) 1001 instantiates refl sends
