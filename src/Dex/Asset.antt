-- ===== src/Dex/Asset.antt =====
-- packages/dex/src/asset.rs: assets, their equality, and the checks on what was sent. Addresses
-- and denoms are texts; `Api` stands for the chain's address validation and for the text functions
-- of Rust's library that the code calls.
use whelp_contracts.Prelude.{
  ℕ, String, Bool, true, false, not, ◌&&◌, ◌||◌, Option, none, some, List, [], ◌∷◌, str_eq, ◌==◌,
  if◌then◌else◌,
}
use text.Mathlib.Text.{starts_with}
use whelp_contracts.Outcome.{Outcome, ok, err, ◌>>=◌, ◌>>◌, map_err, fail_if, traverse}
use whelp_contracts.Dex.Error.{
  StdError, ContractError, std, empty_pool, zero_swap_amount, invalid_address, not_lowercase,
  balance_mismatch, doubling_assets,
}

pub data AssetInfo : Type 0 where
  cw20_token smart_token : String → AssetInfo

pub record Asset : Type 0 where
  pub info : AssetInfo
  pub amount : ℕ

pub data AssetInfoValidated : Type 0 where
  cw20_token smart_token : String → AssetInfoValidated

pub record AssetValidated : Type 0 where
  pub info : AssetInfoValidated
  pub amount : ℕ

pub record Coin : Type 0 where
  pub denom : String
  pub amount : ℕ

-- What a handler asks the chain to do: the messages that the modelled handlers emit.
pub data Msg : Type 0 where
  bank_send : String → List Coin → Msg
  cw20_transfer : String → String → ℕ → Msg
  cw20_transfer_from : String → String → String → ℕ → Msg
  mint : Coin → Msg
  burn : Coin → Msg

pub record Api : Type 0 where
  pub addr_validate : String → Option String
  pub to_lowercase : String → String
  -- `chars().take(n).collect()`
  pub take_chars : ℕ → String → String

unfoldable pub equal : AssetInfoValidated → AssetInfoValidated → Bool
equal (AssetInfoValidated.smart_token d) (AssetInfoValidated.smart_token e) = str_eq d e
equal (AssetInfoValidated.cw20_token a) (AssetInfoValidated.cw20_token b) = str_eq a b
equal _ _ = false

unfoldable pub is_native_token : AssetInfoValidated → Bool
is_native_token (AssetInfoValidated.smart_token d) = true
is_native_token (AssetInfoValidated.cw20_token a) = false

-- `==` of the derived `PartialEq` on what a caller sent.
unfoldable pub same_info : AssetInfo → AssetInfo → Bool
same_info (AssetInfo.smart_token d) (AssetInfo.smart_token e) = str_eq d e
same_info (AssetInfo.cw20_token a) (AssetInfo.cw20_token b) = str_eq a b
same_info _ _ = false

unfoldable pub into_msg : AssetValidated → String → Msg
into_msg a recipient = elim a.info [
  | AssetInfoValidated.cw20_token contract ↦ cw20_transfer contract recipient a.amount
  | AssetInfoValidated.smart_token denom ↦
      bank_send recipient (record { denom = denom; amount = a.amount } ∷ [])
]

unfoldable pub find_coin : String → List Coin → Option Coin
find_coin d [] = none
find_coin d (c ∷ cs) = if str_eq c.denom d then some c else find_coin d cs

unfoldable pub assert_sent_native_token_balance :
    AssetValidated → List Coin → Outcome StdError (Unit {0})
unfolding find_coin
assert_sent_native_token_balance a funds = elim a.info [
  | AssetInfoValidated.cw20_token contract ↦ ok tt
  | AssetInfoValidated.smart_token denom ↦ elim (find_coin denom funds) [
    | none ↦ if a.amount == 0 then ok tt else err balance_mismatch
    | some c ↦ if a.amount == c.amount then ok tt else err balance_mismatch
  ]
]

-- `AssetValidated::receive`: native coins must have come with the message, cw20 tokens are pulled.
-- The messages are those to append.
unfoldable pub receive : AssetValidated → String → String → List Coin → Outcome StdError (List Msg)
unfolding assert_sent_native_token_balance
receive a contract sender funds = if a.amount == 0 then ok [] else elim a.info [
  | AssetInfoValidated.smart_token denom ↦ do assert_sent_native_token_balance a funds; ok []
  | AssetInfoValidated.cw20_token token ↦
      ok (cw20_transfer_from token sender contract a.amount ∷ [])
]

unfoldable pub check_swap_parameters : List ℕ → ℕ → Outcome StdError (Unit {0})
check_swap_parameters [] amount = if amount == 0 then err zero_swap_amount else ok tt
check_swap_parameters (p ∷ ps) amount =
    let rest = check_swap_parameters ps amount in if p == 0 then err empty_pool else rest

module _ (api : Api) where
  unfoldable pub validate_address : String → Outcome StdError String
  validate_address a = elim (api.addr_validate a) [ none ↦ err invalid_address | some b ↦ ok b ]

  unfoldable pub addr_opt_validate : Option String → Outcome StdError (Option String)
  unfolding validate_address
  addr_opt_validate none = ok none
  addr_opt_validate (some a) = do b ← validate_address a; ok (some b)

  unfoldable pub validate_info : AssetInfo → Outcome StdError AssetInfoValidated
  unfolding validate_address
  validate_info (AssetInfo.cw20_token a) = do
    b ← validate_address a
    ok (AssetInfoValidated.cw20_token b)
  validate_info (AssetInfo.smart_token d) =
      if not (starts_with d "ibc/") && not (str_eq d (api.to_lowercase d))
      then err not_lowercase
      else ok (AssetInfoValidated.smart_token d)

  unfoldable pub validate_asset : Asset → Outcome StdError AssetValidated
  unfolding validate_info
  validate_asset a = do i ← validate_info a.info; ok (record { info = i; amount = a.amount })

-- `all_unique` over the infos.
unfoldable pub occurs : AssetInfo → List AssetInfo → Bool
unfolding same_info
occurs i [] = false
occurs i (j ∷ js) = same_info i j || occurs i js

unfoldable pub all_unique : List AssetInfo → Bool
unfolding occurs
all_unique [] = true
all_unique (i ∷ is) = not (occurs i is) && all_unique is

unfoldable pub infos : List Asset → List AssetInfo
infos [] = []
infos (a ∷ as') = a.info ∷ infos as'

-- packages/dex/src/pool/utils.rs.
unfoldable pub check_assets : Api → List Asset → Outcome ContractError (List AssetValidated)
unfolding all_unique infos traverse validate_asset
check_assets api assets = do
  fail_if (not (all_unique (infos assets))) doubling_assets
  map_err std (traverse (validate_asset api) assets)

unfoldable pub check_asset_infos :
    Api → List AssetInfo → Outcome ContractError (List AssetInfoValidated)
unfolding all_unique traverse validate_info
check_asset_infos api is = do
  fail_if (not (all_unique is)) doubling_assets
  map_err std (traverse (validate_info api) is)
