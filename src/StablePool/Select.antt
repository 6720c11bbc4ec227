-- ===== src/StablePool/Select.antt =====
-- contracts/pool_stable/src/utils.rs: `select_pools`, the offer and the ask pool of a swap.
use whelp_contracts.Prelude.{
  ℕ, zero, suc, inl, inr, Option, none, some, List, [], ◌∷◌, ◌≡◌, true, Bool-cases, length, ◌==◌,
  ◌+◌, ◌%◌, if◌then◌else◌,
}
use whelp_contracts.Outcome.{Outcome, ok, err, panic, ◌>>=◌, ◌>>◌, fail_if, >>=-eq-ok, Post-ok}
use whelp_contracts.Dex.Error.{ContractError, asset_mismatch, variable_asset_missed, same_assets}
use whelp_contracts.Dex.Asset.{AssetInfoValidated, equal}

pub record DecimalAsset : Type 0 where
  pub info : AssetInfoValidated
  pub amount : ℕ

-- `find_position`, with the error where there is none.
unfoldable pub find_position :
    AssetInfoValidated → List DecimalAsset → Outcome ContractError (ℕ × DecimalAsset)
find_position info [] = err asset_mismatch
find_position info (pool ∷ pools) =
    let rest = find_position info pools in
    if equal pool.info info then ok (0, pool) else (rest >>= λ r. ok (suc r.0, r.1))

-- `pools[i]`, with the panic past the end.
unfoldable pub pool_at : List DecimalAsset → ℕ → Outcome ContractError DecimalAsset
pool_at [] i = panic
pool_at (pool ∷ pools) zero = ok pool
pool_at (pool ∷ pools) (suc i) = pool_at pools i

-- Two pools: the ask asset is read only where no offer asset is given.
unfoldable pub select_of_two :
    Option AssetInfoValidated
    → Option AssetInfoValidated
    → List DecimalAsset
    → Outcome ContractError (DecimalAsset × DecimalAsset)
select_of_two (some offer) ask pools = do
  (offer_ind, offer_pool) ← find_position offer pools
  ask_pool ← pool_at pools ((offer_ind + 1) % 2)
  ok (offer_pool, ask_pool)
select_of_two none (some ask) pools = do
  (ask_ind, ask_pool) ← find_position ask pools
  offer_pool ← pool_at pools ((ask_ind + 1) % 2)
  ok (offer_pool, ask_pool)
select_of_two none none pools = err variable_asset_missed

unfoldable pub select_of_many :
    Option AssetInfoValidated
    → Option AssetInfoValidated
    → List DecimalAsset
    → Outcome ContractError (DecimalAsset × DecimalAsset)
select_of_many (some offer) (some ask) pools = do
  fail_if (equal ask offer) same_assets
  (offer_ind, offer_pool) ← find_position offer pools
  (ask_ind, ask_pool) ← find_position ask pools
  ok (offer_pool, ask_pool)
select_of_many (some offer) none pools = err variable_asset_missed
select_of_many none ask pools = err variable_asset_missed

unfoldable pub select_pools :
    Option AssetInfoValidated
    → Option AssetInfoValidated
    → List DecimalAsset
    → Outcome ContractError (DecimalAsset × DecimalAsset)
select_pools offer ask pools =
    if length pools == 2 then select_of_two offer ask pools else select_of_many offer ask pools

find_position-equal :
    (info : AssetInfoValidated) (pools : List DecimalAsset) {r : ℕ × DecimalAsset}
    → find_position info pools ≡ ok r
    → equal r.1.info info ≡ true
unfolding find_position
find_position-equal info [] {r} h = cc
find_position-equal info (pool ∷ pools) {r} h = elim (Bool-cases (equal pool.info info)) [
  | inl e ↦
      let h' : ok (0, pool) ≡ ok r = rw e at h in
      Post-ok (λ r. equal r.1.info info ≡ true) (ok (0, pool)) e h'
  | inr n ↦
      let h' : find_position info pools >>= (λ r. ok (suc r.0, r.1)) ≡ ok r = rw n at h in
      let (found, e, h'') = >>=-eq-ok (find_position info pools) _ h' in
      Post-ok (λ r. equal r.1.info info ≡ true) (ok (suc found.0, found.1))
        (find_position-equal info pools e) h''
]

-- The pools of a swap of a given asset: the first one is of that asset.
select_of_two-offer :
    (offer : AssetInfoValidated) (ask : Option AssetInfoValidated) (pools : List DecimalAsset)
    {r : DecimalAsset × DecimalAsset}
    → select_of_two (some offer) ask pools ≡ ok r
    → equal r.0.info offer ≡ true
unfolding select_of_two
select_of_two-offer offer ask pools {r} h =
    let (found, e, h') = >>=-eq-ok (find_position offer pools) _ h in
    let (other, e', h'') = >>=-eq-ok (pool_at pools ((found.0 + 1) % 2)) _ h' in
    Post-ok (λ r. equal r.0.info offer ≡ true) (ok (found.1, other))
      (find_position-equal offer pools e) h''
