-- ===== src/Simulator/Markets.antt =====
-- Dictionaries whose keys are instance markets, in insertion order.
use clusterman.Base.{
  String, ◌≡◌, refl, Bool, true, false, ◌&&◌, List, [], ◌∷◌, Option, none, some, str_eq, str_eq_iff,
  arith, if◌then◌else◌,
}
use clusterman.Interfaces.{InstanceMarket}

abbrev pub option_eq : Option String → Option String → Bool
option_eq none none = true
option_eq none (some t) = false
option_eq (some s) none = false
option_eq (some s) (some t) = str_eq s t

unfoldable pub market_eq : InstanceMarket → InstanceMarket → Bool
market_eq a b = str_eq a.instance_type b.instance_type && option_eq a.az b.az

abbrev pub MarketDict : Type 0 → Type 0
MarketDict V = List (InstanceMarket × V)

module _ {V : Type 0} where
  -- `d.get(m)`
  unfoldable pub get_market : InstanceMarket → MarketDict V → Option V
  get_market m [] = none
  get_market m ((j, v) ∷ d) = if market_eq j m then some v else get_market m d

  -- `d[m] = v`
  unfoldable pub put_market : InstanceMarket → V → MarketDict V → MarketDict V
  put_market m v [] = (m, v) ∷ []
  put_market m v ((j, w) ∷ d) = if market_eq j m then (j, v) ∷ d else (j, w) ∷ put_market m v d

  -- `del d[m]`
  unfoldable pub delete_market : InstanceMarket → MarketDict V → MarketDict V
  delete_market m [] = []
  delete_market m ((j, w) ∷ d) =
      if market_eq j m then delete_market m d else (j, w) ∷ delete_market m d

option_eq→eq : (a b : Option String) → option_eq a b ≡ true → a ≡ b
option_eq→eq none none h = refl
option_eq→eq none (some t) h = ground arith
option_eq→eq (some s) none h = ground arith
option_eq→eq (some s) (some t) h = ground (arith, str_eq_iff s t)

option_eq_refl : (a : Option String) → option_eq a a ≡ true
option_eq_refl none = refl
option_eq_refl (some s) = ground (arith, str_eq_iff s s)

pub market_eq→eq : (a b : InstanceMarket) → market_eq a b ≡ true → a ≡ b
unfolding market_eq
market_eq→eq a b h =
    ground (arith, str_eq_iff a.instance_type b.instance_type, option_eq→eq a.az b.az)

pub market_eq_refl : (a : InstanceMarket) → market_eq a a ≡ true
unfolding market_eq
market_eq_refl a = ground (arith, str_eq_iff a.instance_type a.instance_type, option_eq_refl a.az)

module _ {V : Type 0} where
  pub get_market-put :
      (k j : InstanceMarket) (v : V) (d : MarketDict V)
      → get_market j (put_market k v d) ≡ (if market_eq k j then some v else get_market j d)
  unfolding get_market put_market
  get_market-put k j v [] = refl
  get_market-put k j v ((i, w) ∷ d) = ground (
    arith,
    market_eq→eq k j,
    market_eq→eq i k,
    market_eq→eq i j,
    market_eq_refl k,
    market_eq_refl j,
    get_market-put k j v d,
  )

  pub get_market-delete :
      (k j : InstanceMarket) (d : MarketDict V)
      → get_market j (delete_market k d) ≡ (if market_eq k j then none else get_market j d)
  unfolding get_market delete_market
  get_market-delete k j [] = ground arith
  get_market-delete k j ((i, w) ∷ d) = ground (
    arith,
    market_eq→eq k j,
    market_eq→eq i k,
    market_eq→eq i j,
    market_eq_refl k,
    market_eq_refl j,
    get_market-delete k j d,
  )
