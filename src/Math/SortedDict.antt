-- ===== src/Math/SortedDict.antt =====
-- The `SortedDict` of the package sortedcontainers, which is not in the repository: its value is the list
-- of its items in the order of their keys, its methods are an argument, and `IsDocumented` says what
-- their documentation promises.
use clusterman.Base.{
  ℕ, zero, suc, ◌≡◌, refl, List, [], ◌∷◌, Option, none, some, ℤ, ltb_ℤ, eq_ℤ, ◌<ℤ◌, if◌then◌else◌,
}

abbrev pub Items : Type 0
Items = List (ℤ × ℤ)

-- `d[k] = v`, `d.bisect(k)` and `d.irange(k)`
pub record SortedDict : Type 0 where
  pub set_item : ℤ → ℤ → Items → Items
  pub bisect : ℤ → Items → ℕ
  pub irange : ℤ → Items → List ℤ

-- An item in its place among ordered ones
unfoldable pub insert : ℤ → ℤ → Items → Items
insert k v [] = (k, v) ∷ []
insert k v ((j, w) ∷ d) =
    if ltb_ℤ k j
    then (k, v) ∷ (j, w) ∷ d
    else if ltb_ℤ j k
    then (j, w) ∷ insert k v d
    else (k, v) ∷ d

-- How many keys come before `k` or are equal to it
unfoldable pub count_up_to : ℤ → Items → ℕ
count_up_to k [] = zero
count_up_to k ((j, w) ∷ d) = if ltb_ℤ k j then zero else suc (count_up_to k d)

-- The keys from `k` on
unfoldable pub keys_from : ℤ → Items → List ℤ
keys_from k [] = []
keys_from k ((j, w) ∷ d) = let rest = keys_from k d in if ltb_ℤ j k then rest else j ∷ rest

pub record IsDocumented (o : SortedDict) : Type 0 where
  pub set_item_is : (k v : ℤ) (d : Items) → o.set_item k v d ≡ insert k v d
  pub bisect_is : (k : ℤ) (d : Items) → o.bisect k d ≡ count_up_to k d
  pub irange_is : (k : ℤ) (d : Items) → o.irange k d ≡ keys_from k d

-- `k in d` and `d[k]`
unfoldable pub find : ℤ → Items → Option ℤ
find k [] = none
find k ((j, w) ∷ d) = if eq_ℤ j k then some w else find k d

-- `d.values()[i]`
unfoldable pub value_at : ℕ → Items → Option ℤ
value_at i [] = none
value_at zero ((j, w) ∷ d) = some w
value_at (suc i) (x ∷ d) = value_at i d

-- The items from the `i`-th on
unfoldable pub items_from : ℕ → Items → Items
items_from zero d = d
items_from (suc i) [] = []
items_from (suc i) (x ∷ d) = items_from i d

-- Every key is above `k`.
abbrev pub Above : ℤ → Items → Type 0
Above k [] = Unit
Above k ((j, w) ∷ d) = (k <ℤ j) × Above k d

abbrev pub IsAscending : Items → Type 0
IsAscending [] = Unit
IsAscending ((j, w) ∷ d) = Above j d × IsAscending d

-- Lists do as the documentation says.
abbrev pub sorted_dict : SortedDict
sorted_dict = record { set_item = insert; bisect = count_up_to; irange = keys_from }

pub sorted_dict-IsDocumented : IsDocumented sorted_dict
unfolding insert count_up_to keys_from
sorted_dict-IsDocumented = record {
  set_item_is = λ k v d. refl;
  bisect_is = λ k d. refl;
  irange_is = λ k d. refl;
}
