-- ===== src/Inventory/Tests.antt =====
-- A camera that is checked out and in, and a check-in whose last statement fails.
use thittam.Base.{ℕ, ◌≡◌, refl, true, false, Option, none, some, [], ◌∷◌, ◌==◌, ◌+◌}
use thittam.Base.Int.{pos}
use thittam.Base.Rows.{find_row, has_row, update_rows}
use thittam.Base.Text.{text}
use thittam.Base.Action.{Env, World, Result, err, ◌>>=◌}
use thittam.Base.Hoare.{After}
use thittam.Inventory.{
  AssetStatus, available, checked_out, under_repair, owned, Asset, AssetCheckout, CheckInInput,
  Stock, InventoryError, asset_not_available, no_active_checkout, is_asset, select_asset, get_asset,
  update_status_row, update_asset_status, insert_checkout, record_checkout, select_open,
  get_active_checkout, close_checkout, record_return, check_out_asset, check_in_asset,
}
use thittam.Inventory.Custody.{
  CheckedOut, NotCheckedOut, check_out_asset-CheckedOut, CheckedIn, NotCheckedIn,
  check_in_asset-CheckedIn,
}
use thittam.Inventory.Stranded.{Stranded}
use thittam.Inventory.History.{lend, give_back, custody_history, succeeds, custody_history-Stranded}

-- The database fails at the call with this number.
abbrev env : ℕ → Env
env failing = record {
  uuid = λ n. 100 + n;
  time = λ n. record { month = 24301; offset = n };
  fails = λ n. n == failing;
}

abbrev camera : Asset
camera = record {
  id = 3;
  tenant_id = 1;
  asset_code = text "CAM-1";
  name = text "Camera";
  category_id = text "camera";
  description = text "";
  ownership_type = owned;
  status = available;
  purchase_date = none;
  purchase_cost = pos 0;
  serial_number = text "";
  created_at = record { month = 24300; offset = 1 };
  updated_at = record { month = 24300; offset = 1 };
}

abbrev loan : AssetCheckout
loan = record {
  id = 9;
  asset_id = 3;
  production_id = 2;
  tenant_id = 1;
  checked_out_to = 30;
  checked_out_at = record { month = 0; offset = 0 };
  expected_return = none;
  checked_in_at = none;
  condition_out = text "good";
  condition_in = text "";
  notes = text "";
  report_damage = false;
  damage_severity = text "";
  damage_description = text "";
  repair_cost = none;
}

abbrev broken_lens : CheckInInput
broken_lens = record {
  condition_in = text "damaged";
  notes = text "";
  report_damage = true;
  damage_severity = text "minor";
  damage_description = text "lens";
  repair_cost = some (pos 4000);
}

abbrev studio : ℕ → World Stock
studio failing = record {
  env = env failing;
  tick = 0;
  tables = record { assets = camera ∷ []; checkouts = [] };
}

abbrev lent : ℕ → World Stock
lent failing = (check_out_asset loan (studio failing)).1

abbrev back : ℕ → World Stock
back failing = (check_in_asset 1 3 broken_lens (lent failing)).1

abbrev status_of : Option Asset → Option AssetStatus
status_of none = none
status_of (some a) = some a.status

abbrev status : World Stock → Option AssetStatus
status w = status_of (find_row (is_asset 1 3) w.tables.assets)

unfoldable asset_states : ℕ → Option AssetStatus × Option AssetStatus
unfolding check_out_asset check_in_asset get_asset select_asset record_checkout insert_checkout
    update_asset_status update_status_row get_active_checkout select_open record_return
    close_checkout find_row has_row update_rows ◌>>=◌
asset_states failing = (status (lent failing), status (back failing))

repaired : asset_states 50 ≡ (some checked_out, some under_repair)
unfolding asset_states
repaired = refl

-- The checkout is closed and the asset is still checked out.
stranded : asset_states 5 ≡ (some checked_out, some checked_out)
unfolding asset_states
stranded = refl

unfoldable retries : Result InventoryError (Unit {0}) × Result InventoryError AssetCheckout
unfolding asset_states
retries = ((check_out_asset loan (back 5)).0, (check_in_asset 1 3 broken_lens (back 5)).0)

refused : retries ≡ (err asset_not_available, err no_active_checkout)
unfolding retries
refused = refl

check_out_asset-CheckedOut_example :
    After
      (λ _. CheckedOut loan (studio 50).tables)
      (NotCheckedOut loan (studio 50).tables)
      (check_out_asset loan (studio 50)).0
      (lent 50).tables
check_out_asset-CheckedOut_example = check_out_asset-CheckedOut loan (studio 50)

check_in_asset-CheckedIn_example :
    After
      (CheckedIn 1 3 broken_lens (lent 5).tables)
      (NotCheckedIn 1 3 broken_lens (lent 5).tables)
      (check_in_asset 1 3 broken_lens (lent 5)).0
      (back 5).tables
check_in_asset-CheckedIn_example = check_in_asset-CheckedIn 1 3 broken_lens (lent 5)

back-Stranded : Stranded 1 3 (back 5).tables
unfolding asset_states
back-Stranded = (
  record camera { status = checked_out; updated_at = record { month = 24301; offset = 2 } },
  refl,
  refl,
  refl,
)

abbrev ended : World Stock
ended = custody_history (lend loan ∷ give_back 1 3 broken_lens ∷ []) (back 5)

custody_history-Stranded_example :
    Stranded 1 3 ended.tables
    × (succeeds (check_out_asset loan ended).0 ≡ false)
    × (succeeds (check_in_asset 1 3 broken_lens ended).0 ≡ false)
custody_history-Stranded_example =
    custody_history-Stranded loan broken_lens (lend loan ∷ give_back 1 3 broken_lens ∷ []) (back 5)
      back-Stranded
