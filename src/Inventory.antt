-- ===== src/Inventory.antt =====
-- services/inventory: models.go, errors.go, and check-out and check-in of service.go with their part of
-- db/postgres.go and db/queries.sql.go.
pub mod Custody
pub mod Stranded
pub mod History
pub mod Tests
use thittam.Base.{
  ℕ, Bool, true, false, not, ◌&&◌, ◌||◌, Option, none, some, List, [], ◌∷◌, ◌++◌, ◌==◌,
  if◌then◌else◌,
}
use thittam.Base.Int.{ℤ}
use thittam.Base.Rows.{find_row, has_row, update_rows}
use thittam.Base.Text.{Text}
use thittam.Base.Time.{Time}
use thittam.Base.Action.{
  Action, Statement, Result, ok, err, ◌>>=◌, ◌>>◌, pure, raise_if, map_error, new_uuid, query,
  QueryError, no_rows, unique_violation, query_failed,
}
use thittam.Ledger.Queries.{numeric_fits}

pub data AssetStatus : Type 0 where
  available checked_out under_repair retired : AssetStatus

pub data Ownership : Type 0 where
  owned rented borrowed : Ownership

-- A date is its text, and one that the database accepts. A nullable text reads NULL as the empty one.
pub record Asset : Type 0 where
  pub id : ℕ
  pub tenant_id : ℕ
  pub asset_code : Text
  pub name : Text
  pub category_id : Text
  pub description : Text
  pub ownership_type : Ownership
  pub status : AssetStatus
  pub purchase_date : Option Text
  pub purchase_cost : ℤ
  pub serial_number : Text
  pub created_at : Time
  pub updated_at : Time

pub record AssetCheckout : Type 0 where
  pub id : ℕ
  pub asset_id : ℕ
  pub production_id : ℕ
  pub tenant_id : ℕ
  pub checked_out_to : ℕ
  pub checked_out_at : Time
  pub expected_return : Option Text
  pub checked_in_at : Option Time
  pub condition_out : Text
  pub condition_in : Text
  pub notes : Text
  pub report_damage : Bool
  pub damage_severity : Text
  pub damage_description : Text
  pub repair_cost : Option ℤ

pub record CheckInInput : Type 0 where
  pub condition_in : Text
  pub notes : Text
  pub report_damage : Bool
  pub damage_severity : Text
  pub damage_description : Text
  pub repair_cost : Option ℤ

pub record Stock : Type 0 where
  pub assets : List Asset
  pub checkouts : List AssetCheckout

pub data InventoryError : Type 0 where
  asset_not_found asset_not_available invalid_category already_checked_out : InventoryError
  no_active_checkout internal : InventoryError

abbrev pub Store : Type 0 → Type 0
Store A = Action Stock InventoryError A

abbrev pub is_asset : ℕ → ℕ → Asset → Bool
is_asset tenant id a = a.id == id && a.tenant_id == tenant

abbrev pub found_row : {A : Type 0} → Stock → Option A → Result QueryError (A × Stock)
found_row t none = err no_rows
found_row t (some a) = ok (a, t)

unfoldable pub select_asset : ℕ → ℕ → Statement Stock Asset
select_asset tenant id now t = found_row t (find_row (is_asset tenant id) t.assets)

abbrev pub missing : InventoryError → QueryError → InventoryError
missing e no_rows = e
missing e unique_violation = internal
missing e query_failed = internal

unfoldable pub get_asset : ℕ → ℕ → Store Asset
get_asset tenant id = map_error (missing asset_not_found) (query (select_asset tenant id))

abbrev pub with_asset_status : AssetStatus → Time → Asset → Asset
with_asset_status status now a = record a { status = status; updated_at = now }

abbrev pub set_asset_status : ℕ → ℕ → AssetStatus → Time → Stock → Stock
set_asset_status tenant id status now t = record t {
  assets = update_rows (is_asset tenant id) (with_asset_status status now) t.assets;
}

unfoldable pub update_status_row : ℕ → ℕ → AssetStatus → Statement Stock (Unit {0})
update_status_row tenant id status now t =
    if has_row (is_asset tenant id) t.assets
    then ok (tt, set_asset_status tenant id status now t)
    else err no_rows

unfoldable pub update_asset_status : ℕ → ℕ → AssetStatus → Store (Unit {0})
update_asset_status tenant id status =
    map_error (missing asset_not_found) (query (update_status_row tenant id status))

-- The row that CheckoutAsset inserts: the columns that it does not name have their defaults.
abbrev pub opened : AssetCheckout → Time → AssetCheckout
opened c now = record c {
  checked_out_at = now;
  checked_in_at = none;
  condition_in = [];
  notes = [];
  report_damage = false;
  damage_severity = [];
  damage_description = [];
  repair_cost = none;
}

abbrev pub with_checkout : AssetCheckout → Time → Stock → Stock
with_checkout c now t = record t { checkouts = t.checkouts ++ opened c now ∷ [] }

-- The asset must exist; an identifier that is there already gives no row back.
unfoldable pub insert_checkout : AssetCheckout → Statement Stock (Unit {0})
insert_checkout c now t =
    if has_row (λ r. r.id == c.id) t.checkouts
    then err no_rows
    else if has_row (λ a. a.id == c.asset_id) t.assets
    then ok (tt, with_checkout c now t)
    else err query_failed

unfoldable pub record_checkout : AssetCheckout → Store (Unit {0})
record_checkout c = map_error (λ _. internal) (query (insert_checkout c))

abbrev pub is_none : Option Time → Bool
is_none none = true
is_none (some t) = false

abbrev pub is_open : ℕ → ℕ → AssetCheckout → Bool
is_open tenant asset c = c.asset_id == asset && (c.tenant_id == tenant && is_none c.checked_in_at)

-- Of several open rows the query gives any one; here it is the first that was inserted.
unfoldable pub select_open : ℕ → ℕ → Statement Stock AssetCheckout
select_open tenant asset now t = found_row t (find_row (is_open tenant asset) t.checkouts)

unfoldable pub get_active_checkout : ℕ → ℕ → Store AssetCheckout
get_active_checkout tenant asset =
    map_error (missing no_active_checkout) (query (select_open tenant asset))

abbrev pub returned : CheckInInput → Time → AssetCheckout → AssetCheckout
returned x now c = record c {
  checked_in_at = some now;
  condition_in = x.condition_in;
  notes = x.notes;
  report_damage = x.report_damage;
  damage_severity = x.damage_severity;
  damage_description = x.damage_description;
  repair_cost = x.repair_cost;
}

abbrev pub is_checkout : ℕ → ℕ → AssetCheckout → Bool
is_checkout tenant id c = c.id == id && c.tenant_id == tenant

abbrev pub cost_fits : Option ℤ → Bool
cost_fits none = true
cost_fits (some cost) = numeric_fits cost

abbrev pub with_return : ℕ → ℕ → CheckInInput → Time → Stock → Stock
with_return tenant id x now t = record t {
  checkouts = update_rows (is_checkout tenant id) (returned x now) t.checkouts;
}

unfoldable pub close_checkout : ℕ → ℕ → CheckInInput → Statement Stock AssetCheckout
close_checkout tenant id x now t =
    if cost_fits x.repair_cost
    then found_row (with_return tenant id x now t)
        (find_row (is_checkout tenant id) (with_return tenant id x now t).checkouts)
    else err query_failed

unfoldable pub record_return : ℕ → ℕ → CheckInInput → Store AssetCheckout
record_return tenant id x = map_error (missing asset_not_found) (query (close_checkout tenant id x))

abbrev pub is_available : AssetStatus → Bool
is_available available = true
is_available _ = false

abbrev pub checkout_id : ℕ → Store ℕ
checkout_id id = if id == 0 then new_uuid else pure id

unfoldable pub check_out_asset : AssetCheckout → Store (Unit {0})
check_out_asset c = do
  asset ← get_asset c.tenant_id c.asset_id
  raise_if (not (is_available asset.status)) asset_not_available
  id ← checkout_id c.id
  record_checkout (record c { id = id })
  update_asset_status c.tenant_id c.asset_id checked_out

abbrev pub status_after : CheckInInput → AssetStatus
status_after x = if x.report_damage then under_repair else available

unfoldable pub check_in_asset : ℕ → ℕ → CheckInInput → Store AssetCheckout
check_in_asset tenant asset x = do
  co ← get_active_checkout tenant asset
  updated ← record_return tenant co.id x
  update_asset_status tenant asset (status_after x)
  pure updated
