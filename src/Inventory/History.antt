-- ===== src/Inventory/History.antt =====
-- Sequences of check-outs and check-ins.
use thittam.Base.{ℕ, ◌≡◌, refl, sym, ap, Bool, true, false, List, [], ◌∷◌, arith}
use thittam.Base.Action.{World, Result, ok, err}
use thittam.Base.Hoare.{After}
use thittam.Inventory.{
  AssetCheckout, CheckInInput, Stock, InventoryError, is_available, check_out_asset, check_in_asset,
}
use thittam.Inventory.Custody.{
  CheckedOut, NotCheckedOut, CheckedIn, NotCheckedIn, check_out_asset-CheckedOut,
  check_in_asset-CheckedIn,
}
use thittam.Inventory.Stranded.{Stranded, check_out_asset-Stranded, check_in_asset-Stranded}

pub data CustodyCall : Type 0 where
  lend : AssetCheckout → CustodyCall
  give_back : ℕ → ℕ → CheckInInput → CustodyCall

abbrev pub custody_call : CustodyCall → World Stock → World Stock
custody_call (lend c) w = (check_out_asset c w).1
custody_call (give_back tenant asset x) w = (check_in_asset tenant asset x w).1

-- A run of several calls, each whatever the ones before have returned.
abbrev pub custody_history : List CustodyCall → World Stock → World Stock
custody_history [] w = w
custody_history (x ∷ xs) w = custody_history xs (custody_call x w)

either_lem :
    {A : Type 0} (P : Stock → Type 0) (r : Result InventoryError A) (t : Stock)
    → After (λ _. P) P r t
    → P t
either_lem P (ok a) t h = h
either_lem P (err x) t h = h

custody_call-Stranded :
    (tenant asset : ℕ) (x : CustodyCall) (w : World Stock)
    → Stranded tenant asset w.tables
    → Stranded tenant asset (custody_call x w).tables
custody_call-Stranded tenant asset (lend c) w h =
    either_lem (Stranded tenant asset) (check_out_asset c w).0 _
      ((check_out_asset-Stranded tenant asset c).apply w h)
custody_call-Stranded tenant asset (give_back tenant' asset' x) w h =
    either_lem (Stranded tenant asset) (check_in_asset tenant' asset' x w).0 _
      ((check_in_asset-Stranded tenant asset tenant' asset' x).apply w h)

history_lem :
    (tenant asset : ℕ) (xs : List CustodyCall) (w : World Stock)
    → Stranded tenant asset w.tables
    → Stranded tenant asset (custody_history xs w).tables
history_lem tenant asset [] w h = h
history_lem tenant asset (x ∷ xs) w h =
    history_lem tenant asset xs (custody_call x w) (custody_call-Stranded tenant asset x w h)

abbrev pub succeeds : {A : Type 0} → Result InventoryError A → Bool
succeeds (ok a) = true
succeeds (err e) = false

no_check_out :
    (c : AssetCheckout) (t u : Stock) (r : Result InventoryError (Unit {0}))
    → Stranded c.tenant_id c.asset_id t
    → After (λ _. CheckedOut c t) (NotCheckedOut c t) r u
    → succeeds r ≡ false
no_check_out c t u (err e) h k = refl
no_check_out c t u (ok v) (a, there, busy, none_open) ((b, found, free), opened_row) =
    let one : b ≡ a = ground (arith, there, found) in
    absurd (ground (arith, ap is_available (sym free), ap (λ d. is_available d.status) one, busy))

no_check_in :
    (tenant asset : ℕ) (x : CheckInInput) (t u : Stock) (r : Result InventoryError AssetCheckout)
    → Stranded tenant asset t
    → After (CheckedIn tenant asset x t) (NotCheckedIn tenant asset x t) r u
    → succeeds r ≡ false
no_check_in tenant asset x t u (err e) h k = refl
no_check_in tenant asset x t u (ok c) (a, there, busy, none_open)
      (co, found, now, later, row, status, reported, left) =
    absurd (ground (arith, none_open, found))

-- An asset that is not available and has no open checkout stays so through every sequence of
-- calls of CheckOutAsset and CheckInAsset, on this and on other assets, each of which may fail
-- at any step, and after them both CheckOutAsset and CheckInAsset fail for it.
pub custody_history-Stranded :
    (c : AssetCheckout) (x : CheckInInput) (xs : List CustodyCall) (w : World Stock)
    → Stranded c.tenant_id c.asset_id w.tables
    → Stranded c.tenant_id c.asset_id (custody_history xs w).tables
      × (succeeds (check_out_asset c (custody_history xs w)).0 ≡ false)
      × (succeeds (check_in_asset c.tenant_id c.asset_id x (custody_history xs w)).0 ≡ false)
custody_history-Stranded c x xs w h =
    let v = custody_history xs w in
    let stays = history_lem c.tenant_id c.asset_id xs w h in
    (
      stays,
      no_check_out c v.tables _ (check_out_asset c v).0 stays (check_out_asset-CheckedOut c v),
      no_check_in c.tenant_id c.asset_id x v.tables _ (check_in_asset c.tenant_id c.asset_id x v).0
          stays (check_in_asset-CheckedIn c.tenant_id c.asset_id x v),
    )
