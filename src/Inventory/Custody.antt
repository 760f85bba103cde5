-- ===== src/Inventory/Custody.antt =====
-- What a check-out and a check-in leave, whether they return or fail. The record of the checkout and
-- the status of the asset are written by two statements, without a transaction.
use thittam.Base.{
  if◌then◌else◌, Bool, true, ℕ, ◌≡◌, refl, ap, false, not, Option, none, some, ◌==◌, ◌⊎◌, inl, inr,
  Bool-cases,
}
use thittam.Base.Rows.{find_row, has_row}
use thittam.Base.Time.{Time}
use thittam.Base.Action.{World, pure, new_uuid}
use thittam.Base.Hoare.{
  After, AfterStatement, Meets, Meets-pure, Meets-if, Meets-bind, Meets-query, Meets-raise_if,
  Meets-new_uuid,
}
use thittam.Inventory.{
  AssetStatus, available, checked_out, under_repair, retired, Asset, AssetCheckout, CheckInInput,
  Stock, is_asset, found_row, select_asset, get_asset, set_asset_status, update_status_row,
  update_asset_status, with_checkout, insert_checkout, record_checkout, is_open, select_open,
  get_active_checkout, is_checkout, cost_fits, with_return, close_checkout, record_return,
  is_available, check_out_asset, status_after, check_in_asset,
}

-- The asset was there and available.
abbrev Free : AssetCheckout → Stock → Type 0
Free c t =
    (a : Asset) × (find_row (is_asset c.tenant_id c.asset_id) t.assets ≡ some a)
    × (a.status ≡ available)

-- One new open checkout.
abbrev Opened : AssetCheckout → Stock → Stock → Type 0
Opened c t u =
    Free c t × ((id : ℕ) × (now : Time) × (u ≡ with_checkout (record c { id = id }) now t))

abbrev pub CheckedOut : AssetCheckout → Stock → Stock → Type 0
CheckedOut c t u =
    Free c t
    × ((id : ℕ) × (now : Time) × (later : Time) × (u
          ≡ set_asset_status c.tenant_id c.asset_id checked_out later
              (with_checkout (record c { id = id }) now t)))

abbrev pub NotCheckedOut : AssetCheckout → Stock → Stock → Type 0
NotCheckedOut c t u = (u ≡ t) ⊎ Opened c t u

-- The open checkout was closed.
abbrev Closed : ℕ → ℕ → CheckInInput → Stock → Stock → Type 0
Closed tenant asset x t u =
    (co : AssetCheckout) × (find_row (is_open tenant asset) t.checkouts ≡ some co)
    × (now : Time) × (u ≡ with_return tenant co.id x now t)

-- Under repair if damage was reported, and available otherwise.
pub data StatusFor : Bool → AssetStatus → Type 0 where
  damaged : StatusFor true under_repair
  sound : StatusFor false available

status_after-StatusFor : (x : CheckInInput) → StatusFor x.report_damage (status_after x)
status_after-StatusFor x = status_lem x.report_damage
  where
    status_lem : (b : Bool) → StatusFor b (if b then under_repair else available)
    status_lem true = damaged
    status_lem false = sound

abbrev pub CheckedIn : ℕ → ℕ → CheckInInput → Stock → AssetCheckout → Stock → Type 0
CheckedIn tenant asset x t updated u =
    (co : AssetCheckout) × (find_row (is_open tenant asset) t.checkouts ≡ some co)
    × (now : Time) × (later : Time) × (find_row (is_checkout tenant co.id) u.checkouts
        ≡ some updated)
    × (status : AssetStatus) × StatusFor x.report_damage status
    × (u ≡ set_asset_status tenant asset status later (with_return tenant co.id x now t))

abbrev pub NotCheckedIn : ℕ → ℕ → CheckInInput → Stock → Stock → Type 0
NotCheckedIn tenant asset x t u = (u ≡ t) ⊎ Closed tenant asset x t u

available_lem : (s : AssetStatus) → not (is_available s) ≡ false → s ≡ available
available_lem available h = refl
available_lem checked_out h = absurd (cc)
available_lem under_repair h = absurd (cc)
available_lem retired h = absurd (cc)

pub found_row-After :
    {A : Type 0} (R : Stock → Type 0) (s t : Stock) (o : Option A)
    → R s
    → AfterStatement (λ a u. (o ≡ some a) × (u ≡ t)) R s (found_row t o)
found_row-After R s t none lost = lost
found_row-After R s t (some a) lost = (refl, refl)

-- The status is written, or the tables stay.
pub update_asset_status-After :
    {P R : Stock → Type 0} {Q : Unit {0} → Stock → Type 0} (tenant id : ℕ) (status : AssetStatus)
    → ((t : Stock) → P t → R t)
    → ((now : Time) (t : Stock) → P t → Q tt (set_asset_status tenant id status now t))
    → Meets P Q R (update_asset_status tenant id status)
unfolding update_asset_status update_status_row
update_asset_status-After tenant id status lost done = Meets-query _ _ lost λ now t p.
    elim (Bool-cases (has_row (is_asset tenant id) t.assets)) [
      | inl there ↦ rw there (done now t p)
      | inr gone ↦ rw gone (lost t p)
    ]

module _ (t0 : Stock) where
  abbrev Same : Stock → Type 0
  Same t = t ≡ t0

  get_asset-Same :
      (R : Stock → Type 0) (tenant id : ℕ)
      → ((t : Stock) → Same t → R t)
      → Meets Same
          (λ a t. (find_row (is_asset tenant id) t0.assets ≡ some a) × Same t)
          R
          (get_asset tenant id)
  unfolding get_asset select_asset
  get_asset-Same R tenant id lost = Meets-query _ _ lost λ now t same.
      rw same (found_row-After R t0 t0 (find_row (is_asset tenant id) t0.assets) (lost t0 refl))

  record_checkout-Opened :
      (c : AssetCheckout) (id : ℕ)
      → Meets
          (λ t. Free c t0 × Same t)
          (λ _ t. Opened c t0 t)
          (NotCheckedOut c t0)
          (record_checkout (record c { id = id }))
  unfolding record_checkout insert_checkout
  record_checkout-Opened c id =
      Meets-query _ _ (λ t p. inl p.1)
        λ now t p. elim (Bool-cases (has_row (λ r. r.id == id) t.checkouts)) [
          | inl taken ↦ rw taken (inl p.1)
          | inr free ↦ elim (Bool-cases (has_row (λ a. a.id == c.asset_id) t.assets)) [
            | inl known ↦
                rw (free, known) (p.0, (id, now, ap (with_checkout (record c { id = id }) now) p.1))
            | inr unknown ↦ rw (free, unknown) (inl p.1)
          ]
        ]

  check_out_asset-Meets :
      (c : AssetCheckout)
      → Meets Same (λ _. CheckedOut c t0) (NotCheckedOut c t0) (check_out_asset c)
  unfolding check_out_asset
  check_out_asset-Meets c =
      Meets-bind (λ a t. (find_row (is_asset c.tenant_id c.asset_id) t0.assets ≡ some a) × Same t) _
        _ (get_asset-Same _ _ _ (λ t same. inl same))
        λ a.
          Meets-bind (λ _ t. Free c t0 × Same t) _ _
            (Meets-raise_if _ _ (λ t p. inl p.1)
              (λ t free p. ((a, p.0, available_lem a.status free), p.1)))
            λ _.
              Meets-bind (λ _ t. Free c t0 × Same t) _ _
                (Meets-if (c.id == 0) new_uuid (pure c.id) (λ _. Meets-new_uuid (λ id t p. p))
                  (λ _. Meets-pure c.id (λ t p. p)))
                λ id.
                  Meets-bind (λ _. Opened c t0) _ _ (record_checkout-Opened c id)
                    λ _.
                      update_asset_status-After c.tenant_id c.asset_id checked_out (λ t p. inr p)
                        (λ later t p.
                          let (free, (id', now, same)) = p in
                          (
                            free,
                            (
                              id',
                              now,
                              later,
                              ap (set_asset_status c.tenant_id c.asset_id checked_out later) same,
                            ),
                          ))

  module _ (tenant asset : ℕ) (x : CheckInInput) where
    abbrev Open : AssetCheckout → Stock → Type 0
    Open co t = (find_row (is_open tenant asset) t0.checkouts ≡ some co) × Same t

    abbrev Returned : AssetCheckout → AssetCheckout → Stock → Type 0
    Returned co updated t =
        (find_row (is_open tenant asset) t0.checkouts ≡ some co)
        × (now : Time) × (find_row (is_checkout tenant co.id) t.checkouts ≡ some updated)
        × (t ≡ with_return tenant co.id x now t0)

    get_active_checkout-Open :
        Meets Same Open (NotCheckedIn tenant asset x t0) (get_active_checkout tenant asset)
    unfolding get_active_checkout select_open
    get_active_checkout-Open =
        Meets-query _ _ (λ t same. inl same)
          λ now t same. rw same (
            found_row-After (NotCheckedIn tenant asset x t0) t0 t0
              (find_row (is_open tenant asset) t0.checkouts) (inl refl))

    record_return-Returned :
        (co : AssetCheckout)
        → Meets
            (Open co)
            (Returned co)
            (NotCheckedIn tenant asset x t0)
            (record_return tenant co.id x)
    unfolding record_return close_checkout
    record_return-Returned co =
        Meets-query _ _ (λ t p. inl p.1)
          λ now t p. elim (Bool-cases (cost_fits x.repair_cost)) [
            | inl fits ↦ rw fits (
                returned_lem now t p
                  (find_row (is_checkout tenant co.id) (with_return tenant co.id x now t).checkouts)
                  refl)
            | inr large ↦ rw large (inl p.1)
          ]
      where
        returned_lem :
            (now : Time) (t : Stock)
            → Open co t
            → (o : Option AssetCheckout)
            → find_row (is_checkout tenant co.id) (with_return tenant co.id x now t).checkouts ≡ o
            → AfterStatement
                (Returned co)
                (NotCheckedIn tenant asset x t0)
                t
                (found_row (with_return tenant co.id x now t) o)
        returned_lem now t p none h = inl p.1
        returned_lem now t p (some updated) h =
            (p.0, now, h, ap (with_return tenant co.id x now) p.1)

    check_in_asset-Meets :
        Meets Same
          (CheckedIn tenant asset x t0)
          (NotCheckedIn tenant asset x t0)
          (check_in_asset tenant asset x)
    unfolding check_in_asset
    check_in_asset-Meets = Meets-bind Open _ _ get_active_checkout-Open λ co.
        Meets-bind (Returned co) _ _ (record_return-Returned co) λ updated.
          Meets-bind (λ _. CheckedIn tenant asset x t0 updated) _ _
            (update_asset_status-After tenant asset (status_after x)
              (λ t p. let (open_row, now, found, same) = p in inr (co, open_row, now, same))
              (λ later t p.
                let (open_row, now, found, same) = p in
                (
                  co,
                  open_row,
                  now,
                  later,
                  found,
                  status_after x,
                  status_after-StatusFor x,
                  ap (set_asset_status tenant asset (status_after x) later) same,
                )))
            λ _. Meets-pure updated (λ t p. p)

-- When CheckOutAsset returns no error, the asset was there and available, and the tables have
-- changed by one new open checkout and the status of the asset, which is checked_out. When it
-- fails, at whatever step, the tables are unchanged, or the asset was available and the new open
-- checkout is there but the status of the asset is unchanged.
pub check_out_asset-CheckedOut :
    (c : AssetCheckout) (w : World Stock)
    → After
        (λ _. CheckedOut c w.tables)
        (NotCheckedOut c w.tables)
        (check_out_asset c w).0
        (check_out_asset c w).1.tables
check_out_asset-CheckedOut c w = (check_out_asset-Meets w.tables c).apply w refl

-- When CheckInAsset returns a checkout, it is the row that is now stored under the identifier of
-- the open checkout of the asset, that row was closed with what was reported, and the status of
-- the asset is under_repair if damage was reported and available otherwise. When it fails, at
-- whatever step, the tables are unchanged, or the open checkout was closed but the status of the
-- asset is unchanged.
pub check_in_asset-CheckedIn :
    (tenant asset : ℕ) (x : CheckInInput) (w : World Stock)
    → After
        (CheckedIn tenant asset x w.tables)
        (NotCheckedIn tenant asset x w.tables)
        (check_in_asset tenant asset x w).0
        (check_in_asset tenant asset x w).1.tables
check_in_asset-CheckedIn tenant asset x w =
    (check_in_asset-Meets w.tables tenant asset x).apply w refl
