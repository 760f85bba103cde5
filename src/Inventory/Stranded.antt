-- ===== src/Inventory/Stranded.antt =====
-- An asset that is not available and has no open checkout, as a check-in that fails may leave it.
use thittam.Base.{
  ℕ, ◌≡◌, refl, sym, ◌∙◌, ap, Bool, true, false, not, ◌&&◌, Option, none, some, List, [], ◌∷◌, ◌++◌,
  ◌==◌, eq_of_==, if◌then◌else◌, Bool-cases, inl, inr, arith,
}
use thittam.Base.Rows.{
  find_row, find_row-holds, has_row, update_rows, touched, find_row-update_rows,
}
use thittam.Base.Time.{Time}
use thittam.Base.Action.{pure, new_uuid}
use thittam.Base.Hoare.{
  AfterStatement, Meets, Meets-pure, Meets-if, Meets-bind, Meets-query, Meets-raise_if,
  Meets-new_uuid,
}
use thittam.Inventory.{
  AssetStatus, Asset, AssetCheckout, CheckInInput, Stock, is_asset, found_row, select_asset,
  get_asset, set_asset_status, with_asset_status, opened, with_checkout, insert_checkout,
  record_checkout, is_open, select_open, get_active_checkout, is_checkout, cost_fits, returned,
  with_return, close_checkout, record_return, is_available, check_out_asset, status_after,
  check_in_asset, checked_out,
}
use thittam.Inventory.Custody.{update_asset_status-After}

abbrev pub Stranded : ℕ → ℕ → Stock → Type 0
Stranded tenant asset t =
    (a : Asset) × (find_row (is_asset tenant asset) t.assets ≡ some a)
    × (is_available a.status ≡ false)
    × (find_row (is_open tenant asset) t.checkouts ≡ none)

-- Another asset.
abbrev Other : ℕ → ℕ → ℕ → ℕ → Type 0
Other tenant asset tenant' asset' = (asset' ≡ asset) → (tenant' ≡ tenant) → ⊥

find_row-append_none :
    (q : AssetCheckout → Bool) (xs : List AssetCheckout) (x : AssetCheckout)
    → find_row q xs ≡ none
    → q x ≡ false
    → find_row q (xs ++ x ∷ []) ≡ none
unfolding find_row
find_row-append_none q [] x h e = ground arith
find_row-append_none q (y ∷ xs) x h e = ground (arith, find_row-append_none q xs x)

find_row-update_none :
    (p q : AssetCheckout → Bool) (f : AssetCheckout → AssetCheckout) (xs : List AssetCheckout)
    → ((x : AssetCheckout) → q (f x) ≡ false)
    → find_row q xs ≡ none
    → find_row q (update_rows p f xs) ≡ none
unfolding find_row update_rows
find_row-update_none p q f [] e h = refl
find_row-update_none p q f (x ∷ xs) e h = ground (arith, find_row-update_none p q f xs e, e x)

module _ (tenant asset : ℕ) where
  other_lem :
      (tenant' asset' : ℕ) (b : Bool)
      → Other tenant asset tenant' asset'
      → (asset' == asset && (tenant' == tenant && b)) ≡ false
  other_lem tenant' asset' b other = elim (Bool-cases (asset' == asset)) [
    | inr apart ↦ rw apart refl
    | inl same ↦ elim (Bool-cases (tenant' == tenant)) [
      | inr apart ↦ rw (same, apart) refl
      | inl same' ↦ absurd (other (eq_of_== asset' asset same) (eq_of_== tenant' tenant same'))
    ]
  ]

  closed_lem :
      (c : AssetCheckout) (x : CheckInInput) (now : Time)
      → is_open tenant asset (returned x now c) ≡ false
  closed_lem c x now = ground arith

  set_asset_status-Stranded :
      (tenant' asset' : ℕ) (status : AssetStatus) (now : Time) (t : Stock)
      → Other tenant asset tenant' asset'
      → Stranded tenant asset t
      → Stranded tenant asset (set_asset_status tenant' asset' status now t)
  set_asset_status-Stranded tenant' asset' status now t other (a, there, busy, none_open) =
      let hit = find_row-holds (is_asset tenant asset) t.assets there in
      let same_id : a.id ≡ asset = ground (arith, eq_of_== a.id asset) in
      let same_tenant : a.tenant_id ≡ tenant = ground (arith, eq_of_== a.tenant_id tenant) in
      let missed : is_asset tenant' asset' a ≡ false =
        elim (Bool-cases (is_asset tenant' asset' a)) [
          | inr apart ↦ apart
          | inl touched_too ↦
              let at : a.id ≡ asset' = ground (arith, eq_of_== a.id asset') in
              let by : a.tenant_id ≡ tenant' = ground (arith, eq_of_== a.tenant_id tenant') in
              absurd (other (sym at ∙ same_id) (sym by ∙ same_tenant))
        ] in
      (
        a,
        find_row-update_rows (is_asset tenant' asset') (is_asset tenant asset)
              (with_asset_status status now) t.assets (λ x. refl)
            ∙ ap (touched (is_asset tenant' asset') (with_asset_status status now)) there
            ∙ ap (λ b. some (if b then with_asset_status status now a else a)) missed,
        busy,
        none_open,
      )

  with_checkout-Stranded :
      (c : AssetCheckout) (now : Time) (t : Stock)
      → Other tenant asset c.tenant_id c.asset_id
      → Stranded tenant asset t
      → Stranded tenant asset (with_checkout c now t)
  with_checkout-Stranded c now t other (a, there, busy, none_open) = (
    a,
    there,
    busy,
    find_row-append_none (is_open tenant asset) t.checkouts (opened c now) none_open
        (other_lem c.tenant_id c.asset_id true other),
  )

  with_return-Stranded :
      (tenant' id : ℕ) (x : CheckInInput) (now : Time) (t : Stock)
      → Stranded tenant asset t
      → Stranded tenant asset (with_return tenant' id x now t)
  with_return-Stranded tenant' id x now t (a, there, busy, none_open) = (
    a,
    there,
    busy,
    find_row-update_none (is_checkout tenant' id) (is_open tenant asset) (returned x now)
        t.checkouts (λ c. closed_lem c x now) none_open,
  )

  -- An asset that is found and available is another.
  free_lem :
      (tenant' asset' : ℕ) (a : Asset) (t : Stock)
      → find_row (is_asset tenant' asset') t.assets ≡ some a
      → not (is_available a.status) ≡ false
      → Stranded tenant asset t
      → Other tenant asset tenant' asset'
  free_lem tenant' asset' a t found free (b, there, busy, none_open) same same' =
      let again : find_row (is_asset tenant asset) t.assets ≡ some a = rw (← same, ← same') found in
      let one : b ≡ a = ground (arith, there, again) in
      let free' : is_available a.status ≡ false = rw (← one) busy in
      absurd (ground (arith, free, free'))

  pub check_out_asset-Stranded :
      (c : AssetCheckout)
      → Meets
          (Stranded tenant asset)
          (λ _. Stranded tenant asset)
          (Stranded tenant asset)
          (check_out_asset c)
  unfolding check_out_asset get_asset select_asset record_checkout insert_checkout
  check_out_asset-Stranded c =
      Meets-bind
        (λ a t.
          (find_row (is_asset c.tenant_id c.asset_id) t.assets ≡ some a) × Stranded tenant asset t)
        _ _
        (Meets-query _ _ (λ t p. p)
          (λ now t p. found_asset t (find_row (is_asset c.tenant_id c.asset_id) t.assets) refl p))
        λ a.
          Meets-bind (λ _ t. Other tenant asset c.tenant_id c.asset_id × Stranded tenant asset t) _
            _
            (Meets-raise_if _ _ (λ t p. p.1)
              (λ t free p. (free_lem c.tenant_id c.asset_id a t p.0 free p.1, p.1)))
            λ _.
              Meets-bind
                (λ _ t. Other tenant asset c.tenant_id c.asset_id × Stranded tenant asset t) _ _
                (Meets-if (c.id == 0) new_uuid (pure c.id) (λ _. Meets-new_uuid (λ id t p. p))
                  (λ _. Meets-pure c.id (λ t p. p)))
                λ id.
                  Meets-bind
                    (λ _ t. Other tenant asset c.tenant_id c.asset_id × Stranded tenant asset t) _ _
                    (Meets-query _ _ (λ t p. p.1) (inserted_lem (record c { id = id })))
                    λ _.
                      update_asset_status-After c.tenant_id c.asset_id checked_out (λ t p. p.1)
                        (λ later t p.
                          set_asset_status-Stranded c.tenant_id c.asset_id checked_out later t p.0
                            p.1)
    where
      found_asset :
          (t : Stock) (o : Option Asset)
          → find_row (is_asset c.tenant_id c.asset_id) t.assets ≡ o
          → Stranded tenant asset t
          → AfterStatement
              (λ a u.
                (find_row (is_asset c.tenant_id c.asset_id) u.assets ≡ some a)
                × Stranded tenant asset u)
              (Stranded tenant asset)
              t
              (found_row t o)
      found_asset t none h p = p
      found_asset t (some a) h p = (h, p)

      inserted_lem :
          (d : AssetCheckout) (now : Time) (t : Stock)
          → Other tenant asset d.tenant_id d.asset_id × Stranded tenant asset t
          → AfterStatement
              (λ _ u. Other tenant asset d.tenant_id d.asset_id × Stranded tenant asset u)
              (Stranded tenant asset)
              t
              (insert_checkout d now t)
      inserted_lem d now t p = elim (Bool-cases (has_row (λ r. r.id == d.id) t.checkouts)) [
        | inl taken ↦ rw taken p.1
        | inr free ↦ elim (Bool-cases (has_row (λ a. a.id == d.asset_id) t.assets)) [
          | inl known ↦ rw (free, known) (p.0, with_checkout-Stranded d now t p.0 p.1)
          | inr unknown ↦ rw (free, unknown) p.1
        ]
      ]

  pub check_in_asset-Stranded :
      (tenant' asset' : ℕ) (x : CheckInInput)
      → Meets
          (Stranded tenant asset)
          (λ _. Stranded tenant asset)
          (Stranded tenant asset)
          (check_in_asset tenant' asset' x)
  unfolding check_in_asset get_active_checkout select_open record_return close_checkout
  check_in_asset-Stranded tenant' asset' x =
      Meets-bind (λ _ t. Other tenant asset tenant' asset' × Stranded tenant asset t) _ _
        (Meets-query _ _ (λ t p. p)
          (λ now t p. found_open t (find_row (is_open tenant' asset') t.checkouts) refl p))
        λ co.
          Meets-bind (λ _ t. Other tenant asset tenant' asset' × Stranded tenant asset t) _ _
            (Meets-query _ _ (λ t p. p.1)
              (λ now t p. elim (Bool-cases (cost_fits x.repair_cost)) [
                | inr large ↦ rw large p.1
                | inl fits ↦ rw fits (
                    closed_row co.id now t
                      (find_row (is_checkout tenant' co.id)
                        (with_return tenant' co.id x now t).checkouts)
                      p)
              ]))
            λ updated.
              Meets-bind (λ _. Stranded tenant asset) _ _
                (update_asset_status-After tenant' asset' (status_after x) (λ t p. p.1)
                  (λ later t p.
                    set_asset_status-Stranded tenant' asset' (status_after x) later t p.0 p.1))
                λ _. Meets-pure updated (λ t p. p)
    where
      found_open :
          (t : Stock) (o : Option AssetCheckout)
          → find_row (is_open tenant' asset') t.checkouts ≡ o
          → Stranded tenant asset t
          → AfterStatement
              (λ _ u. Other tenant asset tenant' asset' × Stranded tenant asset u)
              (Stranded tenant asset)
              t
              (found_row t o)
      found_open t none h p = p
      found_open t (some co) h p = (
        (λ same same'.
            let (a, there, busy, none_open) = p in
            let open_row : find_row (is_open tenant asset) t.checkouts ≡ some co =
              rw (← same, ← same') h in
            absurd (ground (arith, none_open, open_row))),
        p,
      )

      closed_row :
          (id : ℕ) (now : Time) (t : Stock) (o : Option AssetCheckout)
          → Other tenant asset tenant' asset' × Stranded tenant asset t
          → AfterStatement
              (λ _ u. Other tenant asset tenant' asset' × Stranded tenant asset u)
              (Stranded tenant asset)
              t
              (found_row (with_return tenant' id x now t) o)
      closed_row id now t none p = p.1
      closed_row id now t (some co) p = (p.0, with_return-Stranded tenant' id x now t p.1)
