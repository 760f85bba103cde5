-- ===== src/Ledger/Chart/Codes.antt =====
-- The codes of a tenant's accounts stay distinct.
use thittam.Base.{
  ℕ, zero, suc, ◌≡◌, Bool, false, Option, none, some, List, [], ◌∷◌, ◌++◌, All, All-append, ◌==◌,
  if◌then◌else◌, arith,
}
use thittam.Base.Rows.{has_row, update_rows}
use thittam.Base.Text.{Text}
use thittam.Base.Time.{Time}
use thittam.Base.Action.{World, Result, ok, err, query}
use thittam.Base.Keeps.{
  Keeps, Keeps-query, Keeps-bind, Keeps-attempt, Keeps-map_error, OnSuccess, OnSuccess-if,
  OnSuccess-ok, OnSuccess-err, keeps_rules,
}
use thittam.Ledger.Model.{Account, Error, CostBehavior, account_code_exists}
use thittam.Ledger.Tables.{Tables, AccountRow}
use thittam.Ledger.Queries.Accounts.{
  account_checks, parent_exists, has_code, classify, classified, create_account as insert_account,
  set_account_cost_behavior as update_cost_behavior, next_bank_account_code as select_next_code,
}
use thittam.Ledger.Postgres.{next_bank_account_code}
use thittam.Ledger.Postgres
use thittam.Ledger.Postgres.Frames.{lookup_rules}
use thittam.Ledger.Postgres.Convert.{account_row}
use thittam.Ledger.Journal.Atomicity.{id_or_new-Keeps}
use thittam.Ledger.Chart.{
  create_account, resolve_parent, seed_chart_of_accounts, ChartOfAccountEntry, try_codes, retried,
  create_bank_account, BankAccountInput, set_account_cost_behavior,
}

-- No later row has the tenant and the code of `a`.
abbrev pub Apart : AccountRow → List AccountRow → Type 0
Apart a = All (λ b. has_code b.tenant_id b.code a ≡ false)

abbrev pub IsDistinct : List AccountRow → Type 0
IsDistinct [] = Unit
IsDistinct (a ∷ rest) = Apart a rest × IsDistinct rest

abbrev pub DistinctCodes : Tables → Type 0
DistinctCodes t = IsDistinct t.accounts

IsDistinct-append :
    (rows : List AccountRow) (a : AccountRow)
    → has_row (has_code a.tenant_id a.code) rows ≡ false
    → IsDistinct rows
    → IsDistinct (rows ++ a ∷ [])
unfolding has_row
IsDistinct-append [] a absent h = (tt, tt)
IsDistinct-append (r ∷ rows) a absent (apart, h) =
    (All-append _ rows _ apart (ground arith, tt), IsDistinct-append rows a (ground arith) h)

insert_account-IsDistinct :
    (a : AccountRow) (now : Time) (t : Tables)
    → DistinctCodes t
    → OnSuccess DistinctCodes (insert_account a now t)
unfolding insert_account
insert_account-IsDistinct a now t h =
    OnSuccess-if (account_checks a) _ _
      (λ checked.
        OnSuccess-if _ _ _ (λ taken. OnSuccess-err _)
          λ free.
            OnSuccess-if (has_row (λ x. x.id == a.id) t.accounts) _ _ (λ same_id. OnSuccess-err _)
              λ new_id.
                OnSuccess-if (parent_exists t a.parent_id) _ _
                  (λ parent. OnSuccess-ok _ _ (IsDistinct-append t.accounts a free h))
                  (λ orphan. OnSuccess-err _))
      (λ refused. OnSuccess-err _)

Apart-classify :
    (p : AccountRow → Bool) (b : Option CostBehavior) (a : AccountRow) (rows : List AccountRow)
    → Apart a rows
    → Apart (if p a then classify b a else a) (update_rows p (classify b) rows)
unfolding update_rows
Apart-classify p b a [] h = tt
Apart-classify p b a (r ∷ rows) (apart, h) = (ground arith, Apart-classify p b a rows h)

IsDistinct-classify :
    (p : AccountRow → Bool) (b : Option CostBehavior) (rows : List AccountRow)
    → IsDistinct rows
    → IsDistinct (update_rows p (classify b) rows)
unfolding update_rows
IsDistinct-classify p b [] h = tt
IsDistinct-classify p b (r ∷ rows) (apart, h) =
    (Apart-classify p b r rows apart, IsDistinct-classify p b rows h)

classified-IsDistinct :
    (p : AccountRow → Bool) (b : Option CostBehavior) (t : Tables) (o : Option AccountRow)
    → DistinctCodes t
    → OnSuccess DistinctCodes (classified p b t o)
classified-IsDistinct p b t none h = OnSuccess-err _
classified-IsDistinct p b t (some a) h = OnSuccess-ok _ _ (IsDistinct-classify p b t.accounts h)

update_cost_behavior-IsDistinct :
    (id tenant : ℕ) (b : Option CostBehavior)
    → Keeps DistinctCodes (query (update_cost_behavior id tenant b))
unfolding update_cost_behavior
update_cost_behavior-IsDistinct id tenant b =
    Keeps-query _ λ now t h. classified-IsDistinct _ b t _ h

store-IsDistinct : (a : Account) → Keeps DistinctCodes (Postgres.create_account a)
unfolding Postgres.create_account
store-IsDistinct a =
    Keeps-bind _ _ (Keeps-map_error _ _ (Keeps-query _ (insert_account-IsDistinct (account_row a))))
      (λ row. search keeps_rules)

next_code-Keeps : (tenant : ℕ) → Keeps DistinctCodes (next_bank_account_code tenant)
unfolding next_bank_account_code select_next_code
next_code-Keeps tenant = Keeps-map_error _ _ (Keeps-query _ λ now t h. OnSuccess-ok _ t h)

classify-IsDistinct :
    (tenant id : ℕ) (b : CostBehavior)
    → Keeps DistinctCodes (Postgres.set_account_cost_behavior tenant id b)
unfolding Postgres.set_account_cost_behavior
classify-IsDistinct tenant id b = search (keeps_rules, update_cost_behavior-IsDistinct)

pub create_account-IsDistinct : (a : Account) → Keeps DistinctCodes (create_account a)
unfolding create_account
create_account-IsDistinct a = search (keeps_rules, id_or_new-Keeps, store-IsDistinct)

pub set_account_cost_behavior-IsDistinct :
    (tenant id : ℕ) (b : CostBehavior) → Keeps DistinctCodes (set_account_cost_behavior tenant id b)
unfolding set_account_cost_behavior
set_account_cost_behavior-IsDistinct tenant id b =
    search (keeps_rules, lookup_rules, classify-IsDistinct) depth 9

resolve_parent-Keeps :
    (tenant : ℕ) (code : Option Text) → Keeps DistinctCodes (resolve_parent tenant code)
unfolding resolve_parent
resolve_parent-Keeps tenant none = search keeps_rules
resolve_parent-Keeps tenant (some code) = search (keeps_rules, lookup_rules)

pub seed_chart_of_accounts-IsDistinct :
    (tenant : ℕ) (es : List ChartOfAccountEntry)
    → Keeps DistinctCodes (seed_chart_of_accounts tenant es)
unfolding seed_chart_of_accounts
seed_chart_of_accounts-IsDistinct tenant [] = search keeps_rules
seed_chart_of_accounts-IsDistinct tenant (e ∷ es) =
    Keeps-bind _ _ (resolve_parent-Keeps tenant e.parent_code) λ parent.
      Keeps-bind _ _ (search keeps_rules) λ id.
        Keeps-bind _ _ (Keeps-attempt _ (store-IsDistinct _)) λ made.
          Keeps-bind _ _ (search keeps_rules) λ _. seed_chart_of_accounts-IsDistinct tenant es

retried-IsDistinct :
    (made : Result Error Account) (again : Postgres.Repo Account)
    → Keeps DistinctCodes again
    → Keeps DistinctCodes (retried made again)
retried-IsDistinct (ok a) again h = search keeps_rules
retried-IsDistinct (err account_code_exists) again h = h
retried-IsDistinct (err x) again h = search keeps_rules

try_codes-IsDistinct :
    (left : ℕ) (last : Error) (tenant : ℕ) (name last4 currency : Text)
    → Keeps DistinctCodes (try_codes left last tenant name last4 currency)
unfolding try_codes
try_codes-IsDistinct zero last tenant name last4 currency = search keeps_rules
try_codes-IsDistinct (suc left) last tenant name last4 currency =
    Keeps-bind _ _ (next_code-Keeps tenant) λ highest. Keeps-bind _ _ (search keeps_rules) λ code.
      Keeps-bind _ _ (search keeps_rules) λ id.
        Keeps-bind _ _ (Keeps-attempt _ (store-IsDistinct _)) λ made.
          retried-IsDistinct made _
            (try_codes-IsDistinct left account_code_exists tenant name last4 currency)

pub create_bank_account-IsDistinct :
    (tenant : ℕ) (input : BankAccountInput) → Keeps DistinctCodes (create_bank_account tenant input)
unfolding create_bank_account
create_bank_account-IsDistinct tenant input = search (keeps_rules, try_codes-IsDistinct) depth 9

-- The calls of the service that change the chart of accounts.
pub data ChartRequest : Type 0 where
  create : Account → ChartRequest
  seed : ℕ → List ChartOfAccountEntry → ChartRequest
  create_bank : ℕ → BankAccountInput → ChartRequest
  set_behavior : (tenant id : ℕ) → CostBehavior → ChartRequest

abbrev pub chart_after : ChartRequest → World Tables → World Tables
chart_after (create a) w = (create_account a w).1
chart_after (seed tenant es) w = (seed_chart_of_accounts tenant es w).1
chart_after (create_bank tenant input) w = (create_bank_account tenant input w).1
chart_after (set_behavior tenant id b) w = (set_account_cost_behavior tenant id b w).1

unfoldable pub chart_history : List ChartRequest → World Tables → World Tables
chart_history [] w = w
chart_history (r ∷ rs) w = chart_history rs (chart_after r w)

chart_after-IsDistinct :
    (r : ChartRequest) (w : World Tables)
    → DistinctCodes w.tables
    → DistinctCodes (chart_after r w).tables
chart_after-IsDistinct (create a) w h = (create_account-IsDistinct a).apply w h
chart_after-IsDistinct (seed tenant es) w h =
    (seed_chart_of_accounts-IsDistinct tenant es).apply w h
chart_after-IsDistinct (create_bank tenant input) w h =
    (create_bank_account-IsDistinct tenant input).apply w h
chart_after-IsDistinct (set_behavior tenant id b) w h =
    (set_account_cost_behavior-IsDistinct tenant id b).apply w h

-- After any sequence of calls of CreateAccount, SeedChartOfAccounts, CreateBankAccount and
-- SetAccountCostBehavior, each of which may fail at any of its calls of the database, no two
-- accounts of a tenant have the same code, if none had before.
pub chart_history-IsDistinct :
    (rs : List ChartRequest) (w : World Tables)
    → DistinctCodes w.tables
    → DistinctCodes (chart_history rs w).tables
unfolding chart_history
chart_history-IsDistinct [] w h = h
chart_history-IsDistinct (r ∷ rs) w h = chart_history-IsDistinct rs _ (chart_after-IsDistinct r w h)
