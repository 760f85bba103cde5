-- ===== src/Ledger/Chart/BankCodes.antt =====
-- The code that CreateBankAccount gives to a bank account.
use thittam.Base.{
  ℕ, ◌≡◌, Bool, true, false, Option, none, some, List, [], ◌∷◌, All, ◌==◌, ==_refl, ◌≤◌, ◌<◌, ltb,
  if◌then◌else◌, arith, Bool-cases, inl, inr,
}
use thittam.Base.Text.{Text, decimal}
use thittam.Base.Action.{Result, ok, err}
use thittam.Ledger.Model.{Error}
use thittam.Ledger.Tables.{AccountRow}
use thittam.Ledger.Queries.Accounts.{bank_code, max_bank_code, larger_code}
use thittam.Ledger.Chart.{next_bank_code, next_bank_number}

-- The row is another tenant's, or has no code of the range 1000 to 1999, or one of at most `n`.
abbrev pub AtMost : ℕ → Option ℕ → Type 0
AtMost n none = Unit
AtMost n (some c) = c ≤ n

abbrev pub CodesAtMost : ℕ → ℕ → List AccountRow → Type 0
CodesAtMost tenant n = All (λ a. a.tenant_id ≡ tenant → AtMost n (bank_code a.code))

true-ne : let b = false in b ≡ true → ⊥
true-ne h = cc

err-not_ok : {x : Error} {c : Text} → let r : Result Error Text = err x in r ≡ ok c → ⊥
err-not_ok h = cc

ok-same : {c d : Text} → let r : Result Error Text = ok d in r ≡ ok c → c ≡ d
ok-same h = cc

AtMost-larger : (o : Option ℕ) (n : ℕ) → AtMost (larger_code o n) o × (n ≤ larger_code o n)
AtMost-larger none n = (tt, ground arith)
AtMost-larger (some c) n = (ground arith, ground arith)

AtMost-trans : (m n : ℕ) (o : Option ℕ) → m ≤ n → AtMost m o → AtMost n o
AtMost-trans m n none h k = tt
AtMost-trans m n (some c) h k = omega arith

CodesAtMost-trans :
    (tenant m n : ℕ) (rows : List AccountRow)
    → m ≤ n
    → CodesAtMost tenant m rows
    → CodesAtMost tenant n rows
CodesAtMost-trans tenant m n [] h k = tt
CodesAtMost-trans tenant m n (a ∷ rows) h (here, rest) =
    ((λ same. AtMost-trans m n _ h (here same)), CodesAtMost-trans tenant m n rows h rest)

counted-CodesAtMost :
    (ours : Bool) (tenant n : ℕ) (a : AccountRow) (rows : List AccountRow)
    → (a.tenant_id ≡ tenant → ours ≡ true)
    → CodesAtMost tenant n rows
    → CodesAtMost tenant (if ours then larger_code (bank_code a.code) n else n) (a ∷ rows)
counted-CodesAtMost true tenant n a rows same h =
    let (here, more) = AtMost-larger (bank_code a.code) n in
    ((λ e. here), CodesAtMost-trans tenant n _ rows more h)
counted-CodesAtMost false tenant n a rows same h = ((λ e. absurd (true-ne (same e))), h)

max_bank_code-CodesAtMost :
    (tenant : ℕ) (rows : List AccountRow) → CodesAtMost tenant (max_bank_code tenant rows) rows
unfolding max_bank_code
max_bank_code-CodesAtMost tenant [] = tt
max_bank_code-CodesAtMost tenant (a ∷ rows) =
    counted-CodesAtMost (a.tenant_id == tenant) tenant _ a rows (λ e. rw e (==_refl tenant))
      (max_bank_code-CodesAtMost tenant rows)

-- The code is a number below 2000, and above every code of the tenant that is in the range.
pub record Free (tenant : ℕ) (rows : List AccountRow) (code : Text) : Type 0 where
  pub number : ℕ
  pub is_decimal : code ≡ decimal number
  pub in_range : number ≤ 1999
  pub highest : ℕ
  pub below : highest < number
  pub others : CodesAtMost tenant highest rows

next_bank_number-above : (n : ℕ) → n < next_bank_number n
next_bank_number-above n = ground arith

number-ok :
    (n : ℕ) {code : Text}
    → next_bank_code n ≡ ok code
    → (code ≡ decimal (next_bank_number n)) × (next_bank_number n ≤ 1999)
unfolding next_bank_code
number-ok n h = elim (Bool-cases (ltb 1999 (next_bank_number n))) [
  | inl over ↦ absurd (err-not_ok (rw over at h))
  | inr within ↦ (ok-same (rw within at h), ground arith)
]

-- The code that nextBankCode makes of the highest code of the tenant is a number of at most
-- 1999, above every code of the tenant in the range 1000 to 1999.
pub next_bank_code-Free :
    (tenant : ℕ) (rows : List AccountRow) (code : Text)
    → next_bank_code (max_bank_code tenant rows) ≡ ok code
    → Free tenant rows code
next_bank_code-Free tenant rows code h =
    let (is_decimal, in_range) = number-ok (max_bank_code tenant rows) h in
    record {
      number = next_bank_number (max_bank_code tenant rows);
      is_decimal = is_decimal;
      in_range = in_range;
      highest = max_bank_code tenant rows;
      below = next_bank_number-above _;
      others = max_bank_code-CodesAtMost tenant rows;
    }
