-- ===== src/Lib.antt =====
-- The ledger, the billing, the registration, the expenses and the inventory of Thittam, a multi-tenant
-- back office for project-based businesses.
--
-- The general ledger, services/ledger, is a service over a repository over a PostgreSQL database.
--   Ledger/Model.antt is models.go, errors.go and the records of party.go.
--   Ledger/Tables.antt is db/models.go: the rows of the tables, and the database as one record.
--   Ledger/Queries.antt and its child Accounts are db/queries.sql.go: one definition for each
--     statement, with the constraints of migrations/ledger that it meets.
--   Ledger/Postgres.antt and its child Convert are db/postgres.go, the repository.
--   Ledger/Journal.antt is the part of service.go on journal entries: CreateJournalEntry,
--     PostJournalEntry and VoidJournalEntry. Its children hold the proofs.
--   Ledger/Chart.antt is the part of service.go and bank_account.go on the chart of accounts, bank
--     accounts and periods. Ledger/Trial.antt is GetTrialBalance, with its joins.
--   Ledger/Monthly.antt is GetMonthlyCostBehavior of the service and the repository. Its children are
--     Months on the months as texts, Sums and Buckets on the sums of a month, Spending on those sums
--     apart from the statement, Report on the whole.
--   Ledger/Samples.antt and Ledger/Tests.antt, with its children, run the model on a
--     small set of books.
--
-- Billing, services/billing: Billing/Subscriptions.antt is the part of service.go on the plan and the
-- status of a subscription and on the limits of a plan, with its part of db/postgres.go.
-- Billing/Outbox.antt is outbox_relay.go and the outbox's part of db/postgres.go. The broker is a call
-- that may fail; the identifiers that it has accepted are part of the state.
--
-- Registration, pkg/registration, takes a new customer through nine steps, and undoes those on the
-- tenant, the user and the binding of the vertical when a critical one after them fails.
--   Registration/Slug.antt is slug.go, and Registration/Locale.antt is pkg/locale/currency.go.
--   Registration/Ports.antt is ports.go, errors.go, events.go and the records of saga.go: the stores,
--     the seeders, the broker and the mailer are one record of operations, which every definition
--     takes as a parameter, over an outside of any type.
--   Registration/Request.antt is the validation of request.go.
--   Registration/Desk.antt and Registration/Saga.antt are the orchestrator of saga.go: how a saga is
--     stored, failed and compensated, and then the steps, Start, Resume and GetStatus. The children
--     of Saga hold the proofs.
--
-- Expenses, services/expense: Expense.antt is models.go, errors.go, and the parts of service.go and of
-- db on submitting, approving and rejecting an expense, on the approval of a purchase order and on the
-- settlement of petty cash, with the approval limits of pkg/vertical/helpers.go. The ledger, the
-- billing, the registration and the expenses do not call each other here; the registration seeds
-- the ledger and the expenses through its ports. Expense/Workflow.antt holds the abstract workflow,
-- and Expense/Limits.antt who may approve an amount.
--
-- Inventory, services/inventory: Inventory.antt is models.go, errors.go, and check-out and check-in of
-- service.go and of db. Inventory/Custody.antt has what each leaves, also when it fails, and
-- Inventory/History.antt sequences of them.
--
-- Base holds what the parts share. Base/Action.antt is the monad of the code: an operation reads and
-- changes a world, which is the tables, a count of the calls made, and an environment that decides
-- for each call which identifier uuid.New gives, what the clock shows and whether the database fails.
-- A theorem about every world is thus about every failure of every single statement. A transaction
-- restores the tables when its body or its commit fails. Base/Keeps, Base/Atomic, Base/Inversion and
-- Base/Runs have one rule for each way to build an operation: what it keeps, what it restores, what
-- its success implies and when it succeeds. Base/Hoare has the rules for what holds after an operation
-- when it returns and when it fails. Base/Strings.antt is what the program takes
-- from the packages strings and regexp.
--
-- An identifier is a natural number, with 0 for uuid.Nil; the order of the identifiers is that of
-- the numbers. An amount is an integer number of hundredths, as in NUMERIC(14,2), whose range the
-- insert of a line checks; an amount with more than two decimal places is not modelled. A text is
-- the list of its code points. A table is the list of its rows. A call of the service runs to its
-- end before the next begins: the interleaving of concurrent transactions is not modelled, nor are
-- the tracing spans, the contexts, the error messages and the wrapping of errors beyond which error
-- a caller can tell apart with errors.Is. Only two definitions count down: the printing of a
-- decimal, where a number has fewer digits than its value plus one, and the loop of the monthly
-- report, where 36 rounds are enough since a longer range is refused.
--
-- Not modelled in these parts: the lists by page, Pipeline.Run and the stores of the registration in
-- pkg/registration/db, the creation of purchase orders, of advances and of assets, the creation and
-- the suspension of subscriptions, invoices and payments, months after the year 9999, and the
-- handlers between the messages of the protocol and these records. The components of the program
-- that no file names are not modelled either: iam, documents, projects, budgets, reporting,
-- notifications, payments and the plumbing of the servers.
pub mod Base
pub mod Ledger
pub mod Registration
pub mod Expense
pub mod Inventory
pub mod Billing
