-- ===== src/Lib.antt =====
-- Vault67, a personal-finance application on Django: its calculations and the rules of its ledger.
--
-- The program keeps users' accounts, a ledger of transactions with signed entries, brokerage trades
-- beside it, exchange rates and prices, and tax years with manual items and rules. Everything else is
-- calculated: balances sum entries, holdings and gains are replayed from trades, a valuation combines
-- holdings, prices, rates and the cash balance, and the yearly tax estimate reads all of these.
--
-- The files, and the code each is about (paths from the repository's root):
-- - Base: tests, integers, queries as list filters, exceptions as results, texts. A queryset's filter
--   is `where_rows`, `raise` is `err`, and `atomic` is an explicit database: an error carries none, so
--   the caller's stands.
-- - Text: Python's `str` as the source uses it. Text/Numbers reads and prints numbers, Text/Regex runs
--   the regular expressions of ledger/imports.py. Case folding and the value of a digit of any script
--   are parameters, with the values of ASCII digits as their law.
-- - Decimal: Python's decimal numbers under a context of `prec` digits with ROUND_HALF_EVEN. A value is
--   a whole number of units of 10^-places; every finite value of a context is one for places = -Etiny,
--   and the theorems hold for every context, or name what they ask of it. Signed zeros are one value,
--   the upper exponent limit is not modelled, and unary minus and abs are exact. Decimal/Rounding and
--   Decimal/Laws hold what the services rely on. Digits are counted with fuel; a number is fuel
--   enough for its own digits.
-- - Core: core/models.py and core/services/fx.py. Core/Ordering is the ordering of observations by
--   date, source and time stamp, with the collation of the database as a parameter. Core/Calendar is
--   `datetime.date`; `fromordinal` walks through the 9999 years at most that dates have.
-- - Database: the tables that the services share. Primary keys are numbers, a related row is held by
--   value, and dates are day numbers. Today's date is an argument.
-- - Ledger: ledger/models.py, ledger/services.py and ledger/calculations/interest.py. `create` is
--   `_create`. Imports is ledger/imports.py (Csv and Pdf the two kinds of file, Statement the rows of a
--   statement, Posting the posting of what was read), Exports is ledger/exports.py, and History is
--   every sequence of calls of the services. Views is ledger/views.py with the checks of
--   ledger/forms.py. Decimal's power with a fractional exponent is a parameter of compound interest.
-- - Accounts: accounts/models.py with its `clean` methods, and accounts/services/fixed_term.py; Forms
--   is accounts/forms.py from the cleaned fields on, and Views is accounts/views.py over all tables.
-- - Investments: investments/models.py and investments/services. Holdings is holdings.py, CostBasis is
--   cost_basis.py, Pricing is pricing.py, Posting is transactions.py, Valuation is valuation.py. The
--   lock on the account serialises posts, so a post is a function of the database before it. Views
--   is the portfolio and the positions of investments/views.py, and the checks of its forms.py.
-- - Tax: tax/models.py (Models the tables, Checks the `clean`, `save` and `delete` methods),
--   tax/services/returns.py (Returns) and tax/services/aggregation.py (Aggregation: Models its lines,
--   Collect the reading of events, Items that of manual items, Reductions the reductions and rules,
--   Build the summary). Views is tax/views.py: archiving, the gate of filed years and the export.
-- - Dashboard: dashboard/views.py, its totals and its charts.
-- - Tests: runs on fixed inputs.
--
-- Services call one another as they do in the source: Posting reads Holdings and writes the ledger,
-- Valuation reads Holdings, Pricing, the balance and Core/Fx, and Aggregation reads the ledger, the
-- audit trail of CostBasis and Core/Fx. Messages of validation errors are values of data types; a key
-- that a later message overwrites keeps the later one.
--
-- Imports and the Views of Accounts and Ledger call the ledger's services. What `csv` makes of a text
-- and `pypdf` of a file are parameters of the imports, and a file exported is the cells that
-- `csv.writer` is given.
--
-- Not modelled: the validation of single form fields, lists and pages of the framework, the forms of
-- tax, urls, templates, admin and settings (they call the services modelled here), backup and
-- the management commands, migrations, and the database's own constraints and field validators.
pub mod Base
pub mod Decimal
pub mod Text
pub mod Core
pub mod Tax
pub mod Accounts
pub mod Database
pub mod Ledger
pub mod Investments
pub mod Dashboard
pub mod Tests
